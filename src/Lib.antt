-- ===== src/Lib.antt =====
-- areamy: dataflow graphs whose nodes run on threads of their own (work) or are polled (poll).
--
-- Nodes exchange messages (data, and the signals Flush and Marker) over edges. An edge has a bound,
-- and a sink that is full hands a message back. A node's output goes over one edge or is fanned out
-- over several; a policy may stand before an edge. The modules, by the source:
--
--   Common, Error (error/core.rs), Message (message.rs), Wake (wake/), Graph (graph/): shared names,
--     the kinds of error, messages, a waker as a number, and the contracts of sinks as records.
--   Edge.Sync (edge/sync/): the edge between threads. Each function is one critical section that
--     returns the notifications it leaves behind. Edge.Sync.Trace lists calls one after another and
--     Edge.Sync.Threads sleeping threads, notifications under way and spurious wakeups.
--   Edge.Waking (edge/waking.rs): Edge.Sync with a waker for its consumer. Work.Multiedge
--     (work/multiedge.rs) waits on several of them: the waiting thread reads one edge a step, and
--     parks on Wake.Parker's token.
--   Edge.Policy (edge/policy.rs), Edge.Fanout (edge/fanout.rs), Edge.Single (edge/single.rs): over
--     any edge, which is a parameter: a record of operations, and its contract where a theorem
--     needs it.
--   Poll.Node (node/poll/, node/line/poll/node/): a poll node as three phases over one state: Feed
--     (Input), Drive (Work) and Emit (Output); Poll.Node.Line puts them together.
--   Poll.Node.Biunion (node/biunion/poll/node/): a node with two inputs. Each phase runs on its view
--     of the node, which is a node of one input.
--   Poll.Edge (poll/edge/poll/): the edge between nodes of one thread; wakes are returned.
--   Poll.Scheduler.Treiber (poll/scheduler/treiber.rs, treiber/, consumer.rs): the stack of woken ids.
--     No step has more than one access to an atomic, of a push or of the consumer, which
--     reads a node's link in one and releases the node in the next.
--   Poll.Future (poll/future/): the queues between a node's phases and its future, and the futures
--     parked on them.
--   Work.Each (work/work_each.rs): a round over the nodes that a node schedules. Work.Stream
--     (work/stream.rs): the loop of a work thread over such rounds.
--   Work.Node holds what the work nodes share, and Work.Node.Round the round of a node with one
--     output. Work.Line (node/line/work/), Work.Bifurcation (node/bifurcation/work/) and Work.Biunion
--     (node/biunion/work/) are the nodes; Work.Pulled (work/pulled.rs) runs a pulled chain as one.
--     Their input edges stand in a world that parents and other threads change; the loops of a round
--     are given a number of turns, and say so where it was not enough.
--   Poll.Graph (poll/graph.rs, poll/graph/): the graph that a poll thread builds before its loop.
--   Poll.Thread (poll/thread.rs): the loop over the slots of a graph, on the ids it is woken for.
--   Thread (thread/): how a thread ends, its callbacks, and a bundle's first error and joins.
--   Wake.Parker (wake/parker.rs): the token that a thread sleeps on.
--   Poll.Timer (poll/timer/): the deadline heap, its recycled cells and lazy removal. Its abstract
--     view is the list of live timers in order (Poll.Timer.Live).
--
-- Loops are structural: over lists, or over what is left of a node's budget, as in the source.
-- `expire` runs on fuel, one turn more than the heap has entries, which is enough: each turn but the
-- last takes a live timer. A round of work_each runs on as many turns as there are nodes, one turn
-- for each. The loops of a work node wait for other threads, so no number of turns is enough for all
-- schedules: they end with `none` where the given one is not, and next_message-some and
-- next_message-ends say how many are enough once no producer is left; stream_loop-ends says it of a
-- work thread's rounds. A poll thread's loop takes the ids that it is woken for as a list,
-- and waits where the list ends. The edge's progress counter wraps at 2 ^ 64 as it does there.
--
-- Not modelled: printing and logging, poisoned locks and reentrant borrows, builders and typing
-- traits (no behaviour at run time), spawning, contexts, the routines' futures, and the pull side
-- (pull/, reader/, writer/, node/line/pull/), where a call runs a chain of calls.
pub mod Common
pub mod Error
pub mod Message
pub mod Wake
pub mod Work
pub mod Thread
pub mod Graph
pub mod Edge
pub mod Poll
