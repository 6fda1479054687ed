-- ===== src/Poll/Scheduler/Treiber.antt =====
-- poll/scheduler/treiber.rs, treiber/node.rs, treiber/link.rs and `try_next` of consumer.rs: the
-- stack of woken ids.
--
-- A step is one access to an atomic, of a push or of the consumer, or none, where the consumer finds
-- its batch at an end; what else it does between two accesses is local to it, and is a part of the
-- step before. Pushes on any threads and the consumer take their steps in any order. Those of the expired timers, which the consumer makes
-- between the end of its batch and the take, are pushes like the others. Memory orderings are left
-- out: every access sees the last write. So is a push before `init`, which is dropped;
-- `fresh_stack` is the stack right after `init`, which the consumer then pushes every id onto. A
-- `Link` is an id or none. An id has one push at most between its claim and its publication, so the
-- stage of that push is a field of the id.
pub mod Sound
pub mod Interleaved
pub mod Serves
pub mod Serve
mod Tests
use areamy.Common.{
  ℕ, zero, suc, Bool, true, false, Option, none, some, List, [], ◌∷◌, if◌then◌else◌, ltb, ◌==◌,
}

-- Where the push that owns an id stands: it has read `head`, or has also linked the node to it.
pub data Stage : Type 0 where
  published : Stage
  claimed : Stage
  seen : Option ℕ → Stage
  linked : Option ℕ → Stage

-- Where the consumer stands in `try_next`: about to ask its batch for an id, at the end of the
-- batch, about to ask the batch that it took, or in the release of an id, whose link it has read.
pub data Walk : Type 0 where
  idle ended taken : Walk
  releasing : ℕ → Option ℕ → Walk

pub record Stack : Type 0 where
  pub size : ℕ
  pub head : Option ℕ
  pub batch : Option ℕ
  pub standing : Walk
  pub queued : ℕ → Bool
  pub below : ℕ → Option ℕ
  pub stage : ℕ → Stage

abbrev pub update {ℓ} : {A : Type ℓ} → (ℕ → A) → ℕ → A → ℕ → A
update f i v j = if j == i then v else f j

abbrev pub link_eq : Option ℕ → Option ℕ → Bool
link_eq none none = true
link_eq none (some j) = false
link_eq (some i) none = false
link_eq (some i) (some j) = i == j

pub fresh_stack : ℕ → Stack
fresh_stack n = record {
  size = n;
  head = none;
  batch = none;
  standing = idle;
  queued = λ i. false;
  below = λ i. none;
  stage = λ i. published;
}

-- `push_onto` up to the claim: an id past the graph is dropped, a queued one is coalesced.
pub claim : Stack → ℕ → Stack
claim s i =
    if ltb i s.size
    then (if s.queued i
        then s
        else record s { queued = update s.queued i true; stage = update s.stage i claimed })
    else s

-- `publish`: the load of `head`.
look_in : Stack → ℕ → Stage → Stack
look_in s i claimed = record s { stage = update s.stage i (seen s.head) }
look_in s i g = s

-- `publish`: `node.link`.
pub link_in : Stack → ℕ → Stage → Stack
link_in s i (seen b) = record s { below = update s.below i b; stage = update s.stage i (linked b) }
link_in s i g = s

-- `publish`: the exchange, which fails for no reason if `spurious`.
pub exchange_in : Stack → ℕ → Bool → Stage → Stack
exchange_in s i false (linked b) =
    if link_eq s.head b
    then record s { head = some i; stage = update s.stage i published }
    else record s { stage = update s.stage i (seen s.head) }
exchange_in s i true (linked b) = record s { stage = update s.stage i (seen s.head) }
exchange_in s i spurious g = s

-- `take`: the swap of `head`.
take : Stack → Stack
take s = record s { batch = s.head; head = none; standing = taken }

-- `Node::release`, on the batch's next id: the load of its link, and once it has one, the swap of
-- its state, with which the id is handed out.
release : Stack → ℕ → Option (Option ℕ) → Option ℕ × Stack
release s i none = (none, record s { standing = releasing i (s.below i) })
release s i (some below) =
    (some i, record s { batch = below; queued = update s.queued i false; standing = idle })

-- `next`, from its start: a batch that is out has no id, and leaves the consumer at `out`.
next_in : Stack → Walk → Option ℕ → Option ℕ × Stack
unfolding release
next_in s out none = (none, record s { standing = out })
next_in s out (some i) = release s i none

-- `Consumer::try_next` up to its next access, and the id that it returns then: a batch that is out
-- is followed by the stack, and an empty stack by its return with no id.
advance_in : Stack → Walk → Option ℕ × Stack
unfolding release next_in take
advance_in s idle = next_in s ended s.batch
advance_in s ended = (none, take s)
advance_in s taken = next_in s idle s.batch
advance_in s (releasing i below) = release s i (some below)

pub advance : Stack → Option ℕ × Stack
unfolding advance_in
advance s = advance_in s s.standing

pub data Step : Type 0 where
  wakes looks links : ℕ → Step
  exchanges : ℕ → Bool → Step
  advances : Step

-- The stack, and the ids that were woken since they were last handed out.
pub record World : Type 0 where
  pub stack : Stack
  pub open stack use *
  pub owed : ℕ → Bool

handed : (ℕ → Bool) → Option ℕ × Stack → World
handed owed (none, s) = record { stack = s; owed = owed }
handed owed (some i, s) = record { stack = s; owed = update owed i false }

pub act : World → Step → World
unfolding claim look_in link_in exchange_in advance handed
act w (wakes i) = record {
  stack = claim w.stack i;
  owed = if ltb i w.size then update w.owed i true else w.owed;
}
act w (looks i) = record w { stack = look_in w.stack i (w.stage i) }
act w (links i) = record w { stack = link_in w.stack i (w.stage i) }
act w (exchanges i spurious) = record w { stack = exchange_in w.stack i spurious (w.stage i) }
act w advances = handed w.owed (advance w.stack)

pub perform : World → List Step → World
unfolding act
perform w [] = w
perform w (t ∷ ts) = perform (act w t) ts

pub start : ℕ → World
unfolding fresh_stack
start n = record { stack = fresh_stack n; owed = λ i. false }

served : (Stack → List ℕ) → Option ℕ × Stack → List ℕ
served onward (none, s) = onward s
served onward (some i, s) = i ∷ onward s

-- The ids that the consumer hands out in `k` steps, nothing else running.
pub serve : ℕ → Stack → List ℕ
unfolding advance served
serve zero s = []
serve (suc k) s = served (serve k) (advance s)
