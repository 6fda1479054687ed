-- ===== src/Poll/Node/Feed/Step.antt =====
-- How an Input phase leaves the state and whom it wakes.
use areamy.Common.{
  ℕ, zero, suc, Bool, true, false, Option, none, some, List, [], ◌∷◌, ◌++◌, ◌≡◌, refl, append-nil,
}
use areamy.Error.{fatal, any, closed, Result, ok, err, and_then}
use areamy.Message.{Message, data', flush, marker}
use areamy.Poll.Node.{
  NodeState, running, flushing, marker_ready, close_ready, input, work, Phase, Accept, accepted,
  full, LineRoutine, Receivable, Node, wake, become,
}
use areamy.Poll.Node.Feed.{
  Flow, break, continue, offered, hold, begin_flush, drain_open, offer_or_hold, retry_held,
  close_input, received, recv, drain_loop, feed,
}

module _ {ℓ} {S : Type ℓ} where
  -- What draining does to a running node: it leaves it in a state, with some phases woken. The
  -- flags say whether other inputs feed the node, and whether this one still does.
  pub data Feeds : Bool → Bool → NodeState S → List Phase → Type ℓ where
    still : (others is_open : Bool) → Feeds others is_open running []
    more : (others is_open : Bool) → Feeds others is_open running (input ∷ [])
    flushed : (others is_open : Bool) (x : S) → Feeds others is_open (flushing x) (work ∷ [])
    marked : (others is_open : Bool) (x : S) → Feeds others is_open (marker_ready x) (work ∷ [])
    ended : Feeds false false close_ready (work ∷ [])

module _ {ℓ} {I R O D Out S : Type ℓ} (r : LineRoutine R D Out) (i : Receivable I (Message D S))
    (others : Bool) where
  abbrev pub Fed : List Phase → Node I R O D S → Type ℓ
  Fed before n = (ws : List Phase) × (n.woken ≡ before ++ ws) × Feeds others n.is_open n.state ws

  abbrev Step : List Phase → Result Flow × Node I R O D S → Type ℓ
  Step before (ok continue, n) = (n.state ≡ running) × (n.woken ≡ before)
  Step before (ok break, n) = Fed before n
  Step before (err e, n) = (n.state ≡ running) × (n.woken ≡ before)

  -- What a poll leaves: an error comes before anything was moved.
  abbrev pub Ends : List Phase → Result (Unit {0}) × Node I R O D S → Type ℓ
  Ends before (ok u, n) = Fed before n
  Ends before (err e, n) = (n.state ≡ running) × (n.woken ≡ before)

module _ {ℓ} {I R O D Out S : Type ℓ} (r : LineRoutine R D Out)
    (i : Receivable I (Message D S)) where
  still-Fed :
      (others : Bool) (before : List Phase) (n : Node I R O D S)
      → n.state ≡ running
      → n.woken ≡ before
      → Fed r i others before n
  still-Fed others before n h w = ([], rw (w, append-nil before), rw h (still others n.is_open))

  closed-Step :
      (others : Bool) (before : List Phase) (n : Node I R O D S)
      → n.state ≡ running
      → n.woken ≡ before
      → Step r i others before (received r i others (err closed) n)
  unfolding received close_input wake become
  closed-Step true before n h w = still-Fed true before (record n { is_open = false }) h w
  closed-Step false before n h w = (work ∷ [], rw w, ended)

module _ {ℓ} {I R O D Out S : Type ℓ} (r : LineRoutine R D Out) (i : Receivable I (Message D S))
    (others : Bool) where
  offered-Step :
      (before : List Phase) (x : Result (Accept D) × Node I R O D S)
      → x.1.state ≡ running
      → x.1.woken ≡ before
      → Step r i others before (and_then (offered r i x) (hold r i))
  unfolding offered hold
  offered-Step before (ok accepted, n) h w = (h, w)
  offered-Step before (ok (full d), n) h w =
      still-Fed r i others before (record n { held = some d }) h w
  offered-Step before (err e, n) h w = (h, w)

  offer_or_hold-Step :
      (before : List Phase) (d : D) (n : Node I R O D S)
      → n.state ≡ running
      → n.woken ≡ before
      → Step r i others before (offer_or_hold r i d n)
  unfolding offer_or_hold
  offer_or_hold-Step before d n h w = offered-Step before _ h w

  retry_held-Step :
      (before : List Phase) (held : Option D) (n : Node I R O D S)
      → n.state ≡ running
      → n.woken ≡ before
      → Step r i others before (retry_held r i held n)
  unfolding retry_held
  retry_held-Step before none n h w = (h, w)
  retry_held-Step before (some d) n h w = offer_or_hold-Step before d _ h w

  flushed-Step :
      (before : List Phase) (x : S) (y : Result (Unit {0}) × Node I R O D S)
      → y.1.state ≡ running
      → y.1.woken ≡ before
      → Step r i others before (and_then y (λ _. begin_flush r i x))
  unfolding begin_flush wake become
  flushed-Step before x (ok a, n) h w = (work ∷ [], rw w, flushed others n.is_open x)
  flushed-Step before x (err e, n) h w = (h, w)

  received-Step :
      (before : List Phase) (x : Result (Option (Message D S))) (n : Node I R O D S)
      → n.state ≡ running
      → n.woken ≡ before
      → Step r i others before (received r i others x n)
  unfolding received close_input wake become
  received-Step before (ok none) n h w = still-Fed r i others before n h w
  received-Step before (ok (some (data' d))) n h w = offer_or_hold-Step before d n h w
  received-Step before (ok (some (flush x))) n h w = flushed-Step before x _ h w
  received-Step before (ok (some (marker x))) n h w = (work ∷ [], rw w, marked others n.is_open x)
  received-Step before (err closed) n h w = closed-Step r i others before n h w
  received-Step before (err (fatal m)) n h w = (h, w)
  received-Step before (err (any m)) n h w = (h, w)

  recv-Step :
      (before : List Phase) (n : Node I R O D S)
      → n.state ≡ running
      → n.woken ≡ before
      → Step r i others before (recv r i others n)
  unfolding recv
  recv-Step before n h w = received-Step before (i.try_recv n.inlet).0 _ h w

  Step-then :
      (before : List Phase) (x : Result Flow × Node I R O D S)
      (k : Flow → Node I R O D S → Result (Unit {0}) × Node I R O D S)
      → Step r i others before x
      → ((n : Node I R O D S)
          → n.state ≡ running
          → n.woken ≡ before
          → Ends r i others before (k continue n))
      → ((n : Node I R O D S) → k break n ≡ (ok tt, n))
      → Ends r i others before (and_then x k)
  Step-then before (ok continue, n) k (h, w) on off = on n h w
  Step-then before (ok break, n) k h on off = rw (off n) h
  Step-then before (err e, n) k h on off = h

  drain_loop-Ends :
      (before : List Phase) (budget : ℕ) (n : Node I R O D S)
      → n.state ≡ running
      → n.woken ≡ before
      → Ends r i others before (drain_loop r i others budget n)
  unfolding drain_loop wake
  drain_loop-Ends before zero n h w = (input ∷ [], rw w, rw h (more others n.is_open))
  drain_loop-Ends before (suc budget) n h w =
      Step-then before _ _ (recv-Step before n h w) (drain_loop-Ends before budget) (λ n. refl)

  drain_open-Ends :
      (before : List Phase) (is_open : Bool) (n : Node I R O D S)
      → n.state ≡ running
      → n.woken ≡ before
      → Ends r i others before (drain_open r i others is_open n)
  unfolding drain_open
  drain_open-Ends before true n h w = drain_loop-Ends before _ n h w
  drain_open-Ends before false n h w = still-Fed r i others before n h w

  pub feed-Ends :
      (n : Node I R O D S) → n.state ≡ running → Ends r i others n.woken (feed r i others n)
  unfolding feed
  feed-Ends n h =
      Step-then n.woken _ _ (retry_held-Step n.woken n.held n h refl)
        (λ n' h' w. drain_open-Ends n.woken n'.is_open n' h' w) (λ n. refl)
