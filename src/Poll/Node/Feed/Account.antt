-- ===== src/Poll/Node/Feed/Account.antt =====
-- What an Input phase reads is accounted for: taken by the routine, held, or in the state.
use areamy.Common.{
  ℕ, zero, suc, Bool, true, false, Option, none, some, List, [], ◌∷◌, ◌++◌, ◌≡◌, refl, subst,
  append_assoc,
}
use areamy.Error.{fatal, any, closed, Result, ok, err, and_then}
use areamy.Message.{Message, data', flush, marker}
use areamy.Poll.Node.{
  NodeState, running, flushing, marker_ready, close_ready, flush_ready, forwarding, is_shut, Accept,
  accepted, full, LineRoutine, Receivable, Node, wake, become,
}
use areamy.Poll.Node.Feed.{
  Flow, break, continue, offered, hold, begin_flush, drain_open, offer, offer_or_hold, retry_held,
  close_input, received, recv, drain_loop, feed,
}

module _ {ℓ} {D S : Type ℓ} where
  -- The messages that are held, and the signal that the node has read and not passed on.
  abbrev pub held_data : Option D → List (Message D S)
  held_data none = []
  held_data (some d) = data' d ∷ []

  abbrev pub signal_in : NodeState S → List (Message D S)
  signal_in running = []
  signal_in (flushing x) = flush x ∷ []
  signal_in (flush_ready x) = flush x ∷ []
  signal_in (marker_ready x) = marker x ∷ []
  signal_in forwarding = []
  signal_in close_ready = []
  signal_in is_shut = []

  -- What the routine's log is after it was offered a message, and an edge's queue after it was read.
  abbrev pub Takes :
      {R : Type ℓ} → (R → List (Message D S)) → R → D → Result (Accept D) × R → Type ℓ
  Takes taken x d (ok accepted, x') = taken x' ≡ taken x ++ data' d ∷ []
  Takes taken x d (ok (full d'), x') = (d' ≡ d) × (taken x' ≡ taken x)
  Takes taken x d (err e, x') = taken x' ≡ taken x

  abbrev pub Reads :
      {I : Type ℓ} → (I → List (Message D S)) → I → Result (Option (Message D S)) × I → Type ℓ
  Reads waiting x (ok none, x') = waiting x' ≡ waiting x
  Reads waiting x (ok (some m), x') = waiting x ≡ m ∷ waiting x'
  Reads waiting x (err e, x') = waiting x' ≡ waiting x

module _ {ℓ} {I R O D Out S : Type ℓ} (r : LineRoutine R D Out) (i : Receivable I (Message D S))
    (taken : R → List (Message D S)) (waiting : I → List (Message D S)) where
  -- Everything that came to the node, in order.
  abbrev pub account : Node I R O D S → List (Message D S)
  account n = taken n.routine ++ (held_data n.held ++ (signal_in n.state ++ waiting n.inlet))

  abbrev Accounts : List (Message D S) → Result Flow × Node I R O D S → Type ℓ
  Accounts all (ok continue, n) = (n.held ≡ none) × (n.state ≡ running) × (account n ≡ all)
  Accounts all (ok break, n) = account n ≡ all
  Accounts all (err e, n) = all ≡ all

  abbrev pub Accounted : List (Message D S) → Result (Unit {0}) × Node I R O D S → Type ℓ
  Accounted all (ok u, n) = account n ≡ all
  Accounted all (err e, n) = all ≡ all

  offered-Accounts :
      (d : D) (n : Node I R O D S) (x : Result (Accept D) × R)
      → Takes taken n.routine d x
      → n.held ≡ none
      → n.state ≡ running
      → Accounts
          (taken n.routine ++ data' d ∷ waiting n.inlet)
          (and_then (offered r i (x.0, record n { routine = x.1 })) (hold r i))
  unfolding offered hold
  offered-Accounts d n (ok accepted, x) t h s =
      (h, s, rw (h, s, t, append_assoc (taken n.routine) (data' d ∷ []) (waiting n.inlet)))
  offered-Accounts d n (ok (full d'), x) t h s = rw (t.0, t.1, s)
  offered-Accounts d n (err e, x) t h s = refl

  flushed-Accounts :
      (x : S) (n : Node I R O D S) (y : Result (Unit {0}) × R)
      → taken y.1 ≡ taken n.routine
      → n.held ≡ none
      → Accounts
          (taken n.routine ++ flush x ∷ waiting n.inlet)
          (and_then (y.0, record n { routine = y.1 }) (λ _. begin_flush r i x))
  unfolding begin_flush wake become
  flushed-Accounts x n (ok a, y) t h = rw (h, t)
  flushed-Accounts x n (err e, y) t h = refl

  module _ (takes : (x : R) (d : D) → Takes taken x d (r.try_send x d))
      (flushes : (x : R) → taken (r.flush x).1 ≡ taken x)
      (reads : (x : I) → Reads waiting x (i.try_recv x)) where
    received-Accounts :
        (others : Bool) (n : Node I R O D S) (x : Result (Option (Message D S)) × I)
        → Reads waiting n.inlet x
        → n.held ≡ none
        → n.state ≡ running
        → Accounts
            (taken n.routine ++ waiting n.inlet)
            (received r i others x.0 (record n { inlet = x.1 }))
    unfolding received offer_or_hold offer close_input wake become
    received-Accounts others n (ok none, x) t h s = rw (h, s, t)
    received-Accounts others n (ok (some (data' d)), x) t h s =
        rw t (offered-Accounts d (record n { inlet = x }) _ (takes n.routine d) h s)
    received-Accounts others n (ok (some (flush y)), x) t h s =
        rw t (flushed-Accounts y (record n { inlet = x }) _ (flushes n.routine) h)
    received-Accounts others n (ok (some (marker y)), x) t h s = rw (t, h)
    received-Accounts true n (err closed, x) t h s = rw (h, s, t)
    received-Accounts false n (err closed, x) t h s = rw (h, t)
    received-Accounts others n (err (fatal m), x) t h s = refl
    received-Accounts others n (err (any m), x) t h s = refl

    Accounts-then :
        (all : List (Message D S)) (x : Result Flow × Node I R O D S)
        (k : Flow → Node I R O D S → Result (Unit {0}) × Node I R O D S)
        → Accounts all x
        → ((n : Node I R O D S)
            → n.held ≡ none
            → n.state ≡ running
            → account n ≡ all
            → Accounted all (k continue n))
        → ((n : Node I R O D S) → k break n ≡ (ok tt, n))
        → Accounted all (and_then x k)
    Accounts-then all (ok continue, n) k (h, s, a) on off = on n h s a
    Accounts-then all (ok break, n) k h on off = rw (off n) h
    Accounts-then all (err e, n) k h on off = refl

    drain_loop-Accounted :
        (others : Bool) (all : List (Message D S)) (budget : ℕ) (n : Node I R O D S)
        → n.held ≡ none
        → n.state ≡ running
        → account n ≡ all
        → Accounted all (drain_loop r i others budget n)
    unfolding drain_loop recv wake
    drain_loop-Accounted others all zero n h s a = a
    drain_loop-Accounted others all (suc budget) n h s a =
        Accounts-then all _ _
          (subst (λ l. Accounts l (recv r i others n)) (rw (← a, h, s))
            (received-Accounts others n _ (reads n.inlet) h s))
          (drain_loop-Accounted others all budget) (λ n. refl)

    drain_open-Accounted :
        (others : Bool) (all : List (Message D S)) (is_open : Bool) (n : Node I R O D S)
        → n.held ≡ none
        → n.state ≡ running
        → account n ≡ all
        → Accounted all (drain_open r i others is_open n)
    unfolding drain_open
    drain_open-Accounted others all true n h s a =
        drain_loop-Accounted others all n.budget_input n h s a
    drain_open-Accounted others all false n h s a = a

    retry_held-Accounts :
        (held : Option D) (n : Node I R O D S)
        → n.held ≡ held
        → n.state ≡ running
        → Accounts (account n) (retry_held r i held n)
    unfolding retry_held offer_or_hold offer
    retry_held-Accounts none n h s = (h, s, refl)
    retry_held-Accounts (some d) n h s =
        subst (λ l. Accounts l (retry_held r i (some d) n)) (rw (h, s))
          (offered-Accounts d (record n { held = none }) _ (takes n.routine d) refl s)

    -- An Input phase of a running node that ends without an error loses, repeats and reorders
    -- nothing: what the routine took, then the held message, the signal in the state and what waits
    -- on the edge, make up the same list before and after. The routine logs what it accepts and
    -- nothing else, and the edge gives out its messages in order.
    pub feed-Accounted :
        (others : Bool) (n : Node I R O D S)
        → n.state ≡ running
        → Accounted (account n) (feed r i others n)
    unfolding feed
    feed-Accounted others n s =
        Accounts-then (account n) _ _ (retry_held-Accounts n.held n refl s)
          (λ n'. drain_open-Accounted others (account n) n'.is_open n') (λ n. refl)
