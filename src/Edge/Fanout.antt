-- ===== src/Edge/Fanout.antt =====
-- edge/fanout.rs: a node's output over several edges, and edge/rotate.rs, the trait it implements.
--
-- Messages are cloned by the client's `Clone`, a parameter. `edges.get_mut(from..)` with
-- `split_last_mut` is a walk over the list that takes its last edge apart.
pub mod Delivery
mod Tests
use Prim.Native.String.{String}
use areamy.Common.{
  ℕ, zero, suc, ◌+◌, Bool, true, false, Option, none, some, List, [], ◌∷◌, ◌++◌, map, get_elem?,
  set,
}
use mathlib.Core.Option
use areamy.Error.{Error, fatal, Result, ok, err, and_then}
use areamy.Wake.{Waker}
use areamy.Graph.{
  TryPush, pushed, full, stuck, refused, TryPushable, Pushable, Closeable, Schedulable,
}

pub data Rotation : Type 0 where
  complete : Rotation
  at : ℕ → Rotation  -- `Rotation::Suspended`

pub record Suspended {ℓ} (M : Type ℓ) : Type ℓ where
  pub index : ℕ
  pub message : M  -- `refused`
  pub rest : Option M

pub record Fanout {ℓ κ} (E : Type ℓ) (M : Type κ) : Type (ℓ ⊔ κ) where
  pub edges : List E
  pub suspended : Option (Suspended M)

-- How a walk over some edges ended: all took the message, or one handed it back.
pub data Outcome {ℓ} (M : Type ℓ) : Type ℓ where
  all_took : Outcome M
  held : Suspended M → Outcome M

-- `Fanout::close` on its edges: every one is closed, and the first error is kept.
first_error : Result (Unit {0}) → Result (Unit {0}) → Result (Unit {0})
first_error (ok u) r = r
first_error (err x) r = err x

close_edges {ℓ} :
    {E : Type ℓ} → Closeable E → Result (Unit {0}) → List E → Result (Unit {0}) × List E
unfolding first_error
close_edges c result [] = (result, [])
close_edges c result (e ∷ es) =
    let (r, e') = c.close e in
    let (result', es') = close_edges c (first_error result r) es in (result', e' ∷ es')

module _ {ℓ κ} {E : Type ℓ} {M : Type κ} where
  pub new : Fanout E M
  new = record { edges = []; suspended = none }

  pub add : Fanout E M → E → Fanout E M
  add f e = record f { edges = f.edges ++ e ∷ [] }

  -- `Fanout::suspended`
  unfoldable pub suspended_at : Fanout E M → Option ℕ
  suspended_at f = Option.map (λ s. s.index) f.suspended

  unfoldable pub close : Closeable E → Fanout E M → Result (Unit {0}) × Fanout E M
  unfolding close_edges
  close c f =
      let (r, es) = close_edges c (ok tt) f.edges in (r, record { edges = es; suspended = none })

  -- `Fanout::schedule`: one clone of the waker for each edge.
  pub schedule : Schedulable E → Fanout E M → Waker → Fanout E M
  schedule s f w = record f { edges = map (λ e. s.schedule e w) f.edges }

  -- The fan-out after a walk over its edges; `suspend` where an edge handed the message back.
  settle : Fanout E M → Result (Outcome M) × List E → Result Rotation × Fanout E M
  settle f (ok all_took, es) = (ok complete, record f { edges = es })
  settle f (ok (held s), es) = (ok (at s.index), record { edges = es; suspended = some s })
  settle f (err x, es) = (err x, record f { edges = es })

  -- What one edge's answer makes of a walk: `rest` is the source for the edges `es` after it, and
  -- `onward` the walk over them.
  pub answer :
      ℕ
      → Option M
      → List E
      → Result (Outcome M) × List E
      → Result (TryPush M) × E
      → Result (Outcome M) × List E
  answer i rest es onward (ok pushed, e) = (onward.0, e ∷ onward.1)
  answer i rest es onward (ok (full m), e) =
      (ok (held (record { index = i; message = m; rest = rest })), e ∷ es)
  answer i rest es onward (ok (stuck m), e) =
      (ok (held (record { index = i; message = m; rest = rest })), e ∷ es)
  answer i rest es onward (err x, e) = (err x, e ∷ es)

  with_edge : Fanout E M → ℕ → E → Fanout E M
  with_edge f i e = record f { edges = set f.edges i e }

  -- The held message handed back again: `suspend`.
  hold_again : Fanout E M → Suspended M → M → Result Rotation × Fanout E M
  hold_again f s m = (ok (at s.index), record f { suspended = some (record s { message = m }) })

  missing : Fanout E M → Result Rotation × Fanout E M
  missing f = (err (fatal "fan-out suspended on a missing edge"), f)

module _ {ℓ κ} {E : Type ℓ} {M : Type κ} (clone : M → M) (t : TryPushable E M) where
  -- The loop of `rotate_from` over the edges from index `i` on: clones, and the last takes the move.
  walk : ℕ → List E → M → Result (Outcome M) × List E
  unfolding answer
  walk i [] m = (ok all_took, [])
  walk i (e ∷ []) m = answer i none [] (ok all_took, []) (t.try_push e m)
  walk i (e ∷ e' ∷ es) m =
      answer i (some m) (e' ∷ es) (walk (suc i) (e' ∷ es) m) (t.try_push e (clone m))

  -- `edges.get_mut(from..)`: the walk begins `from` edges further on.
  pub walk_from : ℕ → ℕ → List E → M → Result (Outcome M) × List E
  unfolding walk
  walk_from i zero es m = walk i es m
  walk_from i (suc from) [] m = (ok all_took, [])
  walk_from i (suc from) (e ∷ es) m = let (r, es') = walk_from (suc i) from es m in (r, e ∷ es')

  unfoldable pub rotate_from : Fanout E M → ℕ → M → Result Rotation × Fanout E M
  unfolding settle walk_from
  rotate_from f from m = settle f (walk_from 0 from f.edges m)

  pub rotate_rest : Fanout E M → ℕ → Option M → Result Rotation × Fanout E M
  unfolding rotate_from
  rotate_rest f index none = (ok complete, f)
  rotate_rest f index (some m) = rotate_from f (suc index) m

  -- `Rotate::rotate`, that is `ready` and `Ready::push`.
  unfoldable pub rotate : Fanout E M → M → Result Rotation × Fanout E M
  unfolding rotate_from
  rotate f m = elim f.suspended [
    | none ↦ rotate_from f 0 m
    | some s ↦ (err (fatal "output pushed past a held message"), f)
  ]

  -- `retry` after its edge answered; `f` is the fan-out with nothing held.
  pub retried : Fanout E M → Suspended M → Result (TryPush M) × E → Result Rotation × Fanout E M
  unfolding with_edge hold_again rotate_rest
  retried f s (ok pushed, e) = rotate_rest (with_edge f s.index e) s.index s.rest
  retried f s (ok (full m), e) = hold_again (with_edge f s.index e) s m
  retried f s (ok (stuck m), e) = hold_again (with_edge f s.index e) s m
  retried f s (err x, e) = (err x, with_edge f s.index e)

  unfoldable pub retry : Fanout E M → Result Rotation × Fanout E M
  unfolding missing retried
  retry f = elim f.suspended [
    | none ↦ (ok complete, f)
    | some s ↦
        let f' : Fanout E M = record f { suspended = none } in
        elim (get_elem? f.edges s.index) [
          | none ↦ missing f'
          | some e ↦ retried f' s (t.try_push e s.message)
        ]
  ]

  module _ (p : Pushable E M) where
    -- `resume` after the blocking push of a stuck message (`deadlock` around it only logs).
    unblocked : Fanout E M → Suspended M → Result (Unit {0}) × E → Result Rotation × Fanout E M
    unfolding with_edge rotate_rest
    unblocked f s (ok u, e) = rotate_rest (with_edge f s.index e) s.index s.rest
    unblocked f s (err x, e) = (err x, with_edge f s.index e)

    pub resumed : Fanout E M → Suspended M → Result (TryPush M) × E → Result Rotation × Fanout E M
    unfolding with_edge hold_again unblocked rotate_rest
    resumed f s (ok pushed, e) = rotate_rest (with_edge f s.index e) s.index s.rest
    resumed f s (ok (full m), e) = hold_again (with_edge f s.index e) s m
    resumed f s (ok (stuck m), e) = unblocked f s (p.push e m)
    resumed f s (err x, e) = (err x, with_edge f s.index e)

    unfoldable pub resume : Fanout E M → Result Rotation × Fanout E M
    unfolding missing resumed
    resume f = elim f.suspended [
      | none ↦ (ok complete, f)
      | some s ↦
          let f' : Fanout E M = record f { suspended = none } in
          elim (get_elem? f.edges s.index) [
            | none ↦ missing f'
            | some e ↦ resumed f' s (t.try_push e s.message)
          ]
    ]
