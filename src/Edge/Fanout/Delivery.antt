-- ===== src/Edge/Fanout/Delivery.antt =====
-- What it means that a fan-out delivered a message.
pub mod Walk
pub mod Once
pub mod Carries
use areamy.Common.{
  ℕ, zero, suc, ◌+◌, ◌≤◌, ◌<◌, ◌≡◌, Option, none, some, List, [], ◌∷◌, ◌++◌, map, length,
}
use areamy.Error.{Result, ok, err}
use areamy.Graph.{TryPush, pushed, full, stuck, TryPushable, Pushable}
use areamy.Edge.Fanout.{Suspended, Outcome, all_took, held}

-- What an edge answers to a message, by the list of all the messages that it ever took: the
-- contract of `try_push`, and that of `push`.
abbrev pub Answers {ℓ κ} :
    {E : Type ℓ} {M : Type κ} → (E → List M) → E → M → Result (TryPush M) × E → Type κ
Answers log e m (ok pushed, e') = log e' ≡ log e ++ m ∷ []
Answers log e m (ok (full r), e') = (log e' ≡ log e) × (r ≡ m)
Answers log e m (ok (stuck r), e') = (log e' ≡ log e) × (r ≡ m)
Answers log e m (err x, e') = log e' ≡ log e

abbrev pub Takes {ℓ κ} :
    {E : Type ℓ} {M : Type κ} → (E → List M) → E → M → Result (Unit {0}) × E → Type κ
Takes log e m (ok u, e') = log e' ≡ log e ++ m ∷ []
Takes log e m (err x, e') = log e' ≡ log e

module _ {κ} {M : Type κ} (clone : M → M) where
  -- The copy for an edge with the edges `later` after it, and what the copies of those are made of.
  abbrev pub copy : M → List (List M) → M
  copy m [] = m
  copy m (l ∷ later) = clone m

  abbrev pub source : M → List (List M) → Option M
  source m [] = none
  source m (l ∷ later) = some m

  -- The edges' logs once the first `d` of them took the message.
  abbrev pub give : ℕ → M → List (List M) → List (List M)
  give zero m logs = logs
  give (suc d) m [] = []
  give (suc d) m (l ∷ logs) = (l ++ copy m logs ∷ []) ∷ give d m logs

  -- The message is held for edge `d`, with what it takes to go on behind that edge.
  abbrev pub Holds : M → ℕ → List (List M) → Suspended M → Type κ
  Holds m d [] s = (s.message ≡ m) × ⊥
  Holds m zero (l ∷ logs) s = (s.message ≡ copy m logs) × (s.rest ≡ source m logs)
  Holds m (suc d) (l ∷ logs) s = Holds m d logs s
