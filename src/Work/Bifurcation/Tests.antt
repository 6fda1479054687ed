-- ===== src/Work/Bifurcation/Tests.antt =====
-- A node that puts a number out on its left and the next one on its right, on an input that is a list.
use areamy.Common.{
  ℕ, ◌+◌, ltb, if◌then◌else◌, Bool-cases, inl, inr, Option, none, some, List, [], ◌∷◌, ◌++◌, ◌≡◌,
  refl, length,
}
use areamy.Error.{closed, Result, ok, err}
use areamy.Message.{Message, data', flush}
use areamy.Graph.{TryPush, pushed, full, TryPushable, Pushable, Closeable}
use areamy.Edge.Fanout.{rotate_from}
use areamy.Edge.Fanout.Delivery.{Answers}
use areamy.Work.Node.{Inlet}
use areamy.Work.Node.Stream.{NextOf, Extends-refl, by_news, Reads, Grows, InletLaws}
use areamy.Work.Bifurcation.{BifurcationRoutine, Bifurcation, work, side_round, next_input, accept}
use areamy.Work.Bifurcation.Turns.{BifurcationLaws, Ran}
use areamy.Work.Bifurcation.Rounds.{rounds, rounds-Ran}

abbrev Both : Type 0
Both = List ℕ × List ℕ

abbrev left_of : List ℕ → List ℕ → Result (Option ℕ) × Both
left_of [] q = (ok none, ([], q))
left_of (x ∷ l) q = (ok (some x), (l, q))

abbrev right_of : List ℕ → List ℕ → Result (Option ℕ) × Both
right_of l [] = (ok none, (l, []))
right_of l (x ∷ q) = (ok (some x), (l, q))

abbrev splitter : BifurcationRoutine Both ℕ ℕ ℕ
splitter = record {
  send = λ r d. (ok tt, (r.0 ++ d ∷ [], r.1 ++ (d + 1) ∷ []));
  flush = λ r. (ok tt, r);
  next_left = λ r. left_of r.0 r.1;
  next_right = λ r. right_of r.0 r.1;
}

abbrev poll_of : List (Message ℕ ℕ) → Result (Option (Message ℕ ℕ)) × List (Message ℕ ℕ)
poll_of [] = (err closed, [])
poll_of (m ∷ ms) = (ok (some m), ms)

abbrev edge : Inlet (List (Message ℕ ℕ)) (Message ℕ ℕ)
edge = record { poll = poll_of; wait_front = λ x. (err closed, x) }

abbrev pushing : ℕ → List (Message ℕ ℕ) → Result (Unit {0}) × List (Message ℕ ℕ)
pushing n x = (ok tt, x ++ data' n ∷ [])

-- An output with room for two messages.
abbrev try_push :
    List (Message ℕ ℕ) → Message ℕ ℕ → Result (TryPush (Message ℕ ℕ)) × List (Message ℕ ℕ)
try_push e m = if ltb (length e) 2 then (ok pushed, e ++ m ∷ []) else (ok (full m), e)

abbrev two_slots : TryPushable (List (Message ℕ ℕ)) (Message ℕ ℕ)
two_slots = record { try_push = try_push }

abbrev blocking : Pushable (List (Message ℕ ℕ)) (Message ℕ ℕ)
blocking = record { push = λ e m. (ok tt, e ++ m ∷ []) }

abbrev shutting : Closeable (List (Message ℕ ℕ))
shutting = record { close = λ e. (ok tt, e) }

abbrev router :
    Bifurcation Both ℕ
      (List (Message ℕ ℕ))
      (List (Message ℕ ℕ))
      (List (Message ℕ ℕ))
      (Message ℕ ℕ)
      (Message ℕ ℕ)
router = record {
  routine = ([], []);
  parents = record { workers = 5 ∷ []; world = data' 1 ∷ flush 7 ∷ data' 2 ∷ [] };
  left_outputs = record { edges = [] ∷ [] ∷ []; suspended = none };
  right_outputs = record { edges = [] ∷ []; suspended = none };
  left_pending = none;
  right_pending = none;
}

abbrev two_rounds : List (ℕ × ℕ)
two_rounds = (9, 9) ∷ (9, 9) ∷ []

signal_on_both :
    (rounds splitter edge pushing
      (λ o. o)
      (λ m. m)
      (λ m. m)
      two_slots
      blocking
      shutting
      two_slots
      blocking
      shutting
      two_rounds
      router).1.right_outputs.edges
    ≡ (data' 2 ∷ flush 7 ∷ []) ∷ []
unfolding rounds work side_round next_input accept rotate_from
signal_on_both = refl

left_of-NextOf : (l q : List ℕ) → NextOf (λ (x : Both). x.0) (l, q) (left_of l q)
left_of-NextOf [] q = (refl, refl)
left_of-NextOf (x ∷ l) q = refl

right_of-NextOf : (l q : List ℕ) → NextOf (λ (x : Both). x.1) (l, q) (right_of l q)
right_of-NextOf l [] = (refl, refl)
right_of-NextOf l (x ∷ q) = refl

left_of-keeps : (l q : List ℕ) → (left_of l q).1.1 ≡ q
left_of-keeps [] q = refl
left_of-keeps (x ∷ l) q = refl

right_of-keeps : (l q : List ℕ) → (right_of l q).1.0 ≡ l
right_of-keeps l [] = refl
right_of-keeps l (x ∷ q) = refl

splitter_laws : BifurcationLaws (λ (x : Both). x.0) (λ (x : Both). x.1) splitter
splitter_laws = record {
  on_left = λ x. left_of-NextOf x.0 x.1;
  on_right = λ x. right_of-NextOf x.0 x.1;
  left_keeps = λ x. left_of-keeps x.0 x.1;
  right_keeps = λ x. right_of-keeps x.0 x.1;
}

poll_of-Reads : (x : List (Message ℕ ℕ)) → Reads (λ x. x) x (poll_of x)
poll_of-Reads [] = Extends-refl []
poll_of-Reads (m ∷ ms) = Extends-refl (m ∷ ms)

edge_laws : InletLaws (λ x. x) edge
edge_laws = record { on_poll = poll_of-Reads; on_wait = λ x. Extends-refl x }

pushing-Grows : (n : ℕ) (x : List (Message ℕ ℕ)) → Grows (λ x. x) x (pushing n x).1
pushing-Grows n x = by_news (data' n ∷ []) refl

try_push-Answers : (e : List (Message ℕ ℕ)) (m : Message ℕ ℕ) → Answers (λ x. x) e m (try_push e m)
try_push-Answers e m = elim (Bool-cases (ltb (length e) 2)) [
  | inl room ↦ rw room refl
  | inr no_room ↦ rw no_room (refl, refl)
]

rounds-Ran_example :
    Ran
      (λ (x : Both). x.0)
      (λ (x : Both). x.1)
      (λ m. m)
      (λ m. m)
      (λ (e : List (Message ℕ ℕ)). e)
      (λ (e : List (Message ℕ ℕ)). e)
      (λ (x : List (Message ℕ ℕ)). x)
      router
      (rounds splitter edge pushing
        (λ o. o)
        (λ m. m)
        (λ m. m)
        two_slots
        blocking
        shutting
        two_slots
        blocking
        shutting
        two_rounds
        router)
rounds-Ran_example =
    rounds-Ran splitter edge pushing (λ o. o) (λ m. m) (λ m. m) two_slots blocking shutting
      two_slots blocking shutting (λ x. x.0) (λ x. x.1) (λ e. e) (λ e. e) (λ x. x) splitter_laws
      edge_laws pushing-Grows (λ o. refl) try_push-Answers (λ e m. refl) try_push-Answers
      (λ e m. refl) router two_rounds refl refl
