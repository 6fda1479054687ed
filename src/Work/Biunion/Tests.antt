-- ===== src/Work/Biunion/Tests.antt =====
-- A node that adds one to what it is sent, on two inputs that are lists, with two outputs.
use areamy.Common.{
  ℕ, ◌+◌, ltb, if◌then◌else◌, Option, none, some, List, [], ◌∷◌, ◌++◌, ◌≡◌, refl, Bool-cases, inl,
  inr, ◌⊎◌, length, ◌≢◌, arith,
}
use areamy.Error.{closed, Result, ok, err}
use areamy.Message.{Message, data', flush}
use areamy.Graph.{TryPush, pushed, full, TryPushable, Pushable, Closeable}
use areamy.Edge.Fanout.{rotate_from}
use areamy.Edge.Fanout.Delivery.{Answers}
use areamy.Work.Node.{Incoming}
use areamy.Work.Node.Stream.{Extends-refl, Extends-eq, by_news, Reads}
use areamy.Work.Node.Round.{WorkNode, rounds_of, search_loop, work_with}
use areamy.Work.Node.Round.Keeps.{Rounded}
use areamy.Work.Biunion.{BiunionRoutine, Inlets, Search, turn, next_message, work}
use areamy.Work.Biunion.Merge.{BothGrow, BiunionLaws, InletsLaws, Gives}
use areamy.Work.Biunion.Turns.{Holds}
use areamy.Work.Biunion.Rounds.{rounds-Merged}
use areamy.Work.Biunion.Ends.{Drains, next_message-ends}

-- What the routine was sent, and what it is to put out.
abbrev Adder : Type 0
Adder = List (ℕ ⊎ ℕ) × List ℕ

abbrev next_of : List (ℕ ⊎ ℕ) → List ℕ → Result (Option ℕ) × Adder
next_of t [] = (ok none, (t, []))
next_of t (x ∷ q) = (ok (some x), (t, q))

abbrev adder : BiunionRoutine Adder ℕ ℕ ℕ
adder = record {
  send_left = λ r d. (ok tt, (r.0 ++ inl d ∷ [], r.1 ++ (d + 1) ∷ []));
  send_right = λ r d. (ok tt, (r.0 ++ inr d ∷ [], r.1 ++ (d + 2) ∷ []));
  flush = λ r. (ok tt, r);
  next = λ r. next_of r.0 r.1;
}

abbrev Edges : Type 0
Edges = List (Message ℕ ℕ) × List (Message ℕ ℕ)

abbrev left_of : List (Message ℕ ℕ) → List (Message ℕ ℕ) → Result (Option (Message ℕ ℕ)) × Edges
left_of [] r = (err closed, ([], r))
left_of (m ∷ l) r = (ok (some m), (l, r))

abbrev right_of : List (Message ℕ ℕ) → List (Message ℕ ℕ) → Result (Option (Message ℕ ℕ)) × Edges
right_of l [] = (err closed, (l, []))
right_of l (m ∷ r) = (ok (some m), (l, r))

abbrev inlets : Inlets Edges (Message ℕ ℕ) (Message ℕ ℕ)
inlets = record {
  poll_left = λ x. left_of x.0 x.1;
  poll_right = λ x. right_of x.0 x.1;
  wait_any = λ x. (err closed, x);
}

-- A parent pushes its number to the left, as data.
abbrev parent : ℕ → Edges → Result (Unit {0}) × Edges
parent n x = (ok tt, (x.0 ++ data' n ∷ [], x.1))

-- An output with room for one message.
abbrev Slot : Type 0
Slot = List (Message ℕ ℕ)

abbrev try_push : Slot → Message ℕ ℕ → Result (TryPush (Message ℕ ℕ)) × Slot
try_push e m = if ltb (length e) 3 then (ok pushed, e ++ m ∷ []) else (ok (full m), e)

abbrev slots : TryPushable Slot (Message ℕ ℕ)
slots = record { try_push = try_push }

abbrev blocking : Pushable Slot (Message ℕ ℕ)
blocking = record { push = λ e m. (ok tt, e ++ m ∷ []) }

abbrev shutting : Closeable Slot
shutting = record { close = λ e. (ok tt, e) }

abbrev node : WorkNode (Search Adder ℕ (Message ℕ ℕ) Edges) Slot (Message ℕ ℕ)
node = record {
  search = record {
    routine = ([], []);
    left_workers = 5 ∷ [];
    right_workers = [];
    pending = none;
    world = (data' 1 ∷ flush 7 ∷ [], data' 2 ∷ []);
  };
  outputs = record { edges = [] ∷ [] ∷ []; suspended = none };
}

abbrev after :
    List ℕ
    → Option (Result (Unit {0})) × WorkNode (Search Adder ℕ (Message ℕ ℕ) Edges) Slot (Message ℕ ℕ)
after turns = rounds_of (work adder inlets parent (λ m. m) slots blocking shutting) turns node

-- The left side's messages go first, its flush behind its data.
left_first :
    (after (9 ∷ 9 ∷ 9 ∷ [])).1.outputs.edges
    ≡ (data' 2 ∷ flush 7 ∷ data' 4 ∷ []) ∷ (data' 2 ∷ flush 7 ∷ data' 4 ∷ []) ∷ []
unfolding work next_message search_loop work_with turn rotate_from rounds_of
left_first = refl

next_of-Gives :
    (t : List (ℕ ⊎ ℕ)) (q : List ℕ) → Gives (λ (x : Adder). x.0) (λ x. x.1) (t, q) (next_of t q)
next_of-Gives t [] = (refl, refl, refl)
next_of-Gives t (x ∷ q) = (refl, refl)

adder_laws : BiunionLaws (λ (x : Adder). x.0) (λ x. x.1) adder
adder_laws = record {
  on_send_left = λ x d. refl;
  on_send_right = λ x d. refl;
  on_flush = λ x. refl;
  on_next = λ x. next_of-Gives x.0 x.1;
}

left_of-Reads : (l r : List (Message ℕ ℕ)) → Reads (λ (x : Edges). x.0) (l, r) (left_of l r)
left_of-Reads [] r = Extends-refl []
left_of-Reads (m ∷ l) r = Extends-refl (m ∷ l)

left_of-keeps : (l r : List (Message ℕ ℕ)) → (left_of l r).1.1 ≡ r
left_of-keeps [] r = refl
left_of-keeps (m ∷ l) r = refl

right_of-Reads : (l r : List (Message ℕ ℕ)) → Reads (λ (x : Edges). x.1) (l, r) (right_of l r)
right_of-Reads l [] = Extends-refl []
right_of-Reads l (m ∷ r) = Extends-refl (m ∷ r)

right_of-keeps : (l r : List (Message ℕ ℕ)) → (right_of l r).1.0 ≡ l
right_of-keeps l [] = refl
right_of-keeps l (m ∷ r) = refl

inlets_laws : InletsLaws (λ (x : Edges). x.0) (λ x. x.1) inlets
inlets_laws = record {
  left_reads = λ x. left_of-Reads x.0 x.1;
  left_grows = λ x. Extends-eq (left_of-keeps x.0 x.1);
  right_reads = λ x. right_of-Reads x.0 x.1;
  right_grows = λ x. Extends-eq (right_of-keeps x.0 x.1);
  on_wait = λ x. (Extends-refl (x.0), Extends-refl (x.1));
}

parent-Grow : (n : ℕ) (x : Edges) → BothGrow (λ (y : Edges). y.0) (λ y. y.1) x (parent n x).1
parent-Grow n x = (by_news (data' n ∷ []) refl, Extends-refl (x.1))

try_push-Answers : (e : Slot) (m : Message ℕ ℕ) → Answers (λ x. x) e m (try_push e m)
try_push-Answers e m = elim (Bool-cases (ltb (length e) 3)) [
  | inl room ↦ rw room refl
  | inr none_left ↦ rw none_left (refl, refl)
]

rounds-Merged_example :
    Rounded
      (Holds
        (λ (x : Adder). x.0)
        (λ x. x.1)
        (λ (x : Edges). x.0)
        (λ x. x.1)
        ([], [])
        none
        (data' 1 ∷ flush 7 ∷ [], data' 2 ∷ []))
      (λ m. m)
      (λ (e : Slot). e)
      ([] ∷ [] ∷ [])
      (rounds_of (work adder inlets parent (λ m. m) slots blocking shutting) (9 ∷ 9 ∷ 9 ∷ []) node)
rounds-Merged_example =
    rounds-Merged adder inlets parent (λ m. m) slots blocking shutting (λ x. x.0) (λ x. x.1)
      (λ x. x.0) (λ x. x.1) (λ e. e) adder_laws inlets_laws parent-Grow try_push-Answers
      (λ e m. refl) (9 ∷ 9 ∷ 9 ∷ []) node refl

abbrev waiting : Edges → ℕ
waiting x = length (x.0) + length (x.1)

left_of-Drains : (l r : List (Message ℕ ℕ)) → Drains waiting (waiting (l, r)) (left_of l r)
left_of-Drains [] r = omega arith
left_of-Drains (m ∷ l) r = omega arith

right_of-Drains : (l r : List (Message ℕ ℕ)) → Drains waiting (waiting (l, r)) (right_of l r)
right_of-Drains l [] = omega arith
right_of-Drains l (m ∷ r) = omega arith

left_of-ne-empty : (l r : List (Message ℕ ℕ)) → (left_of l r).0 ≢ ok none
left_of-ne-empty [] r = λ e. cc
left_of-ne-empty (m ∷ l) r = λ e. cc

right_of-ne-empty : (l r : List (Message ℕ ℕ)) → (right_of l r).0 ≢ ok none
right_of-ne-empty l [] = λ e. cc
right_of-ne-empty l (m ∷ r) = λ e. cc

next_message-ends_example :
    (found : Result (Incoming (Message ℕ ℕ))) × ((next_message adder inlets parent 4 node.search).0
      ≡ some found)
next_message-ends_example =
    next_message-ends adder inlets parent waiting (λ x. left_of-Drains x.0 x.1)
      (λ x. right_of-Drains x.0 x.1) (λ x. left_of-ne-empty x.0 x.1)
      (λ x. right_of-ne-empty x.0 x.1) 4 node.search (omega arith)
