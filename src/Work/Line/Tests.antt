-- ===== src/Work/Line/Tests.antt =====
-- A node that adds one to what it is sent, on an input that is a list, with two outputs.
use areamy.Common.{
  ℕ, ◌+◌, ltb, if◌then◌else◌, Option, none, some, List, [], ◌∷◌, ◌++◌, ◌≡◌, refl, Bool-cases, inl,
  inr, ◌≢◌, length, arith,
}
use areamy.Error.{closed, Result, ok, err}
use areamy.Message.{Message, data', flush}
use areamy.Graph.{TryPush, pushed, full, TryPushable, Pushable, Closeable}
use areamy.Edge.Fanout.{rotate_from}
use areamy.Edge.Fanout.Delivery.{Answers}
use areamy.Work.Node.{Routine, Inlet, Incoming}
use areamy.Work.Node.Stream.{Extends-refl, by_news, Gives, RoutineLaws, Reads, Grows, InletLaws}
use areamy.Work.Line.{Search, Line, turn, next_message, work}
use areamy.Work.Line.Account.{account, Accounted, next_message-Accounted}
use areamy.Work.Line.Ends.{Drains, next_message-some}
use areamy.Work.Node.Round.{search_loop, work_with, rounds_of}
use areamy.Work.Node.Round.Keeps.{Rounded}
use areamy.Work.Line.Rounds.{passing, Passes, rounds-Worked}

-- What the routine was sent, and what it is to put out.
abbrev Adder : Type 0
Adder = List ℕ × List ℕ

abbrev next_of : List ℕ → List ℕ → Result (Option ℕ) × Adder
next_of t [] = (ok none, (t, []))
next_of t (x ∷ q) = (ok (some x), (t, q))

abbrev adder : Routine Adder ℕ ℕ
adder = record {
  send = λ r d. (ok tt, (r.0 ++ d ∷ [], r.1 ++ (d + 1) ∷ []));
  flush = λ r. (ok tt, r);
  next = λ r. next_of r.0 r.1;
}

abbrev poll_of : List (Message ℕ ℕ) → Result (Option (Message ℕ ℕ)) × List (Message ℕ ℕ)
poll_of [] = (err closed, [])
poll_of (m ∷ ms) = (ok (some m), ms)

abbrev inlet : Inlet (List (Message ℕ ℕ)) (Message ℕ ℕ)
inlet = record { poll = poll_of; wait_front = λ x. (err closed, x) }

-- A parent pushes its number, as data.
abbrev parent : ℕ → List (Message ℕ ℕ) → Result (Unit {0}) × List (Message ℕ ℕ)
parent n x = (ok tt, x ++ data' n ∷ [])

-- An output with room for one message.
abbrev Slot : Type 0
Slot = List (Message ℕ ℕ)

abbrev try_push : Slot → Message ℕ ℕ → Result (TryPush (Message ℕ ℕ)) × Slot
try_push e m = if ltb (length e) 2 then (ok pushed, e ++ m ∷ []) else (ok (full m), e)

abbrev slots : TryPushable Slot (Message ℕ ℕ)
slots = record { try_push = try_push }

abbrev blocking : Pushable Slot (Message ℕ ℕ)
blocking = record { push = λ e m. (ok tt, e ++ m ∷ []) }

abbrev shutting : Closeable Slot
shutting = record { close = λ e. (ok tt, e) }

abbrev searching : Search Adder ℕ (Message ℕ ℕ) (List (Message ℕ ℕ))
searching = record {
  routine = ([], []);
  workers = 5 ∷ [];
  pending = none;
  world = data' 1 ∷ flush 7 ∷ data' 2 ∷ [];
}

abbrev node : Line Adder ℕ (Message ℕ ℕ) (List (Message ℕ ℕ)) Slot
node = record { search = searching; outputs = record { edges = [] ∷ [] ∷ []; suspended = none } }

-- The flush goes out behind what was sent before it.
in_order :
    (rounds_of
      (work adder inlet parent (λ m. m) slots blocking shutting)
      (9 ∷ 9 ∷ [])
      node).1.outputs.edges
    ≡ (data' 2 ∷ flush 7 ∷ []) ∷ (data' 2 ∷ flush 7 ∷ []) ∷ []
unfolding rounds_of work next_message search_loop work_with turn rotate_from
in_order = refl

next_of-Gives :
    (t : List ℕ) (q : List ℕ) → Gives (λ (x : Adder). x.0) (λ x. x.1) (t, q) (next_of t q)
next_of-Gives t [] = (refl, refl, refl)
next_of-Gives t (x ∷ q) = (refl, refl)

adder_laws : RoutineLaws (λ (x : Adder). x.0) (λ x. x.1) adder
adder_laws = record {
  on_send = λ x d. refl;
  on_flush = λ x. refl;
  on_next = λ x. next_of-Gives x.0 x.1;
}

poll_of-Reads : (x : List (Message ℕ ℕ)) → Reads (λ x. x) x (poll_of x)
poll_of-Reads [] = Extends-refl []
poll_of-Reads (m ∷ ms) = Extends-refl (m ∷ ms)

inlet_laws : InletLaws (λ x. x) inlet
inlet_laws = record { on_poll = poll_of-Reads; on_wait = λ x. Extends-refl x }

parent-Grows : (n : ℕ) (x : List (Message ℕ ℕ)) → Grows (λ x. x) x (parent n x).1
parent-Grows n x = by_news (data' n ∷ []) refl

poll_of-Drains : (x : List (Message ℕ ℕ)) → Drains (λ x. x) x (poll_of x)
poll_of-Drains [] = tt
poll_of-Drains (m ∷ ms) = refl

poll_of-ne-empty : (x : List (Message ℕ ℕ)) → (poll_of x).0 ≢ ok none
poll_of-ne-empty [] = λ e. cc
poll_of-ne-empty (m ∷ ms) = λ e. cc

try_push-Answers : (e : Slot) (m : Message ℕ ℕ) → Answers (λ x. x) e m (try_push e m)
try_push-Answers e m = elim (Bool-cases (ltb (length e) 2)) [
  | inl room ↦ rw room refl
  | inr none_left ↦ rw none_left (refl, refl)
]

next_message-Accounted_example :
    Accounted
      (λ (x : Adder). x.0)
      (λ x. x.1)
      (λ x. x)
      (account (λ (x : Adder). x.0) (λ x. x.1) (λ x. x) [] searching)
      (next_message adder inlet parent 9 searching)
next_message-Accounted_example =
    next_message-Accounted (λ x. x.0) (λ x. x.1) (λ x. x) adder inlet parent adder_laws inlet_laws
      parent-Grows 9 searching

next_message-some_example :
    (found : Result (Incoming (Message ℕ ℕ))) × ((next_message adder inlet parent 4 searching).0
      ≡ some found)
next_message-some_example =
    next_message-some adder inlet parent (λ x. x) poll_of-Drains poll_of-ne-empty 4 searching
      (omega arith)

rounds-Worked_example :
    Rounded
      (Passes
        (λ (x : Adder). x.1)
        (λ (x : List (Message ℕ ℕ)). x)
        []
        (passing (λ (x : List (Message ℕ ℕ)). x) [] searching))
      (λ m. m)
      (λ (e : Slot). e)
      ([] ∷ [] ∷ [])
      (rounds_of (work adder inlet parent (λ m. m) slots blocking shutting) (9 ∷ 9 ∷ 9 ∷ []) node)
rounds-Worked_example =
    rounds-Worked adder inlet parent (λ x. x.0) (λ x. x.1) (λ x. x) adder_laws inlet_laws
      parent-Grows (λ m. m) slots blocking shutting (λ e. e) try_push-Answers (λ e m. refl)
      (9 ∷ 9 ∷ 9 ∷ []) node refl
