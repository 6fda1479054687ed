-- ===== src/Poll/Node/Line/Tests.antt =====
-- A node whose routine keeps two outputs at most, over edges that are lists, and its theorems there.
use areamy.Common.{
  ℕ, ltb, length, Bool, true, false, Option, none, some, List, [], ◌∷◌, ◌++◌, ◌≡◌, refl, sym,
  append-nil, map,
}
use areamy.Error.{closed, Result, ok, err}
use areamy.Message.{Message, data', flush}
use areamy.Edge.Fanout.{complete}
use areamy.Poll.Node.{
  running, flush_ready, output, pending, Accept, accepted, full, LineRoutine, Receivable, Rotate,
  Node,
}
use areamy.Poll.Node.Move.{Moved}
use areamy.Poll.Node.Feed.{feed}
use areamy.Poll.Node.Feed.Account.{Takes, Reads, Accounted, feed-Accounted}
use areamy.Poll.Node.Emit.{emit}
use areamy.Poll.Node.Emit.Account.{Sends, Yields, emit-Accounted}
use areamy.Poll.Node.Emit.Account
use areamy.Poll.Node.Line.{poll}
use areamy.Poll.Node.Line.Moves.{poll-Moved}

-- What the routine took, and what it is to put out.
abbrev Routine : Type 0
Routine = List (Message ℕ ℕ) × List ℕ

abbrev offered : Bool → Routine → ℕ → Result (Accept ℕ) × Routine
offered true (t, q) d = (ok accepted, (t ++ data' d ∷ [], q ++ d ∷ []))
offered false (t, q) d = (ok (full d), (t, q))

abbrev next : List (Message ℕ ℕ) → List ℕ → Result (Option ℕ) × Routine
next t [] = (ok none, (t, []))
next t (x ∷ q) = (ok (some x), (t, q))

abbrev two_deep : LineRoutine Routine ℕ ℕ
two_deep = record {
  try_send = λ r d. offered (ltb (length r.1) 2) r d;
  next = λ r. next r.0 r.1;
  flush = λ r. (ok tt, r);
  poll = λ r. (ok pending, r);
}

abbrev try_recv : List (Message ℕ ℕ) → Result (Option (Message ℕ ℕ)) × List (Message ℕ ℕ)
try_recv [] = (err closed, [])
try_recv (m ∷ ms) = (ok (some m), ms)

abbrev inlet : Receivable (List (Message ℕ ℕ)) (Message ℕ ℕ)
inlet = record { try_recv = try_recv }

abbrev outlet : Rotate (List (Message ℕ ℕ)) (Message ℕ ℕ)
outlet = record {
  retry = λ o. (ok complete, o);
  rotate = λ o m. (ok complete, o ++ m ∷ []);
  close = λ o. (ok tt, o);
}

abbrev Line : Type 0
Line = Node (List (Message ℕ ℕ)) Routine (List (Message ℕ ℕ)) ℕ ℕ

-- Three messages and a flush arrive; the third is refused.
abbrev arriving : Line
arriving = record {
  inlet = data' 1 ∷ data' 2 ∷ data' 3 ∷ flush 7 ∷ [];
  is_open = true;
  routine = ([], []);
  outlet = [];
  state = running;
  budget_input = 8;
  budget_output = 8;
  held = none;
  woken = [];
}

abbrev leaving : Line
leaving = record arriving { routine = ([], 1 ∷ 2 ∷ []); state = flush_ready 7 }

offered-Takes : (b : Bool) (x : Routine) (d : ℕ) → Takes (λ x. x.0) x d (offered b x d)
offered-Takes true x d = refl
offered-Takes false x d = (refl, refl)

try_recv-Reads : (x : List (Message ℕ ℕ)) → Reads (λ x. x) x (try_recv x)
try_recv-Reads [] = refl
try_recv-Reads (m ∷ ms) = refl

next-Yields :
    (t : List (Message ℕ ℕ)) (q : List ℕ) → Yields {S = ℕ} (λ x. map data' x.1) (t, q) (next t q)
next-Yields t [] = (refl, refl)
next-Yields t (x ∷ q) = refl

holds_third : (feed two_deep inlet false arriving).1.held ≡ some 3
unfolding feed
holds_third = refl

feed-Accounted_example :
    Accounted two_deep inlet
      (λ x. x.0)
      (λ x. x)
      (arriving.inlet)
      (feed two_deep inlet false arriving)
feed-Accounted_example =
    feed-Accounted two_deep inlet (λ x. x.0) (λ x. x)
      (λ x d. offered-Takes (ltb (length x.1) 2) x d) (λ x. refl) try_recv-Reads false arriving refl

emit-Accounted_example :
    Account.Accounted two_deep outlet
      (λ x. x)
      (λ x. map data' x.1)
      (data' 1 ∷ data' 2 ∷ flush 7 ∷ [])
      (emit two_deep outlet leaving)
emit-Accounted_example =
    emit-Accounted two_deep outlet (λ x. x) (λ x. map data' x.1) (λ x. sym (append-nil x))
      (λ x m. refl) (λ x. next-Yields x.0 x.1) leaving

poll-Moved_example : Moved output (flush_ready 7) [] (poll two_deep inlet outlet output leaving).1
poll-Moved_example = poll-Moved two_deep inlet outlet output leaving
