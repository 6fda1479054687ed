-- ===== src/Poll/Graph/Trace/Built.antt =====
-- The ids at large are those of the empty places.
use areamy.Common.{
  ℕ, zero, suc, ◌≡◌, ◌==◌, refl, ◌∙◌, arith, false, Bool-cases, Option, none, some, Option-cases,
  List, [], ◌∷◌, inl, inr, map, get_elem?, if◌then◌else◌,
}
use areamy.Error.{Result, ok, err}
use areamy.Poll.Thread.Ends.{count}
use areamy.Poll.Graph.{Graph, reserve, empty_slots, local, slot, add, position, finish}
use areamy.Poll.Graph.Trace.{
  Building, Call, makes, adds, reserved, consed, taken_out, call, build, begun,
}
use areamy.Poll.Graph.Places.{
  empties, empties-slot, empties-set, empties-le, empties-past, Finds, position-Finds,
  empties-empty_slots,
}

some-eq {ℓ} : {A : Type ℓ} {a b : A} → some a ≡ some b → a ≡ b
some-eq e = ground (arith, e)

behind_other :
    (id j k : ℕ) (l rest : List ℕ) (o : Option (List ℕ))
    → ((r : List ℕ) → o ≡ some r → count k l ≡ (if k == id then suc (count k r) else count k r))
    → id == j ≡ false
    → consed j o ≡ some rest
    → count k (j ∷ l) ≡ (if k == id then suc (count k rest) else count k rest)
unfolding consed
behind_other id j k l rest none on other e = cc
behind_other id j k l rest (some r) on other e =
    let j_rest : j ∷ r ≡ rest = some-eq e in rw (← j_rest) (ground (arith, on r refl, other))

behind_one :
    (id j k : ℕ) (l rest : List ℕ) (o : Option (List ℕ))
    → ((r : List ℕ) → o ≡ some r → count k l ≡ (if k == id then suc (count k r) else count k r))
    → (if id == j then some l else consed j o) ≡ some rest
    → count k (j ∷ l) ≡ (if k == id then suc (count k rest) else count k rest)
unfolding consed
behind_one id j k l rest o on e = elim (Bool-cases (id == j)) [
  | inl same ↦
      let l_rest : l ≡ rest = some-eq (rw same at e) in rw (← l_rest) (ground (arith, same))
  | inr other ↦ behind_other id j k l rest o on other (rw other at e)
]

taken_out-count :
    (id k : ℕ) (l rest : List ℕ)
    → taken_out id l ≡ some rest
    → count k l ≡ (if k == id then suc (count k rest) else count k rest)
unfolding taken_out
taken_out-count id k [] rest e = cc
taken_out-count id k (j ∷ l) rest e =
    behind_one id j k l rest (taken_out id l) (taken_out-count id k l) e

count-Empty : (l : List ℕ) → ((k : ℕ) → count k l ≡ 0) → l ≡ []
count-Empty [] h = refl
count-Empty (j ∷ l) h = absurd (ground (arith, h j))

module _ {ℓ} {P : Type ℓ} where
  -- The ids at large are those of the empty places, each once.
  Matches : Building P → Type 0
  Matches b = (k : ℕ) → count k b.at_large ≡ empties b.graph.nodes k

  add-Matches :
      (g : Graph P) (l rest : List ℕ) (id : ℕ) (p : P)
      → taken_out id l ≡ some rest
      → ((k : ℕ) → count k l ≡ empties g.nodes k)
      → (k : ℕ) → count k rest ≡ empties (add g id p).nodes k
  unfolding add
  add-Matches g l rest id p found h k = elim (Option-cases (get_elem? g.nodes id)) [
    | inl past ↦
        absurd
          (ground (arith, taken_out-count id id l rest found, h id, empties-past g.nodes id past))
    | inr (place, inside) ↦
        rw (inside, add)
          (ground (
            arith,
            taken_out-count id k l rest found,
            h k,
            empties-set g.nodes id k p,
            empties-le g.nodes k,
          ))
  ]

  call-Matches : (b : Building P) (c : Call P) → Matches b → Matches (call b c)
  unfolding Matches call slot
  call-Matches b makes h = λ k. ground (arith, h k, empties-slot b.graph.nodes k)
  call-Matches b (adds id p) h = elim (Option-cases (taken_out id b.at_large)) [
    | inl none_left ↦ rw (none_left, call) h
    | inr (rest, found) ↦ rw (found, call) (add-Matches b.graph b.at_large rest id p found h)
  ]

  build-Matches : (b : Building P) (cs : List (Call P)) → Matches b → Matches (build b cs)
  unfolding build
  build-Matches b [] h = h
  build-Matches b (c ∷ cs) h = build-Matches (call b c) cs (call-Matches b c h)

  -- How the graph ends: every place full and no id at large, or an error that an empty place is behind.
  abbrev pub Built : Building P → Result (List (Option P)) → Type ℓ
  Built b (ok nodes) = (b.at_large ≡ []) × (ps : List P) × (nodes ≡ map some ps)
  Built b (err e) = (id : ℕ) × (count id b.at_large ≡ 1) × (get_elem? b.graph.nodes id ≡ some none)

  Finds-Built :
      (b : Building P) (o : Option ℕ)
      → position b.graph.nodes ≡ o
      → Finds b.graph.nodes o
      → Matches b
      → Built b (finish b.graph)
  unfolding Matches finish
  Finds-Built b none e (empty, ps, full_of) h =
      rw (e, finish) (count-Empty b.at_large (λ k. h k ∙ empty k), ps, full_of)
  Finds-Built b (some id) e (empty, at_id) h = rw (e, finish) (id, h id ∙ empty, at_id)

reserved-len : (n : ℕ) → (reserved n).0.len ≡ n
unfolding reserve
reserved-len zero = refl
reserved-len (suc n) = ground (arith, reserved-len n)

module _ {ℓ} (P : Type ℓ) where
  reserved-count : (n k : ℕ) → count k (reserved n).1 ≡ empties (empty_slots {P = P} n) k
  unfolding reserve empty_slots
  reserved-count zero k = refl
  reserved-count (suc n) k =
      ground (arith, reserved-count n k, reserved-len n, empties-empty_slots P n k)

  begun-Matches : (n : ℕ) → Matches (begun {P = P} n)
  unfolding Matches begun local
  begun-Matches n = λ k. rw (reserved-len n) (reserved-count n k)

-- A graph for which some nodes were reserved, after any calls of its builders, each adding only to
-- slots that it has: `finish` gives a node at every place if no reserved node and no slot is left to
-- be added, and else an error, and a
-- place of one of these is empty.
pub build-Built {ℓ} :
    {P : Type ℓ} (n : ℕ) (cs : List (Call P))
    → Built (build (begun n) cs) (finish (build (begun n) cs).graph)
build-Built {P} n cs =
    let b : Building P = build (begun n) cs in
    Finds-Built b (position b.graph.nodes) refl (position-Finds b.graph.nodes)
      (build-Matches (begun n) cs (begun-Matches P n))
