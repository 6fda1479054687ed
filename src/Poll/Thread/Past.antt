-- ===== src/Poll/Thread/Past.antt =====
-- What befell a slot of the loop, as a log of its node's answers and drops tells it.
use areamy.Common.{
  ℕ, zero, suc, ◌<◌, ◌≡◌, refl, sym, subst, Bool, true, false, Option, none, some, List, [], ◌∷◌,
  inl, inr, arith, if◌then◌else◌, ◌==◌, Bool-cases, map, length, get_elem?, set, All,
  get_elem?-set_self, get_elem?-set_ne,
}
use areamy.Error.{closed, fatal, any, Result, ok, err}
use areamy.Poll.Node.{Polled, ready, pending}

-- The node of a slot answered a poll, or was dropped.
pub data Event : Type 0 where
  answered : ℕ → Result Polled → Event
  dropped : ℕ → Event

-- Ready, or closed: the node leaves its slot.
abbrev pub is_final : Result Polled → Bool
is_final (ok ready) = true
is_final (ok pending) = false
is_final (err closed) = true
is_final (err (fatal m)) = false
is_final (err (any e)) = false

abbrev of : Event → ℕ
of (answered i r) = i
of (dropped i) = i

-- Pending, the answer after which the loop goes on with the node.
abbrev pub stays : Event → Bool
stays (answered i (ok pending)) = true
stays (answered i (ok ready)) = false
stays (answered i (err e)) = false
stays (dropped i) = false

-- The events of slot `i`.
abbrev pub about : ℕ → List Event → List Event
about i [] = []
about i (e ∷ es) = let rest = about i es in if of e == i then e ∷ rest else rest

-- Polled, with a final answer, and then dropped; before that it was pending at every poll. The last event
-- comes first.
abbrev pub Left : ℕ → List Event → Type 0
Left i es =
    (r : Result Polled) × (rest : List Event) × (es ≡ dropped i ∷ answered i r ∷ rest)
    × (is_final r ≡ true)
    × All (λ e. stays e ≡ true) rest

-- `place` says which slot a node was put in at the start.
module _ {ℓ} {P : Type ℓ} (place : P → ℕ) where
  -- What slot `i` holds tells its events: none if it is past the graph; a node that was put there and
  -- was pending so far; or nothing, once its node left.
  abbrev pub Past : ℕ → List Event → Option (Option P) → Type 0
  Past i es none = es ≡ []
  Past i es (some none) = Left i es
  Past i es (some (some p)) = (place p ≡ i) × All (λ e. stays e ≡ true) es

  pub put_back-Past :
      (es : List Event) (ns : List (Option P)) (i : ℕ) (p q : P)
      → i < length ns
      → get_elem? ns i ≡ some (some p)
      → place q ≡ i
      → ((j : ℕ) → Past j (about j es) (get_elem? ns j))
      → (j : ℕ) → Past j (about j es) (get_elem? (set ns i (some q)) j)
  put_back-Past es ns i p q there h at past j = elim (Bool-cases (i == j)) [
    | inl eq ↦
        let eq' : i ≡ j = ground (arith, eq) in
        let was : Past i (about i es) (some (some p)) = subst (Past i (about i es)) h (past i) in
        subst (λ j. Past j (about j es) (get_elem? (set ns i (some q)) j)) eq'
          (subst (Past i (about i es)) (sym (get_elem?-set_self ns i (some q) there)) (at, was.1))
    | inr ne ↦
        subst (Past j (about j es))
          (sym (get_elem?-set_ne ns {i = i} {j = j} (some q) (λ e. ground (arith, ne)))) (past j)
  ]

  pending-Past :
      (es : List Event) (ns : List (Option P)) (i : ℕ) (p : P)
      → get_elem? ns i ≡ some (some p)
      → ((j : ℕ) → Past j (about j es) (get_elem? ns j))
      → (j : ℕ) → Past j (about j (answered i (ok pending) ∷ es)) (get_elem? ns j)
  pending-Past es ns i p h past j = elim (Bool-cases (i == j)) [
    | inl eq ↦
        let eq' : i ≡ j = ground (arith, eq) in
        let was : Past i (about i es) (some (some p)) = subst (Past i (about i es)) h (past i) in
        subst (λ j. Past j (about j (answered i (ok pending) ∷ es)) (get_elem? ns j)) eq'
          (subst (Past i (about i (answered i (ok pending) ∷ es))) (sym h) (ground (arith, was)))
    | inr ne ↦ rw ne (past j)
  ]

  pub stayed-Past :
      (es : List Event) (ns : List (Option P)) (i : ℕ) (p q : P)
      → i < length ns
      → get_elem? ns i ≡ some (some p)
      → place q ≡ i
      → ((j : ℕ) → Past j (about j es) (get_elem? ns j))
      → (j : ℕ) → Past j (about j (answered i (ok pending) ∷ es)) (get_elem? (set ns i (some q)) j)
  stayed-Past es ns i p q there h at past =
      put_back-Past (answered i (ok pending) ∷ es) ns i p q there h at
        (pending-Past es ns i p h past)

  pub left-Past :
      (es : List Event) (ns : List (Option P)) (i : ℕ) (p : P) (r : Result Polled)
      → i < length ns
      → get_elem? ns i ≡ some (some p)
      → is_final r ≡ true
      → ((j : ℕ) → Past j (about j es) (get_elem? ns j))
      → (j : ℕ) → Past j (about j (dropped i ∷ answered i r ∷ es)) (get_elem? (set ns i none) j)
  left-Past es ns i p r there h f past j = elim (Bool-cases (i == j)) [
    | inl eq ↦
        let eq' : i ≡ j = ground (arith, eq) in
        let was : Past i (about i es) (some (some p)) = subst (Past i (about i es)) h (past i) in
        subst (λ j. Past j (about j (dropped i ∷ answered i r ∷ es)) (get_elem? (set ns i none) j))
          eq'
          (subst (Past i (about i (dropped i ∷ answered i r ∷ es)))
            (sym (get_elem?-set_self ns i none there)) (r, about i es, ground arith, f, was.1))
    | inr ne ↦ rw ne (
        subst (Past j (about j es))
          (sym (get_elem?-set_ne ns {i = i} {j = j} none (λ e. ground (arith, ne)))) (past j))
  ]

  some-Past :
      (i : ℕ) (o : Option P)
      → ((p : P) → o ≡ some p → place p ≡ i)
      → (slot : Option (Option P)) → slot ≡ elim o [ none ↦ none | some p ↦ some (some p) ]
      → Past i [] slot
  some-Past i none h slot e = subst (Past i []) (sym e) refl
  some-Past i (some p) h slot e = subst (Past i []) (sym e) (h p refl, tt)

  get_elem?-map-some :
      (ps : List P) (i : ℕ)
      → get_elem? (map some ps) i ≡ elim (get_elem? ps i) [ none ↦ none | some p ↦ some (some p) ]
  get_elem?-map-some [] i = refl
  get_elem?-map-some (p ∷ ps) zero = refl
  get_elem?-map-some (p ∷ ps) (suc i) = get_elem?-map-some ps i

  pub fresh-Past :
      (ps : List P)
      → ((i : ℕ) (p : P) → get_elem? ps i ≡ some p → place p ≡ i)
      → (i : ℕ) → Past i [] (get_elem? (map some ps) i)
  fresh-Past ps h i = some-Past i (get_elem? ps i) (h i) _ (get_elem?-map-some ps i)
