-- ===== src/Poll/Graph/Places.antt =====
-- The empty places of a graph.
use areamy.Common.{
  ℕ, zero, suc, ◌≤◌, ◌≡◌, ◌==◌, refl, ap, arith, Option, none, some, List, [], ◌∷◌, ◌++◌, map,
  length, get_elem?, set, if◌then◌else◌,
}
use areamy.Poll.Graph.{empty_slots, position}

module _ {ℓ} {P : Type ℓ} where
  -- Whether the place is empty.
  abbrev pub empties : List (Option P) → ℕ → ℕ
  empties [] k = 0
  empties (none ∷ ns) zero = 1
  empties (some p ∷ ns) zero = 0
  empties (place ∷ ns) (suc k) = empties ns k

  pub empties-slot :
      (ns : List (Option P)) (k : ℕ)
      → empties (ns ++ none ∷ []) k ≡ (if k == length ns then suc (empties ns k) else empties ns k)
  empties-slot [] zero = ground arith
  empties-slot [] (suc k) = ground arith
  empties-slot (none ∷ ns) zero = ground arith
  empties-slot (some p ∷ ns) zero = ground arith
  empties-slot (none ∷ ns) (suc k) = ground (arith, empties-slot ns k)
  empties-slot (some p ∷ ns) (suc k) = ground (arith, empties-slot ns k)

  pub empties-set :
      (ns : List (Option P)) (id k : ℕ) (p : P)
      → empties (set ns id (some p)) k ≡ (if k == id then 0 else empties ns k)
  empties-set [] id k p = ground arith
  empties-set (none ∷ ns) zero zero p = ground arith
  empties-set (some q ∷ ns) zero zero p = ground arith
  empties-set (none ∷ ns) zero (suc k) p = ground arith
  empties-set (some q ∷ ns) zero (suc k) p = ground arith
  empties-set (none ∷ ns) (suc id) zero p = ground arith
  empties-set (some q ∷ ns) (suc id) zero p = ground arith
  empties-set (none ∷ ns) (suc id) (suc k) p = ground (arith, empties-set ns id k p)
  empties-set (some q ∷ ns) (suc id) (suc k) p = ground (arith, empties-set ns id k p)

  pub empties-le : (ns : List (Option P)) (k : ℕ) → empties ns k ≤ 1
  empties-le [] k = omega arith
  empties-le (none ∷ ns) zero = omega arith
  empties-le (some p ∷ ns) zero = omega arith
  empties-le (none ∷ ns) (suc k) = empties-le ns k
  empties-le (some p ∷ ns) (suc k) = empties-le ns k

  pub empties-past : (ns : List (Option P)) (k : ℕ) → get_elem? ns k ≡ none → empties ns k ≡ 0
  empties-past [] k e = refl
  empties-past (none ∷ ns) zero e = cc
  empties-past (some p ∷ ns) zero e = cc
  empties-past (none ∷ ns) (suc k) e = empties-past ns k e
  empties-past (some p ∷ ns) (suc k) e = empties-past ns k e

  -- What `finish` finds.
  abbrev pub Finds : List (Option P) → Option ℕ → Type ℓ
  Finds ns none = ((k : ℕ) → empties ns k ≡ 0) × (ps : List P) × (ns ≡ map some ps)
  Finds ns (some id) = (empties ns id ≡ 1) × (get_elem? ns id ≡ some none)

  full :
      (p : P) (ns : List (Option P))
      → ((k : ℕ) → empties ns k ≡ 0)
      → (k : ℕ) → empties (some p ∷ ns) k ≡ 0
  full p ns h zero = refl
  full p ns h (suc k) = h k

  behind :
      (p : P) (ns : List (Option P)) (o : Option ℕ)
      → Finds ns o
      → Finds (some p ∷ ns) (elim o [ none ↦ none | some id ↦ some (suc id) ])
  behind p ns none (h, ps, e) = (full p ns h, p ∷ ps, ap (λ l. some p ∷ l) e)
  behind p ns (some id) h = h

  pub position-Finds : (ns : List (Option P)) → Finds ns (position ns)
  unfolding position
  position-Finds [] = (λ k. refl, [], refl)
  position-Finds (none ∷ ns) = (refl, refl)
  position-Finds (some p ∷ ns) = behind p ns (position ns) (position-Finds ns)

module _ {ℓ} (P : Type ℓ) where
  pub empties-empty_slots :
      (n k : ℕ)
      → empties (empty_slots {P = P} (suc n)) k ≡ (
          if k == n
          then suc (empties (empty_slots {P = P} n) k)
          else empties (empty_slots {P = P} n) k)
  unfolding empty_slots
  empties-empty_slots zero zero = ground arith
  empties-empty_slots zero (suc k) = ground arith
  empties-empty_slots (suc n) zero = ground arith
  empties-empty_slots (suc n) (suc k) = ground (arith, empties-empty_slots n k)
