-- ===== src/Poll/Thread/Occupied.antt =====
-- The slots of a poll thread's loop that hold a node.
use areamy.Common.{
  ℕ, zero, suc, ◌<◌, ◌≡◌, refl, ap, Option, none, some, List, [], ◌∷◌, arith, map, length,
  get_elem?, set,
}

module _ {ℓ} {P : Type ℓ} where
  -- The slots that hold a node.
  abbrev pub occupied : List (Option P) → ℕ
  occupied [] = 0
  occupied (none ∷ ns) = occupied ns
  occupied (some p ∷ ns) = suc (occupied ns)

  pub occupied-none :
      (ns : List (Option P)) (i : ℕ) (p : P)
      → get_elem? ns i ≡ some (some p)
      → suc (occupied (set ns i none)) ≡ occupied ns
  occupied-none [] i p h = cc
  occupied-none (none ∷ ns) zero p h = cc
  occupied-none (some q ∷ ns) zero p h = refl
  occupied-none (none ∷ ns) (suc i) p h = occupied-none ns i p h
  occupied-none (some q ∷ ns) (suc i) p h = omega (arith, occupied-none ns i p h)

  pub occupied-some :
      (ns : List (Option P)) (i : ℕ) (p q : P)
      → get_elem? ns i ≡ some (some p)
      → occupied (set ns i (some q)) ≡ occupied ns
  occupied-some [] i p q h = refl
  occupied-some (none ∷ ns) zero p q h = cc
  occupied-some (some x ∷ ns) zero p q h = refl
  occupied-some (none ∷ ns) (suc i) p q h = occupied-some ns i p q h
  occupied-some (some x ∷ ns) (suc i) p q h = omega (arith, occupied-some ns i p q h)

  pub length-map-some : (ps : List P) → length (map some ps) ≡ length ps
  length-map-some [] = refl
  length-map-some (p ∷ ps) = ap suc (length-map-some ps)

  pub occupied-full : (ps : List P) → length (map some ps) ≡ occupied (map some ps)
  occupied-full [] = refl
  occupied-full (p ∷ ps) = omega (arith, occupied-full ps)

  pub get_elem?-there :
      (ns : List (Option P)) (i : ℕ) (slot : Option P) → get_elem? ns i ≡ some slot → i < length ns
  get_elem?-there [] i slot h = cc
  get_elem?-there (x ∷ ns) zero slot h = omega arith
  get_elem?-there (x ∷ ns) (suc i) slot h = omega (arith, get_elem?-there ns i slot h)

  pub get_elem?-unoccupied :
      (ns : List (Option P)) (i : ℕ) → occupied ns ≡ 0 → i < length ns → get_elem? ns i ≡ some none
  get_elem?-unoccupied [] i e h = absurd (omega (arith, h))
  get_elem?-unoccupied (some p ∷ ns) i e h = absurd (omega (arith, e))
  get_elem?-unoccupied (none ∷ ns) zero e h = refl
  get_elem?-unoccupied (none ∷ ns) (suc i) e h = get_elem?-unoccupied ns i e (omega (arith, h))
