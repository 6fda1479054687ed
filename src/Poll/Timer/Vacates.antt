-- ===== src/Poll/Timer/Vacates.antt =====
-- Vacating a cell keeps the timers' heap valid.
use areamy.Common.{
  ℕ, zero, suc, ◌+◌, ◌^◌, ◌<◌, ◌≡◌, ◌≢◌, refl, sym, subst, true, Option, none, some, List, [], ◌∷◌,
  inl, inr, arith, Bool-cases, get_elem?, set, is_some, All,
}
use areamy.Poll.Timer.{Entry, Cell, DeadlineHeap, is_live, occupied_by, next_generation, take_live}
use areamy.Poll.Timer.Valid.{DatedBy, VacantIn, Vacant, Valid, Young, All-map, get_elem?-lt}
use areamy.Poll.Timer.Keeps.{Dated-set, Vacant-set_ne, Vacant-set_self}

All-get {ℓ} :
    {A : Type ℓ} (P : A → Type 0) (xs : List A) (i : ℕ) (a : A)
    → All P xs
    → get_elem? xs i ≡ some a
    → P a
All-get P [] i a p e = ground arith
All-get P (x ∷ xs) zero a p e = subst P (ground (arith, e)) p.0
All-get P (x ∷ xs) (suc i) a p e = All-get P xs i a p.1 e

All-set {ℓ} :
    {A : Type ℓ} (P : A → Type 0) (xs : List A) (i : ℕ) (a : A)
    → All P xs
    → P a
    → All P (set xs i a)
All-set P [] i a p q = tt
All-set P (x ∷ xs) zero a p q = (q, p.1)
All-set P (x ∷ xs) (suc i) a p q = (p.0, All-set P xs i a p.1 q)

pub is_live-cell :
    (o : Option Cell) (g : ℕ)
    → occupied_by o g ≡ true
    → (c : Cell) × (o ≡ some c) × (c.generation ≡ g) × (is_some c.node_id ≡ true)
is_live-cell none g h = ground (arith, h)
is_live-cell (some c) g h = (c, refl, ground (arith, h), ground (arith, h))

-- A live timer's cell is vacated.
vacated-Valid :
    (h : DeadlineHeap) (k i g : ℕ)
    → Young (suc k) h
    → is_live h.cells i g ≡ true
    → Valid h
    → Valid (record h {
      cells = set h.cells i (record { generation = next_generation g; node_id = none });
      free = i ∷ h.free;
    })
      × Young k (record h {
        cells = set h.cells i (record { generation = next_generation g; node_id = none });
        free = i ∷ h.free;
      })
vacated-Valid h k i g young live v =
    let (c, at, same_g, busy) = is_live-cell (get_elem? h.cells i) g live in
    let there = get_elem?-lt h.cells i c at in
    let can = All-get (λ c. c.generation + suc k < 2 ^ 64) h.cells i c young at in
    let left : Cell = record { generation = next_generation g; node_id = none } in
    (
      record {
        sorted = v.sorted;
        distinct = v.distinct;
        dated =
            All-map
              (λ y d. Dated-set h.cells i left y there d (λ same.
                let d' =
                  subst (λ o. DatedBy o y.generation) at
                    (subst (λ j. DatedBy (get_elem? h.cells j) y.generation) same d) in
                (ground (arith, d'.0, same_g, can), λ x. ground (arith, d'.0, same_g, can))))
              h.heap v.dated;
        vacant = (
          Vacant-set_self h.cells i left there refl,
          All-map (λ j p. Vacant-set_ne h.cells i j left (differs c at busy j p) p) h.free v.vacant,
        );
        unrepeated =
            (All-map (λ j p. ground (arith, differs c at busy j p)) h.free v.vacant, v.unrepeated);
      },
      All-set (λ c. c.generation + k < 2 ^ 64) h.cells i left
          (All-map (λ c p. omega (arith, p)) h.cells young) (ground (arith, can, same_g)),
    )
  where
    differs :
        (c : Cell)
        → get_elem? h.cells i ≡ some c
        → is_some c.node_id ≡ true
        → (j : ℕ) → Vacant h.cells j
        → i ≢ j
    differs c at busy j p q =
        let idle = subst VacantIn at (subst (Vacant h.cells) (sym q) p) in
        ground (arith, idle, busy)

pub take_live-Valid :
    (h : DeadlineHeap) (k i g : ℕ)
    → Young (suc k) h
    → Valid h
    → Valid (take_live h i g).1 × Young k (take_live h i g).1
unfolding take_live
take_live-Valid h k i g young v = elim (Bool-cases (is_live h.cells i g)) [
  | inl live ↦ rw live (vacated-Valid h k i g young live v)
  | inr dead ↦ rw dead (v, All-map (λ c p. omega (arith, p)) h.cells young)
]

pub rest-Valid :
    (h : DeadlineHeap) (e : Entry) (es : List Entry)
    → Valid (record h { heap = e ∷ es })
    → Valid (record h { heap = es })
rest-Valid h e es v = record {
  sorted = v.sorted.1;
  distinct = v.distinct.1;
  dated = v.dated.1;
  vacant = v.vacant;
  unrepeated = v.unrepeated;
}
