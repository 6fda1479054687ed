-- ===== src/Poll/Timer/Valid.antt =====
-- The invariant of the timers' heap.
use areamy.Common.{
  ℕ, zero, suc, ◌+◌, ◌^◌, ◌≤◌, ◌<◌, ◌≡◌, refl, Bool, true, false, Option, none, some, List, [], ◌∷◌,
  ◌++◌, inl, inr, arith, if◌then◌else◌, ◌==◌, Bool-cases, length, get_elem?, is_some, All,
}
use areamy.Poll.Timer.{Entry, Cell, DeadlineHeap, before, insert}

abbrev pub same_timer : Entry → Entry → Bool
same_timer a b = if a.cell == b.cell then a.generation == b.generation else false

-- In the entries' order, and no two for one occupancy of a cell.
abbrev pub Sorted : List Entry → Type 0
Sorted [] = Unit
Sorted (x ∷ xs) = All (λ y. before y x ≡ false) xs × Sorted xs

abbrev pub Distinct : List Entry → Type 0
Distinct [] = Unit
Distinct (x ∷ xs) = All (λ y. same_timer x y ≡ false) xs × Distinct xs

-- The cell of an entry has moved on, or is occupied since the entry was made.
abbrev pub DatedBy : Option Cell → ℕ → Type 0
DatedBy none g = ⊥
DatedBy (some c) g = (g ≤ c.generation) × (is_some c.node_id ≡ false → g < c.generation)

abbrev pub Dated : List Cell → Entry → Type 0
Dated cells e = DatedBy (get_elem? cells e.cell) e.generation

abbrev pub VacantIn : Option Cell → Type 0
VacantIn none = ⊥
VacantIn (some c) = is_some c.node_id ≡ false

abbrev pub Vacant : List Cell → ℕ → Type 0
Vacant cells i = VacantIn (get_elem? cells i)

abbrev pub Unrepeated : List ℕ → Type 0
Unrepeated [] = Unit
Unrepeated (x ∷ xs) = All (λ y. (y == x) ≡ false) xs × Unrepeated xs

pub record Valid (h : DeadlineHeap) : Type 0 where
  pub sorted : Sorted h.heap
  pub distinct : Distinct h.heap
  pub dated : All (Dated h.cells) h.heap
  pub vacant : All (Vacant h.cells) h.free
  pub unrepeated : Unrepeated h.free

-- Each cell can be vacated `k` times before its counter wraps.
abbrev pub Young : ℕ → DeadlineHeap → Type 0
Young k h = All (λ c. c.generation + k < 2 ^ 64) h.cells

pub All-map {ℓ} :
    {A : Type ℓ} {P Q : A → Type 0} → ((x : A) → P x → Q x) → (xs : List A) → All P xs → All Q xs
All-map f [] p = tt
All-map f (x ∷ xs) (p, ps) = (f x p, All-map f xs ps)

pub All-both {ℓ} :
    {A : Type ℓ} (P Q : A → Type 0) (xs : List A) → All P xs → All Q xs → All (λ x. P x × Q x) xs
All-both P Q [] p q = tt
All-both P Q (x ∷ xs) (p, ps) (q, qs) = ((p, q), All-both P Q xs ps qs)

pub All-insert :
    (P : Entry → Type 0) (e : Entry) (xs : List Entry) → P e → All P xs → All P (insert e xs)
All-insert P e [] p ps = (p, tt)
All-insert P e (x ∷ xs) p (q, qs) = elim (Bool-cases (before x e)) [
  | inl h ↦ rw h (q, All-insert P e xs p qs)
  | inr h ↦ rw h (p, (q, qs))
]

before_asym : (a b : Entry) → before a b ≡ true → before b a ≡ false
before_asym a b h = ground (arith, h)

pub before_trans : (a b c : Entry) → before a b ≡ false → before b c ≡ false → before a c ≡ false
before_trans a b c h k = ground (arith, h, k)

pub insert-Sorted : (e : Entry) (xs : List Entry) → Sorted xs → Sorted (insert e xs)
insert-Sorted e [] s = (tt, tt)
insert-Sorted e (x ∷ xs) (first, s) = elim (Bool-cases (before x e)) [
  | inl h ↦
      rw h
        (All-insert (λ y. before y x ≡ false) e xs (before_asym x e h) first, insert-Sorted e xs s)
  | inr h ↦ rw h ((h, All-map (λ y k. before_trans y x e k h) xs first), (first, s))
]

pub same_timer_sym : (a b : Entry) → same_timer a b ≡ false → same_timer b a ≡ false
same_timer_sym a b h = ground (arith, h)

pub insert-Distinct :
    (e : Entry) (xs : List Entry)
    → All (λ y. same_timer e y ≡ false) xs
    → Distinct xs
    → Distinct (insert e xs)
insert-Distinct e [] a d = (tt, tt)
insert-Distinct e (x ∷ xs) (a, as') (first, d) = elim (Bool-cases (before x e)) [
  | inl h ↦ rw h (
    All-insert (λ y. same_timer x y ≡ false) e xs (same_timer_sym e x a) first,
    insert-Distinct e xs as' d,
  )
  | inr h ↦ rw h ((a, as'), (first, d))
]

pub get_elem?-lt {ℓ} :
    {A : Type ℓ} (xs : List A) (i : ℕ) (a : A) → get_elem? xs i ≡ some a → i < length xs
get_elem?-lt [] i a e = ground arith
get_elem?-lt (x ∷ xs) zero a e = omega arith
get_elem?-lt (x ∷ xs) (suc i) a e = omega (arith, get_elem?-lt xs i a e)

pub get_elem?-append_left {ℓ} :
    {A : Type ℓ} (xs ys : List A) (i : ℕ) → i < length xs → get_elem? (xs ++ ys) i ≡ get_elem? xs i
get_elem?-append_left [] ys i h = elim h [ ]
get_elem?-append_left (x ∷ xs) ys zero h = refl
get_elem?-append_left (x ∷ xs) ys (suc i) h = get_elem?-append_left xs ys i (omega arith)

pub get_elem?-append_length {ℓ} :
    {A : Type ℓ} (xs : List A) (y : A) → get_elem? (xs ++ y ∷ []) (length xs) ≡ some y
get_elem?-append_length [] y = refl
get_elem?-append_length (x ∷ xs) y = get_elem?-append_length xs y
