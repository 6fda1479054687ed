-- ===== src/Poll/Future.antt =====
-- poll/future/waiters.rs: the futures that are parked on a queue, which are woken all at once.
pub mod Input
pub mod Output
mod Tests
use areamy.Common.{
  Bool, true, false, ◌||◌, List, [], ◌∷◌, ◌++◌, map, ◌==◌, if◌then◌else◌, ◌≡◌, refl, arith,
}
use areamy.Wake.{Waker}

pub record Waiters : Type 0 where
  pub home : Bool
  pub others : List Waker

-- Whom a queue wakes: a phase of the node (Input, or Output), the node for its home future, or a
-- combinator's branch.
pub data Woken : Type 0 where
  phase home_future : Woken
  branch : Waker → Woken

abbrev pub nobody : Waiters
nobody = record { home = false; others = [] }

abbrev pub contains : Waker → List Waker → Bool
contains w [] = false
contains w (v ∷ vs) = let rest = contains w vs in if v == w then true else rest

-- `Waiters::park`; `home` is the node's waker.
abbrev pub park : Waiters → Waker → Waker → Waiters
park ws waker home =
    if waker == home
    then record ws { home = true }
    else if contains waker ws.others
    then ws
    else record ws { others = ws.others ++ waker ∷ [] }

-- `Waiters::take` and `Awaking::wake`.
abbrev pub awake : Waiters → List Woken
awake ws = (if ws.home then home_future ∷ [] else []) ++ map branch ws.others

-- Whether the future of a waker is parked, and whether a list of wakes has its.
abbrev pub parks : Waker → Waiters → Waker → Bool
parks home ws waker = if waker == home then ws.home else contains waker ws.others

abbrev pub woken_in : Waker → Waker → List Woken → Bool
woken_in home waker [] = false
woken_in home waker (phase ∷ ws) = woken_in home waker ws
woken_in home waker (home_future ∷ ws) =
    let rest = woken_in home waker ws in if waker == home then true else rest
woken_in home waker (branch v ∷ ws) =
    let rest = woken_in home waker ws in
    if waker == home then rest else if v == waker then true else rest

abbrev pub phase_in : List Woken → Bool
phase_in [] = false
phase_in (phase ∷ ws) = true
phase_in (home_future ∷ ws) = phase_in ws
phase_in (branch v ∷ ws) = phase_in ws

branches-woken :
    (home waker : Waker) (vs : List Waker)
    → (waker == home) ≡ false
    → contains waker vs ≡ true
    → woken_in home waker (map branch vs) ≡ true
branches-woken home waker [] n c = ground (arith, c)
branches-woken home waker (v ∷ vs) n c = ground (arith, n, c, branches-woken home waker vs n)

-- Waking the waiters wakes whoever is parked.
pub awake-woken :
    (home : Waker) (ws : Waiters) (waker : Waker)
    → parks home ws waker ≡ true
    → woken_in home waker (awake ws) ≡ true
awake-woken home ws waker p = ground (arith, p, branches-woken home waker ws.others)

pub woken_in-append :
    (home waker : Waker) (us vs : List Woken)
    → woken_in home waker (us ++ vs)
      ≡ (if woken_in home waker us then true else woken_in home waker vs)
woken_in-append home waker [] vs = refl
woken_in-append home waker (phase ∷ us) vs = woken_in-append home waker us vs
woken_in-append home waker (home_future ∷ us) vs = ground (arith, woken_in-append home waker us vs)
woken_in-append home waker (branch v ∷ us) vs = ground (arith, woken_in-append home waker us vs)

pub phase_in-append :
    (us vs : List Woken) → phase_in (us ++ vs) ≡ (if phase_in us then true else phase_in vs)
phase_in-append [] vs = refl
phase_in-append (phase ∷ us) vs = refl
phase_in-append (home_future ∷ us) vs = phase_in-append us vs
phase_in-append (branch v ∷ us) vs = phase_in-append us vs

contains-append :
    (w : Waker) (us vs : List Waker) → contains w us ≡ true → contains w (us ++ vs) ≡ true
contains-append w [] vs c = ground (arith, c)
contains-append w (u ∷ us) vs c = ground (arith, c, contains-append w us vs)

-- A future that parks is parked, and so is whoever was before.
pub parks-park :
    (home : Waker) (ws : Waiters) (waker other : Waker)
    → parks home ws other ≡ true
    → parks home (park ws waker home) other ≡ true
parks-park home ws waker other p = ground (arith, p, contains-append other ws.others (waker ∷ []))
