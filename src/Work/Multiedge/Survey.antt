-- ===== src/Work/Multiedge/Survey.antt =====
-- What a scan of several edges at once would find.
use areamy.Common.{
  ℕ, zero, suc, arith, ◌≡◌, ◌≢◌, refl, ap, Bool, true, false, Option, none, some, List, [], ◌∷◌,
  map, get_elem?, set,
}
use areamy.Edge.Sync.{Shared, state, State, ready, idle, exhausted}
use areamy.Work.Multiedge.{looked}

module _ {ℓ} {A : Type ℓ} where
  abbrev pub rest_from : ℕ → List A → List A
  rest_from zero l = l
  rest_from (suc k) [] = []
  rest_from (suc k) (x ∷ l) = rest_from k l

module _ {ℓ κ} {A : Type ℓ} {B : Type κ} (f : A → B) where
  pub rest_from-some :
      (l : List A) (k : ℕ) (x : A)
      → get_elem? l k ≡ some x
      → rest_from k (map f l) ≡ f x ∷ rest_from (suc k) (map f l)
  rest_from-some [] k x e = cc
  rest_from-some (y ∷ l) zero x e = let same : y ≡ x = ground (arith, e) in rw same refl
  rest_from-some (y ∷ l) (suc k) x e = rest_from-some l k x e

  pub rest_from-none : (l : List A) (k : ℕ) → get_elem? l k ≡ none → rest_from k (map f l) ≡ []
  rest_from-none [] zero e = refl
  rest_from-none [] (suc k) e = refl
  rest_from-none (y ∷ l) zero e = cc
  rest_from-none (y ∷ l) (suc k) e = rest_from-none l k e

  -- Changing an element and not its image.
  pub map-set :
      (l : List A) (k : ℕ) (x y : A)
      → get_elem? l k ≡ some x
      → f y ≡ f x
      → map f (set l k y) ≡ map f l
  map-set [] k x y e s = refl
  map-set (z ∷ l) zero x y e s = let same : z ≡ x = ground (arith, e) in rw (same, s) refl
  map-set (z ∷ l) (suc k) x y e s = ap (λ r. f z ∷ r) (map-set l k x y e s)

-- What a scan of all these states at once comes to.
abbrev pub survey : List State → Bool → Option Bool
survey [] idle_seen = some idle_seen
survey (ready ∷ l) idle_seen = none
survey (idle ∷ l) idle_seen = survey l true
survey (exhausted ∷ l) idle_seen = survey l idle_seen

pub survey-looked :
    (s : State) (l : List State) (b c : Bool) → looked b s ≡ some c → survey (s ∷ l) b ≡ survey l c
unfolding looked
survey-looked ready l b c e = cc
survey-looked idle l b c e = let same : true ≡ c = ground (arith, e) in rw (← same) refl
survey-looked exhausted l b c e = let same : b ≡ c = ground (arith, e) in rw (← same) refl

pub survey-ne-ready :
    (l : List State) (b c : Bool) (k : ℕ) → survey l b ≡ some c → get_elem? l k ≢ some ready
survey-ne-ready [] b c k e = λ h. cc
survey-ne-ready (ready ∷ l) b c k e = cc
survey-ne-ready (idle ∷ l) b c zero e = λ h. cc
survey-ne-ready (exhausted ∷ l) b c zero e = λ h. cc
survey-ne-ready (idle ∷ l) b c (suc k) e = survey-ne-ready l true c k e
survey-ne-ready (exhausted ∷ l) b c (suc k) e = survey-ne-ready l b c k e

pub survey-idle :
    (l : List State) → survey l false ≡ some true → (k : ℕ) × (get_elem? l k ≡ some idle)
survey-idle [] e = cc
survey-idle (ready ∷ l) e = cc
survey-idle (idle ∷ l) e = (0, refl)
survey-idle (exhausted ∷ l) e = let (k, h) = survey-idle l e in (suc k, h)

-- No edge is ready, and one is idle: there is nothing to do and something to wait for.
abbrev pub Waits {ℓ} : {M : Type ℓ} → List (Shared M) → Type 0
Waits edges =
    ((k : ℕ) → get_elem? (map state edges) k ≢ some ready)
    × ((k : ℕ) × (get_elem? (map state edges) k ≡ some idle))
