-- ===== src/Error.antt =====
-- error/core.rs: the kinds of error, and the result of a fallible operation. An error's location
-- and backtrace serve its printed form only, so an error is its kind here.
use Prim.Native.String.{String}
use areamy.Common.{Bool, true, false, ℕ}

-- `Any` holds a client's boxed error, which the library only passes on; a number stands for it.
pub data Error : Type 0 where
  fatal : String → Error
  any : ℕ → Error
  closed : Error

abbrev pub is_closed : Error → Bool
is_closed closed = true
is_closed (fatal m) = false
is_closed (any e) = false

pub data Result {ℓ} (A : Type ℓ) : Type ℓ where
  ok : A → Result A
  err : Error → Result A

-- `?` on a result whose operation leaves a state behind: an error ends the function, and the
-- state reached so far stays.
abbrev pub and_then {ℓ κ ℓ'} :
    {A : Type ℓ} {B : Type κ} {S : Type ℓ'} → Result A × S → (A → S → Result B × S) → Result B × S
and_then (ok a, s) k = k a s
and_then (err e, s) k = (err e, s)

-- A function of a mutable state that may fail, and `?` after it.
abbrev pub Op {ℓ κ} : Type ℓ → Type κ → Type (ℓ ⊔ κ)
Op S A = S → Result A × S

infixl 5 ◌>>=◌ ◌>>◌
abbrev pub ◌>>=◌ {ℓ κ ℓ'} : {A : Type ℓ} {B : Type κ} {S : Type ℓ'} → Op S A → (A → Op S B) → Op S B
m >>= k = λ s. and_then (m s) k

abbrev pub ◌>>◌ {κ ℓ'} : {B : Type κ} {S : Type ℓ'} → Op S (Unit {0}) → Op S B → Op S B
m >> k = m >>= λ _. k

abbrev pub pure {ℓ κ} : {A : Type ℓ} {S : Type κ} → A → Op S A
pure a s = (ok a, s)

abbrev pub fail {ℓ κ} : {A : Type ℓ} {S : Type κ} → Error → Op S A
fail e s = (err e, s)

-- What an operation leaves when what follows it is known to keep it, or to lead on from it.
pub out-and_then {ℓ κ ℓ' ℓp ℓq} :
    {A : Type ℓ} {B : Type κ} {S : Type ℓ'} (P : S → Type ℓp) (Q : S → Type ℓq) (x : Result A × S)
    (k : A → S → Result B × S)
    → P x.1
    → ((s : S) → P s → Q s)
    → ((a : A) (s : S) → P s → Q (k a s).1)
    → Q (and_then x k).1
out-and_then P Q (ok a, s) k h off on = on a s h
out-and_then P Q (err e, s) k h off on = off s h
