-- ===== src/Edge/Policy/Follow.antt =====
-- What a `FollowData` lets through.
use areamy.Common.{
  ℕ, zero, suc, ◌≡◌, refl, ◌||◌, Bool, true, false, List, [], ◌∷◌, is_some, inl, inr, ◌⊎◌,
}
use areamy.Error.{Result, ok, err, fatal, and_then}
use areamy.Message.{Message, data', flush, marker, as_data}
use areamy.Graph.{TryPush, pushed, full, stuck, Pushable, TryPushable}
use areamy.Edge.Policy.{FollowData, with_inner, after_try, push, try_push}

module _ {κ κ'} {D : Type κ} {S : Type κ'} where
  abbrev pub is_data : Message D S → Bool
  is_data m = is_some (as_data m)

  -- The rule, on a whole stream: data passes; a signal passes if data stands right before it. The
  -- flag says whether data came last.
  unfoldable pub follow : Bool → List (Message D S) → List (Message D S)
  follow last [] = []
  follow last (data' d ∷ ms) = data' d ∷ follow true ms
  follow true (flush s ∷ ms) = flush s ∷ follow false ms
  follow true (marker s ∷ ms) = marker s ∷ follow false ms
  follow false (flush s ∷ ms) = follow false ms
  follow false (marker s ∷ ms) = follow false ms

  -- No two signals in a row, and none at the start unless data came before.
  abbrev pub Follows : Bool → List (Message D S) → Type 0
  Follows last [] = Unit
  Follows last (m ∷ ms) = ((is_data m ≡ true) ⊎ (last ≡ true)) × Follows (is_data m) ms

  -- What the rule lets through has no signal that does not stand right behind data; so a signal that
  -- comes round a loop with nothing before it is gone.
  pub follow-Follows : (last : Bool) (ms : List (Message D S)) → Follows last (follow last ms)
  unfolding follow
  follow-Follows last [] = tt
  follow-Follows last (data' d ∷ ms) = (inl refl, follow-Follows true ms)
  follow-Follows true (flush s ∷ ms) = (inr refl, follow-Follows false ms)
  follow-Follows true (marker s ∷ ms) = (inr refl, follow-Follows false ms)
  follow-Follows false (flush s ∷ ms) = follow-Follows false ms
  follow-Follows false (marker s ∷ ms) = follow-Follows false ms

-- A push of one message into a sink.
abbrev pub Push {ℓ κ} : Type ℓ → Type κ → Type (ℓ ⊔ κ)
Push F M = F → M → Result (Unit {0}) × F

abbrev pub Returned {κ} : {M : Type κ} → M → Result (TryPush M) → Type κ
Returned m (ok pushed) = Unit
Returned m (ok (full r)) = r ≡ m
Returned m (ok (stuck r)) = r ≡ m
Returned m (err e) = Unit

module _ {ℓ κ} {F : Type ℓ} {M : Type κ} where
  -- Pushing a stream, up to the first error.
  unfoldable pub push_all : Push F M → F → List M → Result (Unit {0}) × F
  push_all p f [] = (ok tt, f)
  push_all p f (m ∷ ms) = and_then (p f m) (λ _ f'. push_all p f' ms)

  -- What a producer does with an answer: a message handed back is tried again.
  answered : Push F M → Result (TryPush M) × F → Result (Unit {0}) × F
  answered again (ok pushed, f) = (ok tt, f)
  answered again (ok (full r), f) = again f r
  answered again (ok (stuck r), f) = again f r
  answered again (err e, f) = (err e, f)

  -- At most `n` tries for one message.
  unfoldable pub try_until : ℕ → (F → M → Result (TryPush M) × F) → Push F M
  unfolding answered
  try_until zero t f m = (err (fatal "gave up"), f)
  try_until (suc n) t f m = answered (try_until n t) (t f m)

  -- The documented contract of a refusal: it hands back the message that was tried.
  abbrev pub HandsBack : TryPushable F M → Type (ℓ ⊔ κ)
  HandsBack t = (f : F) (m : M) → Returned m (t.try_push f m).0

-- The wrapped sink's part of an outcome.
abbrev pub bare {ℓ} : {E : Type ℓ} → Result (Unit {0}) × FollowData E → Result (Unit {0}) × E
bare (r, f) = (r, f.inner)

module _ {ℓ} {E : Type ℓ} where
  -- A push that passed did to the wrapped sink what a bare push does, and data came last if `d`.
  abbrev Tracks : Bool → Result (Unit {0}) × FollowData E → Result (Unit {0}) × E → Type ℓ
  Tracks d (ok u, f) y = (y ≡ (ok u, f.inner)) × (f.last_was_data ≡ d)
  Tracks d (err e, f) y = (y ≡ (err e, f.inner)) × Unit {0}

  push-Tracks :
      (f : FollowData E) (d : Bool) (x : Result (Unit {0}) × E)
      → Tracks d (with_inner (record f { last_was_data = d }) x) x
  push-Tracks f d (ok u, e) = (refl, refl)
  push-Tracks f d (err x, e) = (refl, tt)

  bare-and_then :
      (d : Bool) (x : Result (Unit {0}) × FollowData E) (y : Result (Unit {0}) × E)
      (k : FollowData E → Result (Unit {0}) × FollowData E) (k' : E → Result (Unit {0}) × E)
      → Tracks d x y
      → ((f : FollowData E) → f.last_was_data ≡ d → bare (k f) ≡ k' f.inner)
      → bare (and_then x (λ _. k)) ≡ and_then y (λ _. k')
  bare-and_then d (ok u, f) y k k' (same, last) next = rw same (next f last)
  bare-and_then d (err e, f) y k k' (same, _) next = rw same

module _ {ℓ κ κ'} {E : Type ℓ} {D : Type κ} {S : Type κ'} where
  -- A way to push into a `FollowData` and one to push into its sink do the same, one message each.
  record Agrees (outer : Push (FollowData E) (Message D S)) (inner : Push E (Message D S))
      : Type (ℓ ⊔ κ ⊔ κ') where
    passing :
        (f : FollowData E) (m : Message D S)
        → (is_data m || f.last_was_data) ≡ true
        → Tracks (is_data m) (outer f m) (inner f.inner m)
    dropping :
        (f : FollowData E) (m : Message D S)
        → (is_data m || f.last_was_data) ≡ false
        → outer f m ≡ (ok tt, record f { last_was_data = is_data m })

  push-Agrees : (p : Pushable E (Message D S)) → Agrees (push p) p.push
  unfolding push
  push-Agrees p = record {
    passing = λ f m h. rw (h, push) (push-Tracks f (is_data m) (p.push f.inner m));
    dropping = λ f m h. rw (h, push);
  }

  push_all-Agrees :
      {outer : Push (FollowData E) (Message D S)} {inner : Push E (Message D S)}
      → Agrees outer inner
      → (f : FollowData E) (last : Bool) → f.last_was_data ≡ last
      → (ms : List (Message D S))
      → bare (push_all outer f ms) ≡ push_all inner f.inner (follow last ms)
  unfolding push_all follow
  push_all-Agrees a f last e [] = refl
  push_all-Agrees a f last e (data' d ∷ ms) =
      bare-and_then true _ _ _ _ (a.passing f (data' d) refl)
        (λ f' e'. push_all-Agrees a f' true e' ms)
  push_all-Agrees a f true e (flush s ∷ ms) =
      bare-and_then false _ _ _ _ (a.passing f (flush s) e)
        (λ f' e'. push_all-Agrees a f' false e' ms)
  push_all-Agrees a f true e (marker s ∷ ms) =
      bare-and_then false _ _ _ _ (a.passing f (marker s) e)
        (λ f' e'. push_all-Agrees a f' false e' ms)
  push_all-Agrees a f false e (flush s ∷ ms) =
      rw (a.dropping f (flush s) e)
        (push_all-Agrees a (record f { last_was_data = false }) false refl ms)
  push_all-Agrees a f false e (marker s ∷ ms) =
      rw (a.dropping f (marker s) e)
        (push_all-Agrees a (record f { last_was_data = false }) false refl ms)

  -- Pushing any stream through the policy does to the sink what pushing the stream that the rule
  -- lets through does, errors included: the first one ends both.
  pub push_all-push :
      (p : Pushable E (Message D S)) (f : FollowData E) (ms : List (Message D S))
      → bare (push_all (push p) f ms) ≡ push_all p.push f.inner (follow f.last_was_data ms)
  push_all-push p f ms = push_all-Agrees (push-Agrees p) f f.last_was_data refl ms

  answered-Tracks :
      (t : TryPushable E (Message D S)) (n : ℕ) (f : FollowData E) (m : Message D S)
      (x : Result (TryPush (Message D S)) × E)
      → Returned m x.0
      → ((e : E)
          → Tracks
              (is_data m)
              (try_until n (try_push t) (record f { inner = e }) m)
              (try_until n t.try_push e m))
      → Tracks
          (is_data m)
          (answered
            (try_until n (try_push t))
            (after_try f.last_was_data (record f { last_was_data = is_data m }) x))
          (answered (try_until n t.try_push) x)
  unfolding answered after_try
  answered-Tracks t n f m (ok pushed, e) r again = (refl, refl)
  answered-Tracks t n f m (ok (full m'), e) r again = rw r (again e)
  answered-Tracks t n f m (ok (stuck m'), e) r again = rw r (again e)
  answered-Tracks t n f m (err x, e) r again = (refl, tt)

  try_until-passing :
      (t : TryPushable E (Message D S))
      → HandsBack t
      → (n : ℕ) (f : FollowData E) (m : Message D S) → (is_data m || f.last_was_data) ≡ true
      → Tracks (is_data m) (try_until n (try_push t) f m) (try_until n t.try_push f.inner m)
  unfolding try_until try_push
  try_until-passing t back zero f m h = (refl, tt)
  try_until-passing t back (suc n) f m h =
      rw (h, try_push)
        (answered-Tracks t n f m (t.try_push f.inner m) (back f.inner m)
          (λ e. try_until-passing t back n (record f { inner = e }) m h))

  try_until-Agrees :
      (t : TryPushable E (Message D S))
      → HandsBack t
      → (n : ℕ) → Agrees (try_until (suc n) (try_push t)) (try_until (suc n) t.try_push)
  unfolding try_until try_push
  try_until-Agrees t back n = record {
    passing = try_until-passing t back (suc n);
    dropping = λ f m h. rw (h, try_push);
  }

  -- So does a producer that tries each message again whenever the sink hands it back, however often
  -- that happens: a refusal never makes the policy drop a message or let an echo pass.
  pub push_all-try_push :
      (t : TryPushable E (Message D S)) (n : ℕ) (f : FollowData E) (ms : List (Message D S))
      → HandsBack t
      → bare (push_all (try_until (suc n) (try_push t)) f ms)
        ≡ push_all (try_until (suc n) t.try_push) f.inner (follow f.last_was_data ms)
  push_all-try_push t n f ms back =
      push_all-Agrees (try_until-Agrees t back n) f f.last_was_data refl ms
