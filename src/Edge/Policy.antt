-- ===== src/Edge/Policy.antt =====
-- edge/policy.rs: a sink wrapped so that a signal passes only right behind data.
pub mod Follow
mod Tests
use areamy.Common.{Bool, true, false, ◌||◌, is_some, if◌then◌else◌}
use areamy.Error.{Result, ok, err, and_then}
use areamy.Message.{Message, as_data}
use areamy.Wake.{Waker}
use areamy.Graph.{TryPush, pushed, full, stuck, TryPushable, Pushable, Closeable, Schedulable}

pub record FollowData {ℓ} (E : Type ℓ) : Type ℓ where
  pub inner : E
  pub last_was_data : Bool

module _ {ℓ} {E : Type ℓ} where
  pub new : E → FollowData E
  new e = record { inner = e; last_was_data = false }

  abbrev with_inner {κ} : {A : Type κ} → FollowData E → A × E → A × FollowData E
  with_inner f (r, e) = (r, record f { inner = e })

  pub close : Closeable E → FollowData E → Result (Unit {0}) × FollowData E
  close c f = with_inner f (c.close f.inner)

  pub schedule : Schedulable E → FollowData E → Waker → FollowData E
  schedule s f w = record f { inner = s.schedule f.inner w }

module _ {ℓ κ κ'} {E : Type ℓ} {D : Type κ} {S : Type κ'} where
  -- Whether a message passes, and the state that follows it.
  passes : FollowData E → Message D S → Bool × FollowData E
  passes f m =
      let is_data = is_some (as_data m) in
      (is_data || f.last_was_data, record f { last_was_data = is_data })

  pub push :
      Pushable E (Message D S) → FollowData E → Message D S → Result (Unit {0}) × FollowData E
  unfolding passes
  push p f m =
      let (passing, f') = passes f m in
      if passing then with_inner f' (p.push f'.inner m) else (ok tt, f')

  -- The state after the inner sink's answer: a refusal restores the old one.
  after_try :
      Bool
      → FollowData E
      → Result (TryPush (Message D S)) × E
      → Result (TryPush (Message D S)) × FollowData E
  after_try last f (ok pushed, e) = (ok pushed, record f { inner = e })
  after_try last f (ok r, e) = (ok r, record { inner = e; last_was_data = last })
  after_try last f (err x, e) = (err x, record f { inner = e })

  pub try_push :
      TryPushable E (Message D S)
      → FollowData E
      → Message D S
      → Result (TryPush (Message D S)) × FollowData E
  unfolding passes after_try
  try_push t f m =
      let (passing, f') = passes f m in
      if passing then after_try f.last_was_data f' (t.try_push f'.inner m) else (ok pushed, f')
