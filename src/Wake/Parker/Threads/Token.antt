-- ===== src/Wake/Parker/Threads/Token.antt =====
-- What each action does to the token and to the parking thread.
use areamy.Common.{◌≡◌, refl, ◌⊎◌, true, false, arith}
use areamy.Wake.Parker.{turn, sleep, wake}
use areamy.Wake.Parker.Threads.{
  World, parks, turns, wakes_once, notified, spurious, running, act, after,
}

-- A park without a deadline returns, or leaves the token as it is.
pub parks-woken :
    (w : World) → ((act w (parks false)).thread ≡ running) ⊎ ((act w (parks false)).woken ≡ w.woken)
unfolding act after turn sleep
parks-woken w = ground arith

pub turns-woken :
    (w : World) → ((act w (turns false)).thread ≡ running) ⊎ ((act w (turns false)).woken ≡ w.woken)
unfolding act after turn sleep
turns-woken w = ground arith

pub wakes_once-woken : (w : World) → (act w wakes_once).woken ≡ true
unfolding act wake
wakes_once-woken w = refl

pub wakes_once-thread : (w : World) → (act w wakes_once).thread ≡ w.thread
unfolding act
wakes_once-thread w = refl

pub notified-woken : (w : World) → (act w notified).woken ≡ w.woken
unfolding act
notified-woken w = ground arith

pub notified-running : (w : World) → w.thread ≡ running → (act w notified).thread ≡ running
unfolding act
notified-running w e = ground (arith, e)

pub spurious-running : (w : World) → w.thread ≡ running → (act w spurious).thread ≡ running
unfolding act
spurious-running w e = ground (arith, e)

pub spurious-woken : (w : World) → (act w spurious).woken ≡ w.woken
unfolding act
spurious-woken w = refl
