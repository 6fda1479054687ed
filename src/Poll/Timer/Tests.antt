-- ===== src/Poll/Timer/Tests.antt =====
-- Three timers, one of them cancelled, and the theorems there.
use areamy.Common.{suc, some, [], ◌∷◌, ◌≡◌, refl, get_elem?, length, arith}
use areamy.Poll.Timer.{DeadlineHeap, insert, occupant, new, register, cancel, pop, expire}
use areamy.Poll.Timer.Valid.{Valid, Young}
use areamy.Poll.Timer.Keeps.{entry_of, new-Valid}
use areamy.Poll.Timer.Live.{live, without, register-live}
use areamy.Poll.Timer.Fires.{fired, cancel-live, pop-live}
use areamy.Poll.Timer.Expire.{Drains, expire-Drains}

abbrev one : DeadlineHeap
one = (register new 5 30).1

abbrev two : DeadlineHeap
two = (register one 6 20).1

one-Valid : Valid one
one-Valid = (register-live new 5 30 new-Valid).2

two-Valid : Valid two
two-Valid = (register-live one 6 20 one-Valid).2

two-Young : Young 1 two
unfolding register new
two-Young = (omega arith, (omega arith, tt))

two-Young_enough : Young (suc (length two.heap)) two
unfolding register new
two-Young_enough = (omega arith, (omega arith, tt))

two_expired : (expire two 25).0 ≡ 6 ∷ []
unfolding expire register new
two_expired = refl

cancelled_expired : (expire (cancel two (record { cell = 1; generation = 0 })) 40).0 ≡ 5 ∷ []
unfolding expire cancel register new
cancelled_expired = refl

register-live_example :
    let (key, h') = register two 7 25 in
    (live h' ≡ insert (entry_of 25 key) (live two))
    × (occupant (get_elem? h'.cells key.cell) ≡ some 7)
    × Valid h'
register-live_example = register-live two 7 25 two-Valid

cancel-live_example :
    (live (cancel two (record { cell = 1; generation = 0 }))
      ≡ without (record { cell = 1; generation = 0 }) (live two))
    × Valid (cancel two (record { cell = 1; generation = 0 }))
cancel-live_example = cancel-live two (record { cell = 1; generation = 0 }) two-Valid two-Young

pop-live_example :
    ((pop two 25).0 ≡ (fired two.cells 25 (live two)).0)
    × (live (pop two 25).1 ≡ (fired two.cells 25 (live two)).1)
    × Valid (pop two 25).1
    × Young 0 (pop two 25).1
pop-live_example = pop-live two 0 25 two-Valid two-Young

expire-Drains_example : Drains 25 two.cells (live two) (expire two 25)
expire-Drains_example = expire-Drains two 25 two-Valid two-Young_enough
