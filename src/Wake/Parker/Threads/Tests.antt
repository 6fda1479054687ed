-- ===== src/Wake/Parker/Threads/Tests.antt =====
-- A park that is woken spuriously and then in earnest, and the theorems there.
use areamy.Common.{false, true, List, [], ◌∷◌, ◌≡◌, refl}
use areamy.Wake.Parker.{wake}
use areamy.Wake.Parker.Threads.{
  Action, parks, turns, wakes_once, spurious, perform, new, asleep, asleep-unwoken,
}

abbrev naps : List Action
naps = wakes_once ∷ parks false ∷ parks false ∷ spurious ∷ turns false ∷ []

naps_asleep : (perform new naps).thread ≡ asleep
unfolding perform new
naps_asleep = refl

naps_quiet : (perform new naps).under_way ≡ 0
unfolding perform new
naps_quiet = refl

asleep-unwoken_example :
    ((perform new naps).woken ≡ false) × (((wake (perform new naps).state).0) ≡ true)
asleep-unwoken_example = asleep-unwoken naps naps_asleep naps_quiet
