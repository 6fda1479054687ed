-- ===== src/Poll/Graph/Tests.antt =====
-- One reserved node and one slot made by a builder, both added.
use areamy.Common.{ℕ, some, List, [], ◌∷◌, ◌≡◌, refl}
use areamy.Error.{ok}
use areamy.Poll.Graph.{reserve, local, empty_slots, slot, add, position, finish}
use areamy.Poll.Graph.Trace.{Call, makes, adds, taken_out, consed, call, build, begun}
use areamy.Poll.Graph.Trace.Built.{Built, build-Built}

abbrev calls : List (Call ℕ)
calls = makes ∷ adds 1 8 ∷ adds 0 7 ∷ []

complete : finish (build (begun 1) calls).graph ≡ ok (some 7 ∷ some 8 ∷ [])
unfolding finish build call begun reserve local empty_slots slot add position taken_out consed
complete = refl

build-Built_example : Built (build (begun 1) calls) (finish (build (begun 1) calls).graph)
build-Built_example = build-Built 1 calls
