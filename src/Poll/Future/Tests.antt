-- ===== src/Poll/Future/Tests.antt =====
-- Queues of one item, and the theorems there. The node's own waker is 0.
use areamy.Common.{ℕ, false, true, some, List, [], ◌∷◌, ◌≡◌, refl, ◌⊎◌, is_empty}
use areamy.Error.{ok}
use areamy.Poll.Future.{parks, woken_in}
use areamy.Poll.Future.Output
use areamy.Poll.Future.Input
use areamy.Poll.Future.Output.Trace as OutputTrace
use areamy.Poll.Future.Input.Trace as InputTrace

abbrev sending : List (OutputTrace.Call ℕ)
sending =
    OutputTrace.sends 1
    ∷ OutputTrace.polls 4 (some 2)
    ∷ OutputTrace.pops
    ∷ OutputTrace.polls 4 (some 2)
    ∷ []

abbrev out : Output.Queue ℕ
out = record {
  buffer = [];
  bound = some 1;
  armed = true;
  waiters = record { home = false; others = 4 ∷ [] };
}

output-parks_example :
    ((parks 0 (OutputTrace.run 0 out sending).queue.waiters 4 ≡ true)
      × (is_empty (OutputTrace.run 0 out sending).taken ≡ true))
    ⊎ (woken_in 0 4 (OutputTrace.run 0 out sending).woken ≡ true)
output-parks_example = OutputTrace.output-parks 0 out sending 4 refl

abbrev segment : List (InputTrace.Call ℕ)
segment =
    InputTrace.sends 1
    ∷ InputTrace.sends 2
    ∷ InputTrace.takes 0
    ∷ InputTrace.flushes
    ∷ InputTrace.takes 0
    ∷ []

segment_renewed :
    Input.renew (InputTrace.run 0 (Input.new_input (some 1)) segment).queue
    ≡ ok (Input.new_input (some 1))
unfolding Input.renew InputTrace.run Input.new_input
segment_renewed = refl

input-renew_example :
    ((InputTrace.run 0 (Input.new_input (some 1)) segment).queued
      ≡ (InputTrace.run 0 (Input.new_input (some 1)) segment).taken)
    × (Input.new_input (some 1) ≡ Input.new_input {T = ℕ} (some 1))
input-renew_example =
    InputTrace.input-renew 0 (some 1) segment (Input.new_input (some 1)) segment_renewed
