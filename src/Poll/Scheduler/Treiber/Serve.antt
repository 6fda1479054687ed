-- ===== src/Poll/Scheduler/Treiber/Serve.antt =====
-- What the consumer hands out, whatever steps came before.
use areamy.Common.{ℕ, ◌+◌, ◌≡◌, refl, ◌∙◌, ap, List, [], ◌∷◌, ◌++◌, arith, if◌then◌else◌}
use areamy.Poll.Scheduler.Treiber.{published, Step, perform, start, serve}
use areamy.Poll.Scheduler.Treiber.Sound.{count}
use areamy.Poll.Scheduler.Treiber.Interleaved.{perform-Reached, start-Reached}
use areamy.Poll.Scheduler.Treiber.Serves.{all-Serves, serve-Drained}

count-append : (i : ℕ) (xs ys : List ℕ) → count i (xs ++ ys) ≡ count i xs + count i ys
count-append i [] ys = omega arith
count-append i (x ∷ xs) ys = omega (arith, count-append i xs ys)

-- After any steps of any pushes and of the consumer, which may be between any two accesses: left
-- alone, the consumer has after some number of steps, and after any more, handed out every id that
-- was woken since it was last handed out, once, and no other id, leaving aside the ids whose push
-- has claimed them and not published them yet.
pub serve-owed :
    (n : ℕ) (ts : List Step)
    → (k : ℕ) × ((m i : ℕ)
        → (perform (start n) ts).stage i ≡ published
        → count i (serve (k + m) (perform (start n) ts).stack)
          ≡ (if (perform (start n) ts).owed i then 1 else 0))
serve-owed n ts =
    let (xs, ys, s) = perform-Reached (start n) ts (start-Reached n) in
    let (s', f, d) = all-Serves xs ys _ _ refl s.walks s.on_stack s.in_batch in
    (
      f.steps,
      λ m i e.
          ap (count i) (f.hands m ∙ ap (λ l. (ys ++ xs) ++ l) (serve-Drained m s' d))
          ∙ count-append i (ys ++ xs) []
          ∙ ground (arith, count-append i ys xs, s.once i, s.owing i),
    )
