-- ===== src/Poll/Scheduler/Treiber/Tests.antt =====
-- Two producers that race with the consumer, and the theorem there.
use areamy.Common.{ℕ, false, ◌+◌, List, [], ◌∷◌, ◌++◌, ◌≡◌, refl, if◌then◌else◌}
use areamy.Poll.Scheduler.Treiber.{
  published, Step, wakes, looks, links, exchanges, advances, perform, start, serve,
}
use areamy.Poll.Scheduler.Treiber.Sound.{count}
use areamy.Poll.Scheduler.Treiber.Serve.{serve-owed}

-- 1 is published below 2, whose first exchange fails; 1 is woken twice before it is handed out.
abbrev race : List Step
race =
    wakes 1
    ∷ wakes 2
    ∷ looks 2
    ∷ looks 1
    ∷ links 1
    ∷ links 2
    ∷ exchanges 1 false
    ∷ wakes 1
    ∷ exchanges 2 false
    ∷ links 2
    ∷ exchanges 2 false
    ∷ []

race_served : serve 7 (perform (start 3) race).stack ≡ 2 ∷ 1 ∷ []
unfolding serve perform start
race_served = refl

-- The consumer takes the two, reads the link of 2 and releases 2, which is woken before, when that
-- joins the poll to come, and after, when it is pushed again and its link changes; and it reads the
-- link of 1.
abbrev released : List Step
released =
    race
    ++ (advances
        ∷ advances
        ∷ advances
        ∷ wakes 2
        ∷ advances
        ∷ wakes 2
        ∷ looks 2
        ∷ links 2
        ∷ exchanges 2 false
        ∷ advances
        ∷ [])

released_served : serve 6 (perform (start 3) released).stack ≡ 1 ∷ 2 ∷ []
unfolding serve perform start
released_served = refl

serve-owed_example :
    (k : ℕ) × ((m i : ℕ)
      → (perform (start 3) released).stage i ≡ published
      → count i (serve (k + m) (perform (start 3) released).stack)
        ≡ (if (perform (start 3) released).owed i then 1 else 0))
serve-owed_example = serve-owed 3 released
