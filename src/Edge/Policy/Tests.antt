-- ===== src/Edge/Policy/Tests.antt =====
-- The policy at concrete streams.
use areamy.Common.{ℕ, ◌≡◌, refl, Bool, true, false, List, [], ◌∷◌, ◌++◌}
use areamy.Error.{Result, ok}
use areamy.Message.{Message, data', flush, marker}
use areamy.Graph.{TryPush, pushed, full, TryPushable, Pushable}
use areamy.Edge.Policy.{FollowData, new, try_push}
use areamy.Edge.Policy.Follow.{
  follow, Follows, Returned, push_all, try_until, bare, follow-Follows, push_all-try_push,
}

-- A sink that logs what it takes and refuses as its list of answers says.
record Sink : Type 0 where
  got : List (Message ℕ ℕ)
  refusals : List Bool

abbrev attempt :
    List Bool → List (Message ℕ ℕ) → Message ℕ ℕ → Result (TryPush (Message ℕ ℕ)) × Sink
attempt [] got m = (ok pushed, record { got = got ++ m ∷ []; refusals = [] })
attempt (true ∷ rs) got m = (ok (full m), record { got = got; refusals = rs })
attempt (false ∷ rs) got m = (ok pushed, record { got = got ++ m ∷ []; refusals = rs })

abbrev flaky : TryPushable Sink (Message ℕ ℕ)
flaky = record { try_push = λ s m. attempt s.refusals s.got m }

abbrev logging : Pushable Sink (Message ℕ ℕ)
logging = record { push = λ s m. (ok tt, record s { got = s.got ++ m ∷ [] }) }

attempt-HandsBack :
    (rs : List Bool) (got : List (Message ℕ ℕ)) (m : Message ℕ ℕ) → Returned m (attempt rs got m).0
attempt-HandsBack [] got m = tt
attempt-HandsBack (true ∷ rs) got m = refl
attempt-HandsBack (false ∷ rs) got m = tt

abbrev start : FollowData Sink
start = new (record { got = []; refusals = true ∷ false ∷ true ∷ true ∷ [] })

abbrev echoing : List (Message ℕ ℕ)
echoing = flush 1 ∷ data' 5 ∷ flush 2 ∷ marker 3 ∷ data' 6 ∷ []

-- The first signal has no data before it, and the marker stands behind a signal.
let_through : follow false echoing ≡ data' 5 ∷ flush 2 ∷ data' 6 ∷ []
unfolding follow
let_through = refl

refused_and_retried :
    (push_all (try_until 3 (try_push flaky)) start echoing).1.inner.got
    ≡ data' 5 ∷ flush 2 ∷ data' 6 ∷ []
unfolding push_all try_until try_push new
refused_and_retried = refl

follow-Follows_example : Follows false (follow false echoing)
follow-Follows_example = follow-Follows false echoing

push_all-try_push_example :
    bare (push_all (try_until 3 (try_push flaky)) start echoing)
    ≡ push_all (try_until 3 flaky.try_push) start.inner (follow start.last_was_data echoing)
push_all-try_push_example =
    push_all-try_push flaky 2 start echoing (λ s m. attempt-HandsBack s.refusals s.got m)
