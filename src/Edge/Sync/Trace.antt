-- ===== src/Edge/Sync/Trace.antt =====
-- The calls that the users of an edge can make, one after the other, and what each one moved.
pub mod Fifo
pub mod Bound
pub mod Wakes
mod Tests
use areamy.Common.{ℕ, Bool, true, false, Option, none, some, List, [], ◌∷◌, ◌++◌, if◌then◌else◌}
use areamy.Error.{Error, Result, ok, err}
use areamy.Edge.Sync.{
  Shared, Sender, Notice, Blocking, done, parked, sender, clone, sender_close, try_push_back,
  push_back, push_back_woken, read_front, read_all, poll, try_pop, close,
}
use areamy.Graph.{TryPush, pushed, full, stuck}

-- A sender's calls carry the sender as it is then, whichever producer it belongs to.
pub data Call {ℓ} (M : Type ℓ) : Type ℓ where
  try_pushes : Sender → M → Call M
  pushes : Sender → M → Call M
  pushes_woken : M → Call M
  polls try_pops reads reads_all closes mints : Call M
  clones : Sender → Call M
  sender_closes : Sender → Call M

-- The edge after some calls, with the messages that it took and gave out in them, oldest first,
-- and the notices that they sent.
pub record Effect {ℓ} (M : Type ℓ) : Type ℓ where
  pub shared : Shared M
  pub accepted : List M
  pub taken : List M
  pub notices : List Notice

module _ {ℓ} {M : Type ℓ} where
  abbrev quiet : Shared M → List Notice → Effect M
  quiet s ns = record { shared = s; accepted = []; taken = []; notices = ns }

  -- Whether a push that ended so landed.
  abbrev landed_try : Result (TryPush M) → M → List M
  landed_try (ok pushed) m = m ∷ []
  landed_try (ok (full r)) m = []
  landed_try (ok (stuck r)) m = []
  landed_try (err e) m = []

  abbrev landed : Blocking (Result (Unit {0})) M → M → Effect M
  landed (done (ok u) s ns) m = record { shared = s; accepted = m ∷ []; taken = []; notices = ns }
  landed (done (err e) s ns) m = quiet s ns
  landed (parked s) m = quiet s []

  abbrev popped : Result (Option M) → List M
  popped (ok none) = []
  popped (ok (some m)) = m ∷ []
  popped (err e) = []

  abbrev reading {κ} : {A : Type κ} → (A → List M) → Blocking (Result A) M → Effect M
  reading f (done (ok a) s ns) = record { shared = s; accepted = []; taken = f a; notices = ns }
  reading f (done (err e) s ns) = quiet s ns
  reading f (parked s) = quiet s []

  pub call : Shared M → Call M → Effect M
  unfolding try_push_back push_back push_back_woken poll try_pop read_front read_all close sender
      clone sender_close
  call s (try_pushes h m) =
      let (r, s', h', ns) = try_push_back s h m in
      record { shared = s'; accepted = landed_try r m; taken = []; notices = ns }
  call s (pushes h m) = landed (push_back s h m) m
  call s (pushes_woken m) = landed (push_back_woken s m) m
  call s polls =
      let (r, s', ns) = poll s in
      record { shared = s'; accepted = []; taken = popped r; notices = ns }
  call s try_pops =
      let (r, s', ns) = try_pop s in
      record { shared = s'; accepted = []; taken = popped r; notices = ns }
  call s reads = reading (λ m. m ∷ []) (read_front s)
  call s reads_all = reading (λ ms. ms) (read_all s)
  call s closes = let (s', ns) = close s in quiet s' ns
  call s mints = let (s', h) = sender s in quiet s' []
  call s (clones h) = let (s', h') = clone s h in quiet s' []
  call s (sender_closes h) = let (s', h', ns) = sender_close s h in quiet s' ns

  pub run : Shared M → List (Call M) → Effect M
  unfolding call
  run s [] = quiet s []
  run s (c ∷ cs) =
      let first = call s c in
      let rest = run first.shared cs in
      record {
        shared = rest.shared;
        accepted = first.accepted ++ rest.accepted;
        taken = first.taken ++ rest.taken;
        notices = first.notices ++ rest.notices;
      }
