-- ===== src/Edge/Sync/Threads.antt =====
-- The threads at the two ends of an edge, and its two condition variables.
--
-- An action is one critical section, one notification that reaches its condition variable after
-- the lock was released, or one spurious wakeup; a schedule is any list of actions. A producer
-- between its `release` and the close that follows it is counted in `closing`.
pub mod Sleepers
mod Tests
use areamy.Common.{
  ℕ, zero, suc, ◌+◌, ◌-◌, Bool, true, false, Option, none, some, List, [], ◌∷◌, if◌then◌else◌, ltb,
}
use areamy.Error.{Result}
use areamy.Edge.Sync.{
  Shared, Sender, Notice, not_empty_one, not_empty_all, not_full_one, not_full_all, wake, Blocking,
  done, parked, with_bound, sender, clone, release, close, try_push_back, push_back,
  push_back_woken, read_front, read_all, wait_front, poll, try_pop,
}

-- The receiver's thread: running, asleep on `not_empty`, or woken and about to look again.
pub data Reader : Type 0 where
  running asleep roused : Reader

pub record Threads {ℓ} (M : Type ℓ) : Type ℓ where
  pub shared : Shared M
  pub open shared use *
  pub reader : Reader
  pub sleeping : ℕ  -- producers asleep on `not_full`
  pub awake : ℕ  -- producers woken there that have not looked again
  pub to_reader : ℕ  -- notifications of `not_empty` under way
  pub to_one : ℕ  -- `notify_one` of `not_full` under way
  pub to_all : ℕ  -- `notify_all` of `not_full` under way
  pub closing : ℕ

pub data Action {ℓ} (M : Type ℓ) : Type ℓ where
  push : Sender → M → Action M
  push_again : M → Action M
  try_push : Sender → M → Action M
  read read_every wait_any_message poll_once try_pop_once : Action M
  release_by : Sender → Action M
  finish_close receiver_close mint : Action M
  clone_of : Sender → Action M
  reach_reader reach_one reach_all wake_reader_for_nothing wake_producer_for_nothing : Action M

-- How often a list of notices holds a kind.
pub for_reader : List Notice → ℕ
for_reader [] = 0
for_reader (not_empty_one ∷ ns) = for_reader ns + 1
for_reader (not_empty_all ∷ ns) = for_reader ns + 1
for_reader (n ∷ ns) = for_reader ns

pub for_one : List Notice → ℕ
for_one [] = 0
for_one (not_full_one ∷ ns) = for_one ns + 1
for_one (n ∷ ns) = for_one ns

pub for_all : List Notice → ℕ
for_all [] = 0
for_all (not_full_all ∷ ns) = for_all ns + 1
for_all (n ∷ ns) = for_all ns

module _ {ℓ} {M : Type ℓ} where
  -- The lock is released: the edge's new state is seen, its notices are under way.
  pub unlock : Threads M → Shared M → List Notice → Threads M
  unfolding for_reader for_one for_all
  unlock t s ns = record t {
    shared = s;
    to_reader = t.to_reader + for_reader ns;
    to_one = t.to_one + for_one ns;
    to_all = t.to_all + for_all ns;
  }

  pub pushes : Threads M → Blocking (Result (Unit {0})) M → Threads M
  unfolding unlock
  pushes t (done r s ns) = unlock t s ns
  pushes t (parked s) = record t { shared = s; sleeping = t.sleeping + 1 }

  pub reads {κ} : {A : Type κ} → Threads M → Blocking A M → Threads M
  unfolding unlock
  reads t (done r s ns) = record (unlock t s ns) { reader = running }
  reads t (parked s) = record t { shared = s; reader = asleep }

  -- The receiver has one thread, so none of its calls runs while it sleeps.
  abbrev by_reader : Threads M → Threads M → Threads M
  by_reader t t' = elim t.reader [ running ↦ t' | roused ↦ t' | asleep ↦ t ]

  pub act : Threads M → Action M → Threads M
  unfolding pushes reads try_push_back push_back push_back_woken poll try_pop read_front read_all
      wait_front close sender clone release
  act t (push h m) = pushes t (push_back t.shared h m)
  act t (push_again m) =
      if ltb 0 t.awake
      then pushes (record t { awake = t.awake - 1 }) (push_back_woken t.shared m)
      else t
  act t (try_push h m) = let (r, s, h', ns) = try_push_back t.shared h m in unlock t s ns
  act t read = by_reader t (reads t (read_front t.shared))
  act t read_every = by_reader t (reads t (read_all t.shared))
  act t wait_any_message = by_reader t (reads t (wait_front t.shared))
  act t poll_once = let (r, s, ns) = poll t.shared in by_reader t (unlock t s ns)
  act t try_pop_once = let (r, s, ns) = try_pop t.shared in by_reader t (unlock t s ns)
  act t (release_by h) =
      let (s, h', last) = release t.shared h in
      record t { shared = s; closing = if last then t.closing + 1 else t.closing }
  act t finish_close =
      let (s, ns) = close t.shared in
      if ltb 0 t.closing then record (unlock t s ns) { closing = t.closing - 1 } else t
  act t receiver_close = let (s, ns) = close t.shared in by_reader t (unlock t s ns)
  act t mint = record t { shared = (sender t.shared).0 }
  act t (clone_of h) = record t { shared = (clone t.shared h).0 }
  act t reach_reader =
      if ltb 0 t.to_reader
      then record t {
        to_reader = t.to_reader - 1;
        reader = elim t.reader [ asleep ↦ roused | running ↦ running | roused ↦ roused ];
      }
      else t
  act t reach_one =
      if ltb 0 t.to_one
      then (if ltb 0 t.sleeping
          then record t { to_one = t.to_one - 1; sleeping = t.sleeping - 1; awake = t.awake + 1 }
          else record t { to_one = t.to_one - 1 })
      else t
  act t reach_all =
      if ltb 0 t.to_all
      then record t { to_all = t.to_all - 1; sleeping = 0; awake = t.awake + t.sleeping }
      else t
  act t wake_reader_for_nothing = record t {
    reader = elim t.reader [ asleep ↦ roused | running ↦ running | roused ↦ roused ];
  }
  act t wake_producer_for_nothing =
      if ltb 0 t.sleeping then record t { sleeping = t.sleeping - 1; awake = t.awake + 1 } else t

  pub perform : Threads M → List (Action M) → Threads M
  unfolding act
  perform t [] = t
  perform t (a ∷ as') = perform (act t a) as'

  -- A new edge, nobody waiting.
  pub fresh : Option ℕ → Threads M
  unfolding with_bound
  fresh bound = record {
    shared = with_bound bound;
    reader = running;
    sleeping = 0;
    awake = 0;
    to_reader = 0;
    to_one = 0;
    to_all = 0;
    closing = 0;
  }
