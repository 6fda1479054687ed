-- ===== src/Edge/Sync/States.antt =====
-- A sender's call that puts nothing on the edge leaves the state that a waiting consumer reads.
use areamy.Common.{true, ◌≡◌, ◌⊎◌, arith}
use areamy.Error.{Result}
use areamy.Edge.Sync.{
  Shared, Sender, Blocking, done, parked, state, try_push_back, push_back, push_back_woken,
  push_open, enqueue, wake_consumer,
}
use areamy.Edge.Waking.{is_pushed, has_landed}

module _ {ℓ} {M : Type ℓ} where
  pub try_push_back-state :
      (s : Shared M) (h : Sender) (m : M)
      → (is_pushed (try_push_back s h m).0 ≡ true) ⊎ (state (try_push_back s h m).1 ≡ state s)
  unfolding try_push_back enqueue wake_consumer state
  try_push_back-state s h m = ground arith

  -- The edge that a blocking call leaves, once it ended or waits.
  abbrev pub left_by : Blocking (Result (Unit {0})) M → Shared M
  left_by (done r s ns) = s
  left_by (parked s) = s

  pub push_back-state :
      (s : Shared M) (h : Sender) (m : M)
      → (has_landed (push_back s h m) ≡ true) ⊎ (state (left_by (push_back s h m)) ≡ state s)
  unfolding push_back push_open enqueue wake_consumer state
  push_back-state s h m = ground arith

  pub push_back_woken-state :
      (s : Shared M) (m : M)
      → (has_landed (push_back_woken s m) ≡ true)
        ⊎ (state (left_by (push_back_woken s m)) ≡ state s)
  unfolding push_back_woken push_open enqueue wake_consumer state
  push_back_woken-state s m = ground arith
