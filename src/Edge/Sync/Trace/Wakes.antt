-- ===== src/Edge/Sync/Trace/Wakes.antt =====
-- What a refused sender is owed, over any sequence of calls.
use mathlib.Core.List.{mem-append_left, mem-append_right, mem-map_of_mem}
use areamy.Common.{
  ℕ, ◌+◌, ◌%◌, ◌^◌, ◌≤◌, ◌<◌, ◌≡◌, ◌∙◌, refl, ◌⊎◌, Bool-cases, inl, inr, true, false, none, some,
  List, [], ◌∷◌, ◌++◌, Mem, arith, length, is_empty, is_empty-append, ◌==◌, if◌then◌else◌,
}
use areamy.Error.{ok}
use areamy.Edge.Sync.{
  Shared, Sender, not_full_one, not_full_all, not_empty_all, wake, is_full, try_push_back,
}
use areamy.Graph.{full, stuck}
use areamy.Wake.{Waker}
use areamy.Edge.Sync.Trace.{Call, call, run, try_pushes}

module _ {ℓ} {M : Type ℓ} where
  -- Still owed a wake, on an edge that has given nothing out and is as open as before.
  abbrev pub Waits : Waker → Shared M → List M → Shared M → Type 0
  Waits w s taken s' = Mem w s'.refused × (is_empty taken ≡ true) × (s'.is_closed ≡ s.is_closed)

  call-owed :
      (w : Waker) (s : Shared M) (c : Call M)
      → Mem w s.refused
      → Waits w s (call s c).taken (call s c).shared ⊎ Mem (wake w) (call s c).notices
  unfolding call
  call-owed w s (try_pushes h m) r =
      ground (arith, r, mem-append_left (elim h.waker [ none ↦ [] | some v ↦ v ∷ [] ]) r)
  call-owed w s c r =
      let woken = mem-map_of_mem wake r in
      ground (
        arith,
        r,
        woken,
        mem-append_right (not_full_one ∷ []) woken,
        mem-append_right (not_full_all ∷ []) woken,
        mem-append_right (not_empty_all ∷ not_full_all ∷ []) woken,
      )

  -- A sender refused `Full` is owed a wake: over any calls, either its waker is woken, or it is
  -- still recorded, nothing has been taken from the edge, and it is as open as before.
  pub run-owed :
      (w : Waker) (s : Shared M) (cs : List (Call M))
      → Mem w s.refused
      → Waits w s (run s cs).taken (run s cs).shared ⊎ Mem (wake w) (run s cs).notices
  unfolding run
  run-owed w s [] r = inl (r, refl, refl)
  run-owed w s (c ∷ cs) r = elim (call-owed w s c r) [
    | inr woken ↦ inr (mem-append_left _ woken)
    | inl (r', none_taken, same) ↦ elim (run-owed w (call s c).shared cs r') [
      | inr woken ↦ inr (mem-append_right (call s c).notices woken)
      | inl (r'', none_later, same_later) ↦
          inl (r'', is_empty-append _ _ none_taken none_later, same_later ∙ same)
    ]
  ]

  -- How far a call moves the edge's progress: by one, when it takes something.
  abbrev drains : List M → ℕ
  drains ms = if is_empty ms then 0 else 1

  drains-le : (ms : List M) → drains ms ≤ 1
  drains-le [] = omega arith
  drains-le (m ∷ ms) = omega arith

  is_empty-append-drains :
      (xs ys : List M) (d : ℕ) → is_empty ys ≡ (d == 0) → is_empty (xs ++ ys) ≡ (drains xs + d == 0)
  is_empty-append-drains [] ys d e = ground arith
  is_empty-append-drains (x ∷ xs) ys d e = ground arith

  call-progress :
      (s : Shared M) (c : Call M)
      → (call s c).shared.progress % 2 ^ 64 ≡ (s.progress + drains (call s c).taken) % 2 ^ 64
  unfolding call
  call-progress s (try_pushes h m) = ground arith
  call-progress s c = ground arith

  run-progress :
      (s : Shared M) (cs : List (Call M))
      → (d : ℕ) × ((run s cs).shared.progress % 2 ^ 64 ≡ (s.progress + d) % 2 ^ 64)
        × (d ≤ length cs)
        × (is_empty (run s cs).taken ≡ (d == 0))
  unfolding run
  run-progress s [] = (0, omega arith, omega arith, refl)
  run-progress s (c ∷ cs) =
      let (d, moved, few, iff) = run-progress (call s c).shared cs in
      (
        drains (call s c).taken + d,
        omega (arith, call-progress s c),
        omega (arith, drains-le (call s c).taken),
        (is_empty-append-drains (call s c).taken _ d iff),
      )

  call-progress-lt :
      (s : Shared M) (c : Call M) → s.progress < 2 ^ 64 → (call s c).shared.progress < 2 ^ 64
  unfolding call
  call-progress-lt s (try_pushes h m) b = ground arith
  call-progress-lt s c b = ground arith

  run-progress-lt :
      (s : Shared M) (cs : List (Call M))
      → s.progress < 2 ^ 64
      → (run s cs).shared.progress < 2 ^ 64
  unfolding run
  run-progress-lt s [] b = b
  run-progress-lt s (c ∷ cs) b = run-progress-lt (call s c).shared cs (call-progress-lt s c b)

  -- Progress comes back to the same value only if nothing was taken.
  run-progress-eq :
      (s : Shared M) (cs : List (Call M))
      → s.progress < 2 ^ 64
      → length cs < 2 ^ 64
      → (s.progress == (run s cs).shared.progress) ≡ is_empty (run s cs).taken
  run-progress-eq s cs small few =
      let (d, moved, d_few, iff) = run-progress s cs in ground (arith, run-progress-lt s cs small)

  -- A sender was refused, any calls but its own follow (fewer than 2 ^ 64), and it tries again on
  -- an edge that is open and full: it gets `Stuck` if nothing was taken since the refusal, and
  -- `Full` if something was.
  pub try_push_back-again :
      (s : Shared M) (cs : List (Call M)) (h : Sender) (m : M)
      → s.progress < 2 ^ 64
      → length cs < 2 ^ 64
      → h.refused_at ≡ some s.progress
      → h.released ≡ false
      → (run s cs).shared.is_closed ≡ false
      → is_full (run s cs).shared.inner ≡ true
      → (try_push_back (run s cs).shared h m).0
        ≡ ok (if is_empty (run s cs).taken then stuck m else full m)
  unfolding try_push_back
  try_push_back-again s cs h m small few refused live is_open crowded =
      ground (arith, run-progress-eq s cs small few, Bool-cases (is_empty (run s cs).taken))
