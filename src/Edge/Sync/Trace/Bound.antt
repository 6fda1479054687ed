-- ===== src/Edge/Sync/Trace/Bound.antt =====
-- How many messages an edge holds.
use areamy.Common.{ℕ, ◌≤◌, ◌≡◌, ◌∙◌, refl, some, List, [], ◌∷◌, arith, length, length-append}
use areamy.Edge.Sync.{Shared, with_bound}
use areamy.Edge.Sync.Trace.{Call, call, run, try_pushes, pushes, pushes_woken}

module _ {ℓ} {M : Type ℓ} where
  -- The buffer is within the bound, if there is one.
  abbrev pub Fits : Shared M → Type 0
  Fits s = (b : ℕ) → s.bound ≡ some b → length s.buffer ≤ b

  call-bound : (s : Shared M) (c : Call M) → (call s c).shared.bound ≡ s.bound
  unfolding call
  call-bound s (try_pushes h m) = ground arith
  call-bound s c = ground arith

  call-Fits : (s : Shared M) (c : Call M) → Fits s → Fits (call s c).shared
  unfolding call
  call-Fits s (try_pushes h m) f b e = ground (arith, f b, length-append s.buffer (m ∷ []))
  call-Fits s (pushes h m) f b e = ground (arith, f b, length-append s.buffer (m ∷ []))
  call-Fits s (pushes_woken m) f b e = ground (arith, f b, length-append s.buffer (m ∷ []))
  call-Fits s c f b e = ground (arith, f b)

  run-Fits : (s : Shared M) (cs : List (Call M)) → Fits s → Fits (run s cs).shared
  unfolding run
  run-Fits s [] f = f
  run-Fits s (c ∷ cs) f = run-Fits (call s c).shared cs (call-Fits s c f)

  run-bound : (s : Shared M) (cs : List (Call M)) → (run s cs).shared.bound ≡ s.bound
  unfolding run
  run-bound s [] = refl
  run-bound s (c ∷ cs) = run-bound (call s c).shared cs ∙ call-bound s c

  -- Whatever the calls, an edge made with bound `b` never holds more than `b` messages.
  pub run-with_bound-le :
      (b : ℕ) (cs : List (Call M)) → length (run (with_bound (some b)) cs).shared.buffer ≤ b
  unfolding with_bound
  run-with_bound-le b cs = run-Fits _ cs (λ c e. omega arith) b (run-bound _ cs)
