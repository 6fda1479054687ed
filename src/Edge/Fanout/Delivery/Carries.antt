-- ===== src/Edge/Fanout/Delivery/Carries.antt =====
-- Messages given to a fan-out one after another: every edge takes all of them, in order.
use areamy.Common.{ℕ, ◌≡◌, refl, sym, ◌∙◌, none, List, [], ◌∷◌, ◌++◌, ◌⊎◌, inl, inr, map, length}
use areamy.Error.{Error, Result, ok, err}
use areamy.Graph.{TryPushable, Pushable}
use areamy.Edge.Fanout.{Rotation, complete, at, Fanout, rotate_from, resume}
use areamy.Edge.Fanout.Delivery.{Answers, Takes, give}
use areamy.Edge.Fanout.Delivery.Once.{Delivered, rotate_from-Delivered, resume-Delivered}

-- What edges took once each of `ms` was delivered.
abbrev pub gives {ℓ} : {M : Type ℓ} → (M → M) → List M → List (List M) → List (List M)
gives clone [] logs = logs
gives clone (m ∷ ms) logs = gives clone ms (give clone (length logs) m logs)

gives-append {ℓ} :
    {M : Type ℓ} (clone : M → M) (ms : List M) (m : M) (logs : List (List M))
    → gives clone (ms ++ m ∷ []) logs
      ≡ give clone (length (gives clone ms logs)) m (gives clone ms logs)
gives-append clone [] m logs = refl
gives-append clone (x ∷ ms) m logs = gives-append clone ms m _

module _ {ℓ} {E M : Type ℓ} (clone : M → M) (log : E → List M) (base : List (List M)) where
  -- Every edge took the messages `sent` since it had taken `base`; or all but the last, which is held
  -- for an edge and taken by those before it.
  abbrev pub Carries : List M → Fanout E M → Type ℓ
  Carries sent f =
      ((f.suspended ≡ none) × (map log f.edges ≡ gives clone sent base))
      ⊎ ((ms : List M) × (m : M) × (k : ℕ) × (sent ≡ ms ++ m ∷ [])
          × Delivered clone log m (gives clone ms base) (ok (at k), f))

  module _ (t : TryPushable E M) (p : Pushable E M)
      (law : (e : E) (m : M) → Answers log e m (t.try_push e m))
      (p_law : (e : E) (m : M) → Takes log e m (p.push e m)) where
    -- A call that was to deliver `m` behind `ms` either failed or carries them.
    Delivered-Carries :
        (ms : List M) (m : M) (x : Result Rotation × Fanout E M)
        → Delivered clone log m (gives clone ms base) x
        → ((e : Error) × (x.0 ≡ err e)) ⊎ Carries (ms ++ m ∷ []) x.1
    Delivered-Carries ms m (ok complete, f) (e, h) =
        inr (inl (e, h ∙ sym (gives-append clone ms m base)))
    Delivered-Carries ms m (ok (at k), f) d = inr (inr (ms, m, k, refl, d))
    Delivered-Carries ms m (err e, f) d = inl (e, refl)

    pub rotate_from-Carries :
        (sent : List M) (f : Fanout E M) (m : M)
        → f.suspended ≡ none
        → map log f.edges ≡ gives clone sent base
        → ((e : Error) × ((rotate_from clone t f 0 m).0 ≡ err e))
          ⊎ Carries (sent ++ m ∷ []) (rotate_from clone t f 0 m).1
    rotate_from-Carries sent f m e h =
        Delivered-Carries sent m (rotate_from clone t f 0 m)
          (rw h at (rotate_from-Delivered clone log t f m law e))

    pub resume-Carries :
        (sent : List M) (f : Fanout E M)
        → Carries sent f
        → ((e : Error) × ((resume clone t p f).0 ≡ err e)) ⊎ Carries sent (resume clone t p f).1
    unfolding resume
    resume-Carries sent f (inl (e, h)) = rw (e, resume) (inr (inl (e, h)))
    resume-Carries sent f (inr (ms, m, k, e, d)) = rw e (
        Delivered-Carries ms m (resume clone t p f)
          (resume-Delivered clone log t law m (gives clone ms base) p p_law k f d))
