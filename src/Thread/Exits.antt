-- ===== src/Thread/Exits.antt =====
-- thread/: every exit of a thread is told to each of its callbacks, and the first failure in a
-- bundle to each of the bundle's.
use areamy.Common.{
  ℕ, Option, none, some, List, [], ◌∷◌, ◌++◌, map, ◌≡◌, ◌↔◌, refl, sym, ◌∙◌, ap, append-nil,
}
use areamy.Error.{Error, any, ok, err}
use areamy.Thread.{
  Done, Done.error, panic, Failure, from_done, Fate, refused, unwinds, returns, fire, done_of,
  drop_init, drop_run, start, drain, task, OnDone, client, first_error, inject, on_failure, called,
  exits, join, errors,
}

-- What a fate is to a callback.
abbrev pub told {κ} : {A Q : Type κ} → (Option A → ℕ) → Fate A Q → Done
told boxed (refused reason) = error (any (boxed none))
told boxed (unwinds payload) = panic
told boxed (returns r) = done_of r

drop_init_lem {ℓ κ} :
    {C : Type ℓ} {A : Type κ} (boxed : Option A → ℕ) (cs : List C)
    → drop_init boxed cs ≡ fire cs (error (any (boxed none)))
unfolding drop_init
drop_init_lem boxed [] = refl
drop_init_lem boxed (c ∷ cs) = refl

drop_run_lem {ℓ} : {C : Type ℓ} (cs : List C) → drop_run cs ≡ fire cs panic
unfolding drop_run
drop_run_lem [] = refl
drop_run_lem (c ∷ cs) = refl

-- Whether a thread's spawn is refused, its task panics or its loop returns, each of its callbacks is
-- called exactly once, in the order they were registered, with what that fate is: the error of a
-- thread that never started, without a reason; a panic; or the loop's own result.
pub task-told {ℓ κ} :
    {C : Type ℓ} {A Q : Type κ} (boxed : Option A → ℕ) (fate : Fate A Q) (cs : List C)
    → task boxed fate cs ≡ map (λ c. (c, told boxed fate)) cs
unfolding task start drain drop_init drop_run
task-told boxed (refused reason) cs = drop_init_lem boxed cs
task-told boxed (unwinds payload) cs = drop_run_lem cs
task-told boxed (returns r) cs = refl

abbrev pub or_else : Option Failure → Option Failure → Option Failure
or_else none later = later
or_else (some failure) later = some failure

-- The failure that a bundle's callbacks see: that of the first thread to exit with one.
abbrev pub first {κ} : {A Q : Type κ} → (Option A → ℕ) → List (Fate A Q) → Option Failure
first boxed [] = none
first boxed (fate ∷ fates) = or_else (from_done (told boxed fate)) (first boxed fates)

abbrev pub each {ℓ} : {F : Type ℓ} → List F → Option Failure → List (F × Failure)
each hooks none = []
each hooks (some failure) = map (λ h. (h, failure)) hooks

each-nil {ℓ} : {F : Type ℓ} (failure : Option Failure) → each {F = F} [] failure ≡ []
each-nil none = refl
each-nil (some failure) = refl

on_failure-nil {ℓ} :
    {F : Type ℓ} (failure : Option Failure) → on_failure {F = F} failure [] ≡ ([], [])
unfolding on_failure
on_failure-nil none = refl
on_failure-nil (some failure) = refl

called-nil {ℓ κ} :
    {U : Type ℓ} {F : Type κ} (calls : List (OnDone U × Done)) → called {F = F} calls [] ≡ ([], [])
unfolding called
called-nil [] = refl
called-nil ((client u, done) ∷ calls) = called-nil calls
called-nil {F} ((first_error, done) ∷ calls) =
    rw (on_failure-nil {F = F} (from_done done), called-nil {F = F} calls) refl

-- A thread's callbacks, told the same outcome, do to the slot what the injected one does.
called-hook {ℓ κ} :
    {U : Type ℓ} {F : Type κ} (us : List U) (done : Done) (slot : List F)
    → called (map (λ c. (c, done)) (map client us ++ first_error ∷ [])) slot
      ≡ on_failure (from_done done) slot
unfolding called
called-hook [] done slot =
    ap (λ f. (f, (on_failure (from_done done) slot).1))
      (append-nil ((on_failure (from_done done) slot).0))
called-hook (u ∷ us) done slot = called-hook us done slot

-- One thread's failure comes before all later ones'.
on_failure-each {ℓ} :
    {F : Type ℓ} (now later : Option Failure) (slot : List F) (rest : List F → List (F × Failure))
    → ((slot' : List F) → rest slot' ≡ each slot' later)
    → (on_failure now slot).0 ++ rest (on_failure now slot).1 ≡ each slot (or_else now later)
unfolding on_failure
on_failure-each none later slot rest same = same slot
on_failure-each (some failure) later slot rest same =
    ap (λ l. map (λ c. (c, failure)) slot ++ l) (same [] ∙ each-nil later) ∙ append-nil _

exits-hooked {ℓ κ μ} :
    {U : Type ℓ} {F : Type κ} {A Q : Type μ} (boxed : Option A → ℕ)
    (threads : List (List U × Fate A Q)) (slot : List F)
    → exits boxed (map (λ (cs, x). (map client cs ++ first_error ∷ [], x)) threads) slot
      ≡ each slot (first boxed (map (λ t. t.1) threads))
unfolding exits
exits-hooked boxed [] slot = refl
exits-hooked boxed ((us, fate) ∷ threads) slot =
    rw
      (
        task-told boxed fate (map client us ++ first_error ∷ []),
        called-hook us (told boxed fate) slot,
      )
      (on_failure-each (from_done (told boxed fate)) (first boxed (map (λ t. t.1) threads)) slot
        (exits boxed (map (λ (cs, x). (map client cs ++ first_error ∷ [], x)) threads))
        (exits-hooked boxed threads))

exits-nil {ℓ κ μ} :
    {U : Type ℓ} {F : Type κ} {A Q : Type μ} (boxed : Option A → ℕ)
    (threads : List (List (OnDone U) × Fate A Q))
    → exits {F = F} boxed threads [] ≡ []
unfolding exits
exits-nil boxed [] = refl
exits-nil {F} boxed ((cs, fate) ∷ threads) =
    rw (called-nil {F = F} (task boxed fate cs)) (exits-nil boxed threads)

-- The errors of a bundle's joins, and what its callbacks see.
errors-first {κ} :
    {A Q : Type κ} (boxed : Option A → ℕ) (fatal_of : Q → Error) (fates : List (Fate A Q))
    → errors (map (join boxed fatal_of) fates) ≡ [] ↔ first boxed fates ≡ none
unfolding errors join
errors-first boxed fatal_of [] = (λ e. refl, λ e. refl)
errors-first boxed fatal_of (refused reason ∷ fates) = (λ e. cc, λ e. cc)
errors-first boxed fatal_of (unwinds payload ∷ fates) = (λ e. cc, λ e. cc)
errors-first boxed fatal_of (returns (ok u) ∷ fates) = errors-first boxed fatal_of fates
errors-first boxed fatal_of (returns (err e) ∷ fates) = (λ e. cc, λ e. cc)

-- Whatever callbacks of its own each thread of a bundle has, and in whatever order the threads exit,
-- the callbacks that the bundle has for a first error are each called once, in the order they were
-- registered, with the failure of the first thread to exit with one, or not at all if none does; and
-- none does exactly if the threads' joins have no errors.
pub exits-first {ℓ κ μ} :
    {U : Type ℓ} {F : Type κ} {A Q : Type μ} (boxed : Option A → ℕ) (fatal_of : Q → Error)
    (threads : List (List U × Fate A Q)) (hooks : List F)
    → (exits boxed (inject hooks threads) hooks ≡ each hooks (first boxed (map (λ t. t.1) threads)))
      × (errors (map (join boxed fatal_of) (map (λ t. t.1) threads)) ≡ []
          ↔ first boxed (map (λ t. t.1) threads) ≡ none)
unfolding inject
exits-first boxed fatal_of threads [] = (
  exits-nil boxed _ ∙ sym (each-nil (first boxed (map (λ t. t.1) threads))),
  errors-first boxed fatal_of (map (λ t. t.1) threads),
)
exits-first boxed fatal_of threads (h ∷ hooks) =
    (exits-hooked boxed threads (h ∷ hooks), errors-first boxed fatal_of (map (λ t. t.1) threads))
