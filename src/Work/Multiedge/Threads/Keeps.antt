-- ===== src/Work/Multiedge/Threads/Keeps.antt =====
-- What the waiting thread saw of the edges is so, or its token is set or about to be.
use areamy.Common.{
  ℕ, suc, ◌≤◌, ltb, arith, ◌≡◌, refl, sym, ◌∙◌, ◌⊎◌, inl, inr, Bool, true, false, Bool-cases, none,
  some, Option-cases, List, [], ◌∷◌, map, get_elem?,
}
use areamy.Error.{Result}
use areamy.Edge.Sync.{Shared, Blocking, done, parked, state, State}
use areamy.Edge.Sync.States.{try_push_back-state, left_by, push_back-state, push_back_woken-state}
use areamy.Edge.Waking
use areamy.Edge.Waking.{is_pushed, has_landed}
use areamy.Wake.Parker.Threads.{Thread, running, asleep, roused, parks, turns, wakes_once}
use areamy.Wake.Parker.Threads
use areamy.Wake.Parker.Threads.Token.{
  parks-woken, turns-woken, wakes_once-woken, wakes_once-thread, notified-woken, notified-running,
  spurious-woken, spurious-running,
}
use areamy.Work.Multiedge.{looked, scanned}
use areamy.Work.Multiedge.Threads.{
  Waiter, scanning, parking, returned, World, Action, goes_on, try_pushes, pushes, pushes_woken,
  closes, wakes, notified, spurious, resumed, in_park, end_scan, see, step, leave, leave_blocking,
  at_edge, act, perform, start,
}
use areamy.Work.Multiedge.Survey.{
  rest_from, rest_from-some, rest_from-none, map-set, survey, survey-looked,
}

-- What the waiting thread saw is so still.
abbrev pub Seen : Waiter → List State → Type 0
Seen (scanning k idle_seen) sts = survey (rest_from k sts) idle_seen ≡ survey sts false
Seen parking sts = survey sts false ≡ some true
Seen (returned r) sts = Unit

resumed-parking : (t : Thread) → (t ≡ running) ⊎ (resumed t ≡ parking)
resumed-parking running = inl refl
resumed-parking asleep = inr refl
resumed-parking roused = inr refl

Seen-resumed : (t : Thread) (sts : List State) → Seen parking sts → Seen (resumed t) sts
Seen-resumed running sts h = refl
Seen-resumed asleep sts h = h
Seen-resumed roused sts h = h

-- The token is set, or a producer is about to set it, or else.
abbrev pub Unless {ℓ} : {M : Type ℓ} → World M → Type 0 → Type 0
Unless w P = (w.parker.woken ≡ true) ⊎ ((1 ≤ w.to_wake) ⊎ P)

Unless-map {ℓ} : {M : Type ℓ} (w : World M) {P Q : Type 0} → (P → Q) → Unless w P → Unless w Q
Unless-map w f (inl t) = inl t
Unless-map w f (inr (inl n)) = inr (inl n)
Unless-map w f (inr (inr p)) = inr (inr (f p))

module _ {ℓ} {M : Type ℓ} where
  pub record Inv (w : World M) : Type 0 where
    pub token : Threads.Inv w.parker
    pub fresh : Unless w (Seen w.waiter (map state w.edges))
    pub phase : (w.parker.thread ≡ running) ⊎ (w.waiter ≡ parking)

  in_park-fresh :
      (w : World M) (a : Threads.Action)
      → ((Threads.act w.parker a).thread ≡ running)
        ⊎ ((Threads.act w.parker a).woken ≡ w.parker.woken)
      → Unless w (Seen parking (map state w.edges))
      → Unless (in_park w a) (Seen (in_park w a).waiter (map state w.edges))
  unfolding in_park
  in_park-fresh w a (inl e) f = inr (inr (rw e refl))
  in_park-fresh w a (inr e) (inl t) = inl (e ∙ t)
  in_park-fresh w a (inr e) (inr (inl n)) = inr (inl n)
  in_park-fresh w a (inr e) (inr (inr h)) =
      inr (inr (Seen-resumed (Threads.act w.parker a).thread (map state w.edges) h))

  in_park-Inv :
      (w : World M) (a : Threads.Action)
      → ((Threads.act w.parker a).thread ≡ running)
        ⊎ ((Threads.act w.parker a).woken ≡ w.parker.woken)
      → Threads.Inv w.parker
      → Unless w (Seen parking (map state w.edges))
      → Inv (in_park w a)
  unfolding in_park
  in_park-Inv w a e t f = record {
    token = Threads.act-Inv w.parker a t;
    fresh = in_park-fresh w a e f;
    phase = resumed-parking (Threads.act w.parker a).thread;
  }

  scanning-running :
      (w : World M) (k : ℕ) (b : Bool)
      → w.waiter ≡ scanning k b
      → (w.parker.thread ≡ running) ⊎ (w.waiter ≡ parking)
      → w.parker.thread ≡ running
  scanning-running w k b e (inl r) = r
  scanning-running w k b e (inr p) = cc

  end_scan-Inv :
      (w : World M) (k : ℕ) (b : Bool)
      → w.waiter ≡ scanning k b
      → get_elem? w.edges k ≡ none
      → Inv w
      → Inv (end_scan w (scanned b))
  unfolding end_scan scanned
  end_scan-Inv w k true e g i =
      in_park-Inv w (parks false) (parks-woken w.parker) i.token
        (Unless-map w (λ h. sym (rw (rest_from-none state w.edges k g) at (rw e at h))) i.fresh)
  end_scan-Inv w k false e g i = record {
    token = i.token;
    fresh = inr (inr tt);
    phase = inl (scanning-running w k false e i.phase);
  }

  see-Inv :
      (w : World M) (k : ℕ) (b : Bool) (s : Shared M)
      → w.waiter ≡ scanning k b
      → get_elem? w.edges k ≡ some s
      → Inv w
      → Inv (see w k (looked b (state s)))
  unfolding see
  see-Inv w k b s e g i = elim (Option-cases (looked b (state s))) [
    | inl none_left ↦
        rw (none_left, see)
          (record {
            token = i.token;
            fresh = inr (inr tt);
            phase = inl (scanning-running w k b e i.phase);
          })
    | inr (c, seen) ↦
        rw (seen, see)
          (record {
            token = i.token;
            fresh =
                Unless-map w
                  (λ h.
                    sym (survey-looked (state s) (rest_from (suc k) (map state w.edges)) b c seen)
                    ∙ (rw (rest_from-some state w.edges k s g) at (rw e at h)))
                  i.fresh;
            phase = inl (scanning-running w k b e i.phase);
          })
  ]

  step-Inv : (w : World M) (x : Waiter) → w.waiter ≡ x → Inv w → Inv (step w x)
  unfolding step
  step-Inv w (scanning k b) e i = elim (Option-cases (get_elem? w.edges k)) [
    | inl g ↦ rw (g, step) (end_scan-Inv w k b e g i)
    | inr (s, g) ↦ rw (g, step) (see-Inv w k b s e g i)
  ]
  step-Inv w parking e i =
      in_park-Inv w (turns false) (turns-woken w.parker) i.token
        (Unless-map w (λ h. rw e at h) i.fresh)
  step-Inv w (returned r) e i = i

  leave-Inv :
      (w : World M) (k : ℕ) (s s' : Shared M) (b : Bool)
      → get_elem? w.edges k ≡ some s
      → (b ≡ true) ⊎ (state s' ≡ state s)
      → Inv w
      → Inv (leave w k s' b)
  unfolding leave
  leave-Inv w k s s' true g e i = record {
    token = i.token;
    fresh = inr (inl (omega arith));
    phase = i.phase;
  }
  leave-Inv w k s s' false g (inl e) i = cc
  leave-Inv w k s s' false g (inr e) i = record {
    token = i.token;
    fresh = rw (map-set state w.edges k s s' g e) i.fresh;
    phase = i.phase;
  }

  leave_blocking-Inv :
      (w : World M) (k : ℕ) (s : Shared M) (x : Blocking (Result (Unit {0})) M × Bool)
      → get_elem? w.edges k ≡ some s
      → (x.1 ≡ true) ⊎ (state (left_by (x.0)) ≡ state s)
      → Inv w
      → Inv (leave_blocking w k x)
  unfolding leave_blocking
  leave_blocking-Inv w k s (done r s' ns, b) g e i = leave-Inv w k s s' b g e i
  leave_blocking-Inv w k s (parked s', b) g e i = leave-Inv w k s s' b g e i

  at_edge-Inv :
      (w : World M) (k : ℕ) (call : Shared M → World M)
      → ((s : Shared M) → get_elem? w.edges k ≡ some s → Inv (call s))
      → Inv w
      → Inv (at_edge w k call)
  unfolding at_edge
  at_edge-Inv w k call on i = elim (Option-cases (get_elem? w.edges k)) [
    | inl g ↦ rw (g, at_edge) i
    | inr (s, g) ↦ rw (g, at_edge) (on s g)
  ]

  parker-Inv :
      (w : World M) (a : Threads.Action)
      → (Threads.act w.parker a).woken ≡ w.parker.woken
      → (w.parker.thread ≡ running → (Threads.act w.parker a).thread ≡ running)
      → Inv w
      → Inv (record w { parker = Threads.act w.parker a })
  parker-Inv w a e r i = record {
    token = Threads.act-Inv w.parker a i.token;
    fresh = rw e i.fresh;
    phase = elim i.phase [ inl t ↦ inl (r t) | inr p ↦ inr p ];
  }

  act-Inv : (w : World M) (a : Action M) → Inv w → Inv (act w a)
  unfolding act Waking.try_push Waking.push_back Waking.push_back_woken Waking.close
  act-Inv w goes_on i = step-Inv w w.waiter refl i
  act-Inv w (try_pushes k h m) i =
      at_edge-Inv w k _ (λ s g. leave-Inv w k s _ _ g (try_push_back-state s h m) i) i
  act-Inv w (pushes k h m) i =
      at_edge-Inv w k _ (λ s g. leave_blocking-Inv w k s _ g (push_back-state s h m) i) i
  act-Inv w (pushes_woken k m) i =
      at_edge-Inv w k _ (λ s g. leave_blocking-Inv w k s _ g (push_back_woken-state s m) i) i
  act-Inv w (closes k h) i = at_edge-Inv w k _ (λ s g. leave-Inv w k s _ true g (inl refl) i) i
  act-Inv w wakes i = elim (Bool-cases (ltb 0 w.to_wake)) [
    | inl e ↦
        rw (e, act)
          (record {
            token = Threads.act-Inv w.parker wakes_once i.token;
            fresh = inl (wakes_once-woken w.parker);
            phase = rw (wakes_once-thread w.parker) i.phase;
          })
    | inr e ↦ rw (e, act) i
  ]
  act-Inv w notified i =
      parker-Inv w Threads.notified (notified-woken w.parker) (notified-running w.parker) i
  act-Inv w spurious i =
      parker-Inv w Threads.spurious (spurious-woken w.parker) (spurious-running w.parker) i

  pub perform-Inv : (w : World M) (as' : List (Action M)) → Inv w → Inv (perform w as')
  unfolding perform
  perform-Inv w [] i = i
  perform-Inv w (a ∷ as') i = perform-Inv (act w a) as' (act-Inv w a i)

  pub start-Inv : (edges : List (Shared M)) → Inv (start edges)
  unfolding start Threads.new
  start-Inv edges = record { token = Threads.new-Inv; fresh = inr (inr refl); phase = inl refl }
