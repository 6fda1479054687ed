-- ===== src/Edge/Fanout/Delivery/Once.antt =====
-- A message given to a fan-out reaches each edge exactly once, however often edges hand it back.
use areamy.Common.{
  ℕ, zero, suc, ◌≤◌, ◌<◌, ◌≡◌, refl, sym, ap, subst, ◌∙◌, Option, none, some, List, [], ◌∷◌, ◌++◌,
  map, length, arith, get_elem?, set,
}
use areamy.Error.{Error, Result, ok, err}
use areamy.Graph.{TryPush, pushed, full, stuck, TryPushable, Pushable}
use areamy.Edge.Fanout.{
  Rotation, complete, at, Suspended, Fanout, Outcome, all_took, held, settle, rotate_from,
  rotate_rest, rotate, with_edge, hold_again, retried, retry, unblocked, resumed, resume,
}
use areamy.Edge.Fanout.Delivery.{Answers, Takes, source, give, Holds}
use areamy.Edge.Fanout.Delivery.Walk.{Ended, walk_from-Ended}

-- How a client continues a suspended fan-out.
pub data Again : Type 0 where
  retries resumes : Again

unfoldable pub call_again {ℓ κ} :
    {E : Type ℓ} {M : Type κ} (clone : M → M) (t : TryPushable E M) (p : Pushable E M)
    → List Again
    → Result Rotation × Fanout E M
    → Result Rotation × Fanout E M
call_again clone t p [] x = x
call_again clone t p (c ∷ cs) (ok complete, f) = (ok complete, f)
call_again clone t p (c ∷ cs) (err x, f) = (err x, f)
call_again clone t p (retries ∷ cs) (ok (at k), f) = call_again clone t p cs (retry clone t f)
call_again clone t p (resumes ∷ cs) (ok (at k), f) = call_again clone t p cs (resume clone t p f)

module _ {ℓ κ} {E : Type ℓ} {M : Type κ} (clone : M → M) (log : E → List M) where
  -- The fan-out after a call, by the edges' logs before the message: every edge took it once and
  -- nothing is held; or the edges before `k` took it, the others did not, and it is held for `k`; or
  -- an edge failed, and only edges before some `d` took it.
  abbrev pub Delivered : M → List (List M) → Result Rotation × Fanout E M → Type κ
  Delivered m before (ok complete, f) =
      (f.suspended ≡ none) × (map log f.edges ≡ give clone (length before) m before)
  Delivered m before (ok (at k), f) =
      (s : Suspended M) × (f.suspended ≡ some s)
      × (s.index ≡ k)
      × Holds clone m k before s
      × (map log f.edges ≡ give clone k m before)
  Delivered m before (err x, f) =
      (d : ℕ) × (d ≤ length before) × (map log f.edges ≡ give clone d m before)

  settle-Delivered :
      (m : M) (before : List (List M)) (f : Fanout E M) (w : Result (Outcome M) × List E)
      → f.suspended ≡ none
      → Ended clone log 0 m before w
      → Delivered m before (settle f w)
  unfolding settle
  settle-Delivered m before f (ok all_took, es) e w = (e, w)
  settle-Delivered m before f (ok (held s), es) e (d, at_d, holds, same) =
      let here : s.index ≡ d = omega arith in
      (s, refl, refl, subst (λ k. Holds clone m k before s) (sym here) holds, rw here same)
  settle-Delivered m before f (err x, es) e w = w

  -- The edge at which a message is held.
  record Here (m : M) (k : ℕ) (es : List E) (before : List (List M)) (s : Suspended M)
      : Type (ℓ ⊔ κ) where
    edge : E
    found : get_elem? es k ≡ some edge
    inside : k < length before
    took :
        (e : E)
        → log e ≡ log edge ++ s.message ∷ []
        → map log (set es k e) ≡ give clone (suc k) m before
    kept : (e : E) → log e ≡ log edge → map log (set es k e) ≡ give clone k m before
    last : s.rest ≡ none → suc k ≡ length before
    more : (m' : M) → s.rest ≡ some m' → m' ≡ m

  source-last : (m : M) (later : List (List M)) → source clone m later ≡ none → later ≡ []
  source-last m [] e = refl
  source-last m (l ∷ later) e = cc

  source-more : (m m' : M) (later : List (List M)) → source clone m later ≡ some m' → m' ≡ m
  source-more m m' [] e = cc
  source-more m m' (l ∷ later) e = cc

  Holds-Here :
      (m : M) (k : ℕ) (es : List E) (before : List (List M)) (s : Suspended M)
      → map log es ≡ give clone k m before
      → Holds clone m k before s
      → Here m k es before s
  Holds-Here m k es [] s same holds = absurd holds.1
  Holds-Here m zero [] (l ∷ before) s same holds = cc
  Holds-Here m (suc k) [] (l ∷ before) s same holds = cc
  Holds-Here m zero (e ∷ es) (l ∷ before) s same holds = record {
    edge = e;
    found = refl;
    inside = omega arith;
    took = λ e' h. ground arith;
    kept = λ e' h. ground arith;
    last = λ h. ap (λ b. suc (length b)) (sym (source-last m before (sym holds.1 ∙ h)));
    more = λ m' h. source-more m m' before (sym holds.1 ∙ h);
  }
  Holds-Here m (suc k) (e ∷ es) (l ∷ before) s same holds =
      let h = Holds-Here m k es before s (ground arith) holds in
      record {
        edge = h.edge;
        found = h.found;
        inside = omega (arith, h.inside);
        took = λ e' g. ground (arith, h.took e' g);
        kept = λ e' g. ground (arith, h.kept e' g);
        last = λ g. ap suc (h.last g);
        more = h.more;
      }

  module _ (t : TryPushable E M) (law : (e : E) (m : M) → Answers log e m (t.try_push e m)) (m : M)
      (before : List (List M)) where
    rest-Delivered :
        (k : ℕ) (f : Fanout E M) (rest : Option M)
        → f.suspended ≡ none
        → map log f.edges ≡ give clone (suc k) m before
        → (rest ≡ none → suc k ≡ length before)
        → ((m' : M) → rest ≡ some m' → m' ≡ m)
        → Delivered m before (rotate_rest clone t f k rest)
    unfolding rotate_rest rotate_from settle
    rest-Delivered k f none e same last more = (e, rw (← last refl) same)
    rest-Delivered k f (some m') e same last more = rw (more m' refl) (
        settle-Delivered m before f _ e
          (walk_from-Ended clone log t law 0 (suc k) f.edges m before same))

    module _ (f : Fanout E M) (s : Suspended M) (none_held : f.suspended ≡ none)
        (holds : Holds clone m s.index before s) (h : Here m s.index f.edges before s) where
      -- The held message was taken: the walk goes on.
      onward-Delivered :
          (e : E)
          → log e ≡ log h.edge ++ s.message ∷ []
          → Delivered m before (rotate_rest clone t (with_edge f s.index e) s.index s.rest)
      unfolding with_edge
      onward-Delivered e took =
          rest-Delivered s.index _ s.rest none_held (h.took e took) h.last h.more

      -- It was handed back: it is held as before.
      again-Delivered :
          (e : E) (r : M)
          → log e ≡ log h.edge
          → r ≡ s.message
          → Delivered m before (hold_again (with_edge f s.index e) s r)
      unfolding with_edge hold_again
      again-Delivered e r kept back =
          (record s { message = r }, refl, refl, rw back holds, h.kept e kept)

      -- Its edge failed.
      failed-Delivered :
          (x : Error) (e : E)
          → log e ≡ log h.edge
          → Delivered m before (err x, with_edge f s.index e)
      unfolding with_edge
      failed-Delivered x e kept = (s.index, omega (arith, h.inside), h.kept e kept)

      retried-Delivered :
          (x : Result (TryPush M) × E)
          → Answers log h.edge s.message x
          → Delivered m before (retried clone t f s x)
      unfolding retried
      retried-Delivered (ok pushed, e) a = onward-Delivered e a
      retried-Delivered (ok (full r), e) a = again-Delivered e r a.0 a.1
      retried-Delivered (ok (stuck r), e) a = again-Delivered e r a.0 a.1
      retried-Delivered (err x, e) a = failed-Delivered x e a

      module _ (p : Pushable E M) (p_law : (e : E) (m : M) → Takes log e m (p.push e m)) where
        unblocked-Delivered :
            (e : E) (x : Result (Unit {0}) × E)
            → log e ≡ log h.edge
            → Takes log e s.message x
            → Delivered m before (unblocked clone t p f s x)
        unfolding unblocked
        unblocked-Delivered e (ok u, e') kept a = onward-Delivered e' (rw (← kept) a)
        unblocked-Delivered e (err x, e') kept a = failed-Delivered x e' (a ∙ kept)

        resumed-Delivered :
            (x : Result (TryPush M) × E)
            → Answers log h.edge s.message x
            → Delivered m before (resumed clone t p f s x)
        unfolding resumed
        resumed-Delivered (ok pushed, e) a = onward-Delivered e a
        resumed-Delivered (ok (full r), e) a = again-Delivered e r a.0 a.1
        resumed-Delivered (ok (stuck r), e) a =
            rw a.1 (unblocked-Delivered e (p.push e s.message) a.0 (p_law e s.message))
        resumed-Delivered (err x, e) a = failed-Delivered x e a

    -- What a call does with the message held in `f`, whichever call it is.
    continue-Delivered :
        (k : ℕ) (f : Fanout E M)
        → Delivered m before (ok (at k), f)
        → (continue : Fanout E M → Result Rotation × Fanout E M)
        → ((s : Suspended M)
            → f.suspended ≡ some s
            → (h : Here m s.index f.edges before s) → Holds clone m s.index before s
            → Delivered m before (continue f))
        → Delivered m before (continue f)
    continue-Delivered k f (s, e, at_k, holds, same) continue go =
        let holds' = subst (λ i. Holds clone m i before s) (sym at_k) holds in
        let same' : map log f.edges ≡ give clone s.index m before = rw at_k same in
        go s e (Holds-Here m s.index f.edges before s same' holds') holds'

    retry-Delivered :
        (k : ℕ) (f : Fanout E M)
        → Delivered m before (ok (at k), f)
        → Delivered m before (retry clone t f)
    unfolding retry
    retry-Delivered k f d = continue-Delivered k f d (retry clone t) (λ s e h holds.
        rw (e, retry)
          (rw (h.found, retry)
            (retried-Delivered (record f { suspended = none }) s refl holds h _
              (law h.edge s.message))))

    module _ (p : Pushable E M) (p_law : (e : E) (m : M) → Takes log e m (p.push e m)) where
      pub resume-Delivered :
          (k : ℕ) (f : Fanout E M)
          → Delivered m before (ok (at k), f)
          → Delivered m before (resume clone t p f)
      unfolding resume
      resume-Delivered k f d = continue-Delivered k f d (resume clone t p) (λ s e h holds.
          rw (e, resume)
            (rw (h.found, resume)
              (resumed-Delivered (record f { suspended = none }) s refl holds h p p_law _
                (law h.edge s.message))))

      call_again-Delivered :
          (cs : List Again) (x : Result Rotation × Fanout E M)
          → Delivered m before x
          → Delivered m before (call_again clone t p cs x)
      unfolding call_again
      call_again-Delivered [] x d = d
      call_again-Delivered (c ∷ cs) (ok complete, f) d = d
      call_again-Delivered (c ∷ cs) (err x, f) d = d
      call_again-Delivered (retries ∷ cs) (ok (at k), f) d =
          call_again-Delivered cs _ (retry-Delivered k f d)
      call_again-Delivered (resumes ∷ cs) (ok (at k), f) d =
          call_again-Delivered cs _ (resume-Delivered k f d)

  pub rotate_from-Delivered :
      (t : TryPushable E M) (f : Fanout E M) (m : M)
      → ((e : E) (m : M) → Answers log e m (t.try_push e m))
      → f.suspended ≡ none
      → Delivered m (map log f.edges) (rotate_from clone t f 0 m)
  unfolding rotate_from
  rotate_from-Delivered t f m law e =
      settle-Delivered m (map log f.edges) f _ e
        (walk_from-Ended clone log t law 0 0 f.edges m (map log f.edges) refl)

  -- A fan-out that holds nothing is given a message, and called to go on, by `retry` or `resume`, for
  -- as long as it is suspended: once it is complete every edge took the message exactly once, in the
  -- edges' order; while it is suspended at an edge just the edges before it did, and the message is
  -- held for that edge; if an edge failed just the edges before some edge did.
  pub rotate-Delivered :
      (t : TryPushable E M) (p : Pushable E M) (f : Fanout E M) (m : M) (cs : List Again)
      → ((e : E) (m : M) → Answers log e m (t.try_push e m))
      → ((e : E) (m : M) → Takes log e m (p.push e m))
      → f.suspended ≡ none
      → Delivered m (map log f.edges) (call_again clone t p cs (rotate clone t f m))
  unfolding rotate
  rotate-Delivered t p f m cs law p_law e =
      call_again-Delivered t law m (map log f.edges) p p_law cs _
        (rw (e, rotate) (rotate_from-Delivered t f m law e))
