-- ===== src/Work/Node/Round/Keeps.antt =====
-- What a search and the rounds of a work node with one output keep, and that a search ends.
use areamy.Common.{
  ℕ, zero, suc, ◌<◌, arith, Option, none, some, List, [], ◌∷◌, ◌++◌, ◌≡◌, refl, ◌⊎◌, inl, inr, map,
}
use areamy.Error.{Error, Result, ok, err}
use areamy.Graph.{TryPushable, Pushable, Closeable}
use areamy.Edge.Fanout.{Fanout, Rotation, rotate_from, resume}
use areamy.Edge.Fanout.Delivery.{Answers, Takes}
use areamy.Edge.Fanout.Delivery.Carries.{gives, Carries, rotate_from-Carries, resume-Carries}
use areamy.Work.Node.{Incoming, message, input_closed}
use areamy.Work.Node.Round.{
  WorkNode, again, search_loop, rotated_to, push_found, work_with, go_on, rounds_of,
}

-- A search whose turns, where they go round again, leave less to do.
module _ {ℓ} {Q M : Type ℓ} (left : Q → ℕ) where
  abbrev pub Less : ℕ → Result (Option (Incoming M)) × Q → Type 0
  Less n (ok none, s) = left s < n
  Less n (ok (some m), s) = Unit
  Less n (err e, s) = Unit

  again-some :
      (n : ℕ) (onward : Q → Option (Result (Incoming M)) × Q) (x : Result (Option (Incoming M)) × Q)
      → Less n x
      → ((s : Q) → left s < n → (found : Result (Incoming M)) × ((onward s).0 ≡ some found))
      → (found : Result (Incoming M)) × ((again onward x).0 ≡ some found)
  unfolding again
  again-some n onward (ok none, s) h on = on s h
  again-some n onward (ok (some m), s) h on = (ok m, refl)
  again-some n onward (err e, s) h on = (err e, refl)

  -- It ends in as many turns as there is to do, and one more.
  pub search_loop-some :
      (turn : Q → Result (Option (Incoming M)) × Q)
      → ((s : Q) → Less (left s) (turn s))
      → (turns : ℕ) (s : Q) → left s < turns
      → (found : Result (Incoming M)) × ((search_loop turn turns s).0 ≡ some found)
  unfolding search_loop
  search_loop-some turn less zero s h = absurd (omega arith)
  search_loop-some turn less (suc turns) s h =
      again-some (left s) (search_loop turn turns) (turn s) (less s)
        (λ s' h'. search_loop-some turn less turns s' (omega arith))

-- What a search comes to: `Goes` while it goes on, and `Ends` with what it found.
module _ {ℓ} {Q M : Type ℓ} (Goes : Q → Type ℓ) (Ends : Incoming M → Q → Type ℓ) where
  abbrev pub Turn : Result (Option (Incoming M)) × Q → Type ℓ
  Turn (ok none, s) = Goes s
  Turn (ok (some found), s) = Ends found s
  Turn (err e, s) = Unit

  abbrev pub Search : Option (Result (Incoming M)) × Q → Type ℓ
  Search (none, s) = Goes s
  Search (some (ok found), s) = Ends found s
  Search (some (err e), s) = Unit

  again-Search :
      (onward : Q → Option (Result (Incoming M)) × Q) (x : Result (Option (Incoming M)) × Q)
      → Turn x
      → ((s : Q) → Goes s → Search (onward s))
      → Search (again onward x)
  unfolding again
  again-Search onward (ok none, s) h on = on s h
  again-Search onward (ok (some found), s) h on = h
  again-Search onward (err e, s) h on = tt

  pub search_loop-Search :
      (turn : Q → Result (Option (Incoming M)) × Q)
      → ((s : Q) → Goes s → Turn (turn s))
      → (turns : ℕ) (s : Q) → Goes s
      → Search (search_loop turn turns s)
  unfolding search_loop
  search_loop-Search turn on zero s h = h
  search_loop-Search turn on (suc turns) s h =
      again-Search (search_loop turn turns) (turn s) (on s h) (search_loop-Search turn on turns)

-- `Holds sent s` is what is to be known of a node of which `sent` went out.
module _ {ℓ} {Q M : Type ℓ} (Holds : List M → Q → Type ℓ) where
  abbrev pub Given : List M → Incoming M → Q → Type ℓ
  Given sent (message m) s = Holds (sent ++ m ∷ []) s
  Given sent input_closed s = Holds sent s

  abbrev pub Turned : List M → Result (Option (Incoming M)) × Q → Type ℓ
  Turned sent = Turn (Holds sent) (Given sent)

  abbrev pub Searched : List M → Option (Result (Incoming M)) × Q → Type ℓ
  Searched sent = Search (Holds sent) (Given sent)

  module _ {E : Type ℓ} (clone : M → M) (log : E → List M) (base : List (List M)) where
    -- Rounds that did not fail: every edge took the messages `sent` since it had taken `base`, of
    -- which it may hold the last.
    pub record Put (n : WorkNode Q E M) : Type ℓ where
      pub sent : List M
      pub carried : Carries clone log base sent n.outputs
      pub holds : Holds sent n.search

    abbrev pub Rounded : Option (Result (Unit {0})) × WorkNode Q E M → Type ℓ
    Rounded (some (err e), n) = Unit
    Rounded (some (ok u), n) = Put n
    Rounded (none, n) = Put n

    rotated_to-Rounded :
        (sent : List M) (s : Q) (x : Result Rotation × Fanout E M)
        → ((e : Error) × (x.0 ≡ err e)) ⊎ Carries clone log base sent x.1
        → Holds sent s
        → Rounded (rotated_to s x)
    unfolding rotated_to
    rotated_to-Rounded sent s (ok a, f) (inl (e, h)) k = cc
    rotated_to-Rounded sent s (ok a, f) (inr c) k = record { sent = sent; carried = c; holds = k }
    rotated_to-Rounded sent s (err e, f) h k = tt

    module _ (t : TryPushable E M) (p : Pushable E M) (c : Closeable E)
        (law : (e : E) (m : M) → Answers log e m (t.try_push e m))
        (p_law : (e : E) (m : M) → Takes log e m (p.push e m)) where
      push_found-Rounded :
          (sent : List M) (f : Fanout E M) (x : Option (Result (Incoming M)) × Q)
          → f.suspended ≡ none
          → map log f.edges ≡ gives clone sent base
          → Searched sent x
          → Rounded (push_found clone t c f x)
      unfolding push_found
      push_found-Rounded sent f (none, s) e h k = record {
        sent = sent;
        carried = inl (e, h);
        holds = k;
      }
      push_found-Rounded sent f (some (err y), s) e h k = tt
      push_found-Rounded sent f (some (ok (message m)), s) e h k =
          rotated_to-Rounded (sent ++ m ∷ []) s (rotate_from clone t f 0 m)
            (rotate_from-Carries clone log base t p law p_law sent f m e h) k
      push_found-Rounded sent f (some (ok input_closed), s) e h k = tt

      work_with-Rounded :
          (next_message : Q → Option (Result (Incoming M)) × Q) (n : WorkNode Q E M) (sent : List M)
          → Carries clone log base sent n.outputs
          → Holds sent n.search
          → Searched sent (next_message n.search)
          → Rounded (work_with next_message clone t p c n)
      unfolding work_with
      work_with-Rounded next_message n sent (inl (e, h)) k found =
          rw (e, work_with) (push_found-Rounded sent n.outputs (next_message n.search) e h found)
      work_with-Rounded next_message n sent (inr (ms, m, k, s, (held, e, at_k, given, d))) holds
            found =
          rw (e, work_with)
            (rotated_to-Rounded sent n.search (resume clone t p n.outputs)
              (resume-Carries clone log base t p law p_law sent n.outputs
                (inr (ms, m, k, s, (held, e, at_k, given, d))))
              holds)

      go_on-Rounded :
          (onward : WorkNode Q E M → Option (Result (Unit {0})) × WorkNode Q E M)
          (x : Option (Result (Unit {0})) × WorkNode Q E M)
          → Rounded x
          → ((n : WorkNode Q E M) → Put n → Rounded (onward n))
          → Rounded (go_on onward x)
      unfolding go_on
      go_on-Rounded onward (some (ok u), n) h on = on n h
      go_on-Rounded onward (none, n) h on = h
      go_on-Rounded onward (some (err e), n) h on = tt

      -- What a search keeps, rounds keep.
      pub rounds_of-Rounded :
          (search : ℕ → Q → Option (Result (Incoming M)) × Q)
          → ((turns : ℕ) (sent : List M) (s : Q) → Holds sent s → Searched sent (search turns s))
          → (turns : List ℕ) (n : WorkNode Q E M) → Put n
          → Rounded (rounds_of (λ k. work_with (search k) clone t p c) turns n)
      unfolding rounds_of
      rounds_of-Rounded search on [] n h = h
      rounds_of-Rounded search on (turns ∷ more) n h =
          go_on-Rounded _ (work_with (search turns) clone t p c n)
            (work_with-Rounded (search turns) n h.sent h.carried h.holds
              (on turns h.sent n.search h.holds))
            (rounds_of-Rounded search on more)
