-- ===== src/Work/Pulled.antt =====
-- work/pulled.rs: a chain that is pulled, run as a work node.
--
-- The chain is a value of the client's type with its `pull`. A round is the one that all work nodes
-- share (Work.Node.Round), with one pull for its search. A closed chain is an error of the round like
-- another, and leaves the outputs open.
mod Tests
use areamy.Common.{
  ℕ, Option, none, some, List, [], ◌∷◌, ◌++◌, ◌≡◌, refl, sym, ◌∙◌, ap, append-nil, append_assoc,
  inl, map,
}
use areamy.Error.{Result, ok, err}
use areamy.Graph.{TryPushable, Pushable, Closeable}
use areamy.Edge.Fanout.Delivery.{Answers, Takes}
use areamy.Work.Node.{Incoming, message}
use areamy.Work.Node.Round.{WorkNode, work_with, rounds_of}
use areamy.Work.Node.Round.Keeps.{Rounded, rounds_of-Rounded, Searched}

module _ {ℓ} {Q M : Type ℓ} where
  pulled : Result M × Q → Option (Result (Incoming M)) × Q
  pulled (ok m, q) = (some (ok (message m)), q)
  pulled (err e, q) = (some (err e), q)

module _ {ℓ} {Q M : Type ℓ} (given : Q → List M) where
  -- The chain's own account of what it gave.
  abbrev pub Pulls : Q → Result M × Q → Type ℓ
  Pulls q (ok m, q') = given q' ≡ given q ++ m ∷ []
  Pulls q (err e, q') = Unit

  -- Since the chain had given `before`, it gave just what went out.
  abbrev pub GaveOut : List M → List M → Q → Type ℓ
  GaveOut before sent q = given q ≡ before ++ sent

module _ {ℓ} {Q E M : Type ℓ} (pull : Q → Result M × Q) (clone : M → M) (t : TryPushable E M)
    (p : Pushable E M) where
  -- A pull never says that its input closed, so the outputs are not closed here.
  left_open : Closeable E
  left_open = record { close = λ e. (ok tt, e) }

  -- `Workable::work`: one round.
  pub work : WorkNode Q E M → Option (Result (Unit {0})) × WorkNode Q E M
  unfolding pulled left_open
  work n = work_with (λ q. pulled (pull q)) clone t p left_open n

  module _ (given : Q → List M) where
    pulled-Searched :
        (before sent : List M) (q : Q) (x : Result M × Q)
        → Pulls given q x
        → GaveOut given before sent q
        → Searched (GaveOut given before) sent (pulled x)
    unfolding pulled
    pulled-Searched before sent q (ok m, q') h g =
        h ∙ ap (λ l. l ++ m ∷ []) g ∙ append_assoc before sent (m ∷ [])
    pulled-Searched before sent q (err e, q') h g = tt

    module _ (log : E → List M) (law : (e : E) (m : M) → Answers log e m (t.try_push e m))
        (p_law : (e : E) (m : M) → Takes log e m (p.push e m))
        (pulls : (q : Q) → Pulls given q (pull q)) where
      -- A pulled chain with nothing held on its outputs, after any rounds of `work` that do not fail:
      -- every output took the same messages, in order, but that the last may be held for some of them;
      -- and these are just what the chain gave, each pulled once and none while one was held.
      pub rounds-GaveOut :
          (rounds : List ℕ) (n : WorkNode Q E M)
          → n.outputs.suspended ≡ none
          → Rounded
              (GaveOut given (given n.search))
              clone
              log
              (map log n.outputs.edges)
              (rounds_of (λ k. work) rounds n)
      unfolding work left_open
      rounds-GaveOut rounds n e =
          rounds_of-Rounded (GaveOut given (given n.search)) clone log (map log n.outputs.edges) t p
            _ law p_law (λ k q. pulled (pull q))
            (λ k sent q h. pulled-Searched (given n.search) sent q (pull q) (pulls q) h) rounds n
            (record {
              sent = [];
              carried = inl (e, refl);
              holds = sym (append-nil (given n.search));
            })
