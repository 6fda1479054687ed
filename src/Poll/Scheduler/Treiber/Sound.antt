-- ===== src/Poll/Scheduler/Treiber/Sound.antt =====
-- An invariant of the stack, which every step of a push keeps.
use areamy.Common.{
  ℕ, ◌+◌, ◌≡◌, refl, sym, ◌∙◌, subst, Bool, true, false, Option, none, some, List, [], ◌∷◌, arith,
  if◌then◌else◌, ◌==◌, Bool-cases, inl, inr,
}
use areamy.Poll.Scheduler.Treiber.{
  Stage, published, claimed, seen, linked, Walk, idle, ended, taken, releasing, update, link_eq,
  claim, look_in, link_in, exchange_in, wakes, looks, World, act,
}

abbrev pub count : ℕ → List ℕ → ℕ
count i [] = 0
count i (x ∷ xs) = (if i == x then 1 else 0) + count i xs

abbrev pub bit : Bool → ℕ
bit true = 1
bit false = 0

-- 1 for an id whose push has not published it yet.
abbrev pub under_way : Stage → ℕ
under_way published = 0
under_way claimed = 1
under_way (seen b) = 1
under_way (linked b) = 1

-- The ids that the links lead through from `l` on.
abbrev pub Chain : (ℕ → Option ℕ) → Option ℕ → List ℕ → Type 0
Chain below l [] = l ≡ none
Chain below l (x ∷ xs) = (l ≡ some x) × Chain below (below x) xs

-- The consumer is at the end of its batch where it says so, and a link that it has read is its
-- id's still.
abbrev pub Walks : (ℕ → Option ℕ) → Option ℕ → Walk → Type 0
Walks below batch idle = Unit
Walks below batch ended = batch ≡ none
Walks below batch taken = Unit
Walks below batch (releasing i b) = (batch ≡ some i) × (b ≡ below i)

pub record Sound (w : World) (xs ys : List ℕ) : Type 0 where
  pub on_stack : Chain w.below w.head xs
  pub in_batch : Chain w.below w.batch ys
  pub walks : Walks w.below w.batch w.standing
  pub once : (i : ℕ) → count i xs + count i ys + under_way (w.stage i) ≡ bit (w.queued i)
  pub to_link : (i : ℕ) (b : Option ℕ) → w.stage i ≡ linked b → w.below i ≡ b
  pub owing : (i : ℕ) → w.owed i ≡ w.queued i

-- A link that leads out of no chain may change.
Chain-update :
    (below : ℕ → Option ℕ) (i : ℕ) (b l : Option ℕ) (xs : List ℕ)
    → count i xs ≡ 0
    → Chain below l xs
    → Chain (update below i b) l xs
Chain-update below i b l [] z c = c
Chain-update below i b l (x ∷ xs) z (e, c) = (
  e,
  subst (λ l. Chain (update below i b) l xs) (ground (arith, z))
      (Chain-update below i b (below x) xs (ground arith) c),
)

Walks-update :
    (below : ℕ → Option ℕ) (i : ℕ) (b l : Option ℕ) (walk : Walk) (ys : List ℕ)
    → count i ys ≡ 0
    → Chain below l ys
    → Walks below l walk
    → Walks (update below i b) l walk
Walks-update below i b l idle ys z c w = tt
Walks-update below i b l ended ys z c w = w
Walks-update below i b l taken ys z c w = tt
Walks-update below i b l (releasing j b') [] z c w = ground (arith, c, w)
Walks-update below i b l (releasing j b') (y ∷ ys) z c w = ground (arith, c.0, w, z)

pub wakes-Sound :
    (w : World) (i : ℕ) (xs ys : List ℕ) → Sound w xs ys → Sound (act w (wakes i)) xs ys
unfolding act claim
wakes-Sound w i xs ys s = record {
  on_stack = ground (arith, s.on_stack);
  in_batch = ground (arith, s.in_batch);
  walks = ground (arith, s.walks);
  once = λ j. ground (arith, s.once j);
  to_link = λ j b e. ground (arith, s.to_link j b, s.once j);
  owing = λ j. ground (arith, s.owing j);
}

pub looks-Sound :
    (w : World) (i : ℕ) (xs ys : List ℕ) → Sound w xs ys → Sound (act w (looks i)) xs ys
unfolding act look_in
looks-Sound w i xs ys s = record {
  on_stack = ground (arith, s.on_stack);
  in_batch = ground (arith, s.in_batch);
  walks = ground (arith, s.walks);
  once = λ j. ground (arith, s.once j);
  to_link = λ j b e. ground (arith, s.to_link j b);
  owing = λ j. ground (arith, s.owing j);
}

pub link_in-Sound :
    (w : World) (i : ℕ) (g : Stage) (xs ys : List ℕ)
    → w.stage i ≡ g
    → Sound w xs ys
    → Sound (record w { stack = link_in w.stack i g }) xs ys
unfolding link_in
link_in-Sound w i published xs ys e s = s
link_in-Sound w i claimed xs ys e s = s
link_in-Sound w i (linked b) xs ys e s = s
link_in-Sound w i (seen b) xs ys e s = record {
  on_stack = Chain-update w.below i b w.head xs (ground (arith, s.once i)) s.on_stack;
  in_batch = Chain-update w.below i b w.batch ys (ground (arith, s.once i)) s.in_batch;
  walks =
      Walks-update w.below i b w.batch w.standing ys (ground (arith, s.once i)) s.in_batch s.walks;
  once = λ j. ground (arith, s.once j);
  to_link = λ j b' e. ground (arith, s.to_link j b');
  owing = s.owing;
}

link_eq_sound : (l l' : Option ℕ) → link_eq l l' ≡ true → l ≡ l'
link_eq_sound l l' e = ground arith

exchanged-Sound :
    (w : World) (i : ℕ) (b : Option ℕ) (xs ys : List ℕ)
    → w.stage i ≡ linked b
    → w.head ≡ b
    → Sound w xs ys
    → Sound
        (record w { stack = record w.stack { head = some i; stage = update w.stage i published } })
        (i ∷ xs)
        ys
exchanged-Sound w i b xs ys e h s = record {
  on_stack = (refl, subst (λ l. Chain w.below l xs) (h ∙ sym (s.to_link i b e)) s.on_stack);
  in_batch = s.in_batch;
  walks = s.walks;
  once = λ j. ground (arith, s.once j);
  to_link = λ j b' e. ground (arith, s.to_link j b');
  owing = s.owing;
}

again-Sound :
    (w : World) (i : ℕ) (b : Option ℕ) (xs ys : List ℕ)
    → w.stage i ≡ linked b
    → Sound w xs ys
    → Sound (record w { stack = record w.stack { stage = update w.stage i (seen w.head) } }) xs ys
again-Sound w i b xs ys e s = record {
  on_stack = s.on_stack;
  in_batch = s.in_batch;
  walks = s.walks;
  once = λ j. ground (arith, s.once j);
  to_link = λ j b' e. ground (arith, s.to_link j b');
  owing = s.owing;
}

-- The ids on the stack and in the batch, some lists of them.
abbrev pub Reached : World → Type 0
Reached w = (xs ys : List ℕ) × Sound w xs ys

pub exchange_in-Reached :
    (w : World) (i : ℕ) (spurious : Bool) (g : Stage)
    → w.stage i ≡ g
    → Reached w
    → Reached (record w { stack = exchange_in w.stack i spurious g })
unfolding exchange_in
exchange_in-Reached w i true (linked b) e (xs, ys, s) = (xs, ys, again-Sound w i b xs ys e s)
exchange_in-Reached w i false (linked b) e (xs, ys, s) = elim (Bool-cases (link_eq w.head b)) [
  | inl same ↦ (i ∷ xs, ys, rw same (exchanged-Sound w i b xs ys e (link_eq_sound w.head b same) s))
  | inr other ↦ (xs, ys, rw other (again-Sound w i b xs ys e s))
]
exchange_in-Reached w i true published e r = r
exchange_in-Reached w i true claimed e r = r
exchange_in-Reached w i true (seen b) e r = r
exchange_in-Reached w i false published e r = r
exchange_in-Reached w i false claimed e r = r
exchange_in-Reached w i false (seen b) e r = r
