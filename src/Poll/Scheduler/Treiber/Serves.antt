-- ===== src/Poll/Scheduler/Treiber/Serves.antt =====
-- What the consumer hands out when nothing else runs.
use areamy.Common.{
  ℕ, zero, suc, ◌+◌, ◌≡◌, refl, sym, ◌∙◌, ap, subst, Option, none, some, List, [], ◌∷◌, ◌++◌, arith,
  false, inl, inr, ◌⊎◌,
}
use areamy.Poll.Scheduler.Treiber.{
  Walk, idle, ended, taken, releasing, Stack, update, take, release, next_in, advance_in, advance,
  served, serve,
}
use areamy.Poll.Scheduler.Treiber.Sound.{Chain, Walks}

-- Left alone at `s`, the consumer hands out `ids` and comes to `s'`.
pub record Serves (s : Stack) (ids : List ℕ) (s' : Stack) : Type 0 where
  pub steps : ℕ
  pub hands : (m : ℕ) → serve (steps + m) s ≡ ids ++ serve m s'

append_assoc : (xs ys zs : List ℕ) → (xs ++ ys) ++ zs ≡ xs ++ (ys ++ zs)
append_assoc [] ys zs = refl
append_assoc (x ∷ xs) ys zs = ap (λ l. x ∷ l) (append_assoc xs ys zs)

plus_assoc : (j k m : ℕ) → j + k + m ≡ j + (k + m)
plus_assoc j k m = omega arith

one_more : (m : ℕ) → 1 + m ≡ suc m
one_more m = omega arith

none_more : (m : ℕ) → 0 + m ≡ m
none_more m = omega arith

Serves-trans :
    {s s' s'' : Stack} (xs ys : List ℕ)
    → Serves s xs s'
    → Serves s' ys s''
    → Serves s (xs ++ ys) s''
Serves-trans {s} {s''} xs ys f g = record {
  steps = f.steps + g.steps;
  hands = λ m.
      ap (λ n. serve n s) (plus_assoc f.steps g.steps m)
      ∙ f.hands (g.steps + m)
      ∙ ap (λ l. xs ++ l) (g.hands m)
      ∙ sym (append_assoc xs ys (serve m s''));
}

advance-Serves :
    {s s' : Stack} (o : Option ℕ)
    → advance s ≡ (o, s')
    → Serves s (elim o [ none ↦ [] | some i ↦ i ∷ [] ]) s'
unfolding serve served
advance-Serves {s} none e = record {
  steps = 1;
  hands = λ m. ap (λ n. serve n s) (one_more m) ∙ ap (served (serve m)) e;
}
advance-Serves {s} (some i) e = record {
  steps = 1;
  hands = λ m. ap (λ n. serve n s) (one_more m) ∙ ap (served (serve m)) e;
}

-- The batch is out, and what else there is is as it was.
record Out (s s' : Stack) : Type 0 where
  pub empty : s'.batch ≡ none
  pub same_head : s'.head ≡ s.head
  pub same_below : s'.below ≡ s.below
  pub at_start : s'.standing ≡ idle

-- About to ask its batch, the consumer hands out the first id there, and asks again.
first-Serves :
    (s : Stack) (walk : Walk) (i : ℕ)
    → s.standing ≡ walk
    → (walk ≡ idle) ⊎ (walk ≡ taken)
    → s.batch ≡ some i
    → Serves s
        (i ∷ [])
        (record s { batch = s.below i; queued = update s.queued i false; standing = idle })
unfolding advance advance_in next_in release
first-Serves s walk i e h b =
    Serves-trans [] (i ∷ []) (advance-Serves none (reads walk e h)) (advance-Serves (some i) refl)
  where
    reads :
        (walk : Walk)
        → s.standing ≡ walk
        → (walk ≡ idle) ⊎ (walk ≡ taken)
        → advance s ≡ (none, record s { standing = releasing i (s.below i) })
    reads idle e h = ap (advance_in s) e ∙ ap (next_in s ended) b
    reads taken e h = ap (advance_in s) e ∙ ap (next_in s idle) b
    reads ended e h = ground (arith, h)
    reads (releasing j l) e h = ground (arith, h)

batch-Serves :
    (ys : List ℕ) (s : Stack)
    → s.standing ≡ idle
    → Chain s.below s.batch ys
    → (s' : Stack) × Serves s ys s' × Out s s'
batch-Serves [] s e c = (
  s,
  record { steps = 0; hands = λ m. ap (λ n. serve n s) (none_more m) },
  record { empty = c; same_head = refl; same_below = refl; at_start = e },
)
batch-Serves (y ∷ ys) s e (b, c) =
    let (s', f, o) =
      batch-Serves ys
        (record s { batch = s.below y; queued = update s.queued y false; standing = idle }) refl
        c in
    (
      s',
      Serves-trans (y ∷ []) ys (first-Serves s idle y e (inl refl) b) f,
      record {
        empty = o.empty;
        same_head = o.same_head;
        same_below = o.same_below;
        at_start = o.at_start;
      },
    )

-- A batch that was just taken.
taken-Serves :
    (ys : List ℕ) (s : Stack)
    → s.standing ≡ taken
    → Chain s.below s.batch ys
    → (s' : Stack) × Serves s ys s' × Out s s'
unfolding advance advance_in next_in
taken-Serves [] s e c = (
  record s { standing = idle },
  advance-Serves none (ap (advance_in s) e ∙ ap (next_in s idle) c),
  record { empty = c; same_head = refl; same_below = refl; at_start = refl },
)
taken-Serves (y ∷ ys) s e (b, c) =
    let (s', f, o) =
      batch-Serves ys
        (record s { batch = s.below y; queued = update s.queued y false; standing = idle }) refl
        c in
    (
      s',
      Serves-trans (y ∷ []) ys (first-Serves s taken y e (inr refl) b) f,
      record {
        empty = o.empty;
        same_head = o.same_head;
        same_below = o.same_below;
        at_start = o.at_start;
      },
    )

-- Nothing is left.
pub record Drained (s : Stack) : Type 0 where
  pub no_head : s.head ≡ none
  pub no_batch : s.batch ≡ none
  pub at_rest : (s.standing ≡ idle) ⊎ (s.standing ≡ ended) ⊎ (s.standing ≡ taken)

ended-Serves :
    (xs : List ℕ) (s : Stack)
    → s.standing ≡ ended
    → Chain s.below s.head xs
    → (s' : Stack) × Serves s xs s' × Drained s'
unfolding advance advance_in take
ended-Serves xs s e c =
    let (s', f, o) = taken-Serves xs (take s) refl c in
    (
      s',
      Serves-trans [] xs (advance-Serves none (ap (advance_in s) e)) f,
      record { no_head = o.same_head; no_batch = o.empty; at_rest = inl o.at_start },
    )

out-Serves :
    (xs : List ℕ) (s : Stack)
    → s.standing ≡ idle
    → s.batch ≡ none
    → Chain s.below s.head xs
    → (s' : Stack) × Serves s xs s' × Drained s'
unfolding advance advance_in next_in
out-Serves xs s e b c =
    let (s', f, d) = ended-Serves xs (record s { standing = ended }) refl c in
    (
      s',
      Serves-trans [] xs (advance-Serves none (ap (advance_in s) e ∙ ap (next_in s ended) b)) f,
      d,
    )

-- The batch goes first, and then the stack.
then-Serves :
    (xs ys : List ℕ) (s s' : Stack)
    → Serves s ys s'
    → Out s s'
    → Chain s.below s.head xs
    → (s'' : Stack) × Serves s (ys ++ xs) s'' × Drained s''
then-Serves xs ys s s' f o c =
    let (s'', g, d) = out-Serves xs s' o.at_start o.empty (
      subst (λ below. Chain below s'.head xs) (sym o.same_below)
        (subst (λ l. Chain s.below l xs) (sym o.same_head) c)) in
    (s'', Serves-trans ys xs f g, d)

pub all-Serves :
    (xs ys : List ℕ) (s : Stack) (walk : Walk)
    → s.standing ≡ walk
    → Walks s.below s.batch walk
    → Chain s.below s.head xs
    → Chain s.below s.batch ys
    → (s' : Stack) × Serves s (ys ++ xs) s' × Drained s'
unfolding advance advance_in release
all-Serves xs ys s idle e w h c =
    let (s', f, o) = batch-Serves ys s e c in then-Serves xs ys s s' f o h
all-Serves xs ys s taken e w h c =
    let (s', f, o) = taken-Serves ys s e c in then-Serves xs ys s s' f o h
all-Serves xs [] s ended e w h c = ended-Serves xs s e h
all-Serves xs (y ∷ ys) s ended e w h c = ground (arith, w, c)
all-Serves xs [] s (releasing i b) e w h c = ground (arith, w, c)
all-Serves xs (y ∷ ys) s (releasing i b) e w h (c, cs) =
    let same : i ≡ y = ground (arith, c, w) in
    let at : s.below y ≡ b = ap s.below (sym same) ∙ sym w.1 in
    let s' = record s { batch = b; queued = update s.queued i false; standing = idle } in
    let (s'', f, d) = all-Serves xs ys s' idle refl tt h (subst (λ l. Chain s.below l ys) at cs) in
    (
      s'',
      Serves-trans (y ∷ []) (ys ++ xs)
          (subst (λ j. Serves s (j ∷ []) s') same (advance-Serves (some i) (ap (advance_in s) e)))
          f,
      d,
    )

pub serve-Drained : (m : ℕ) (s : Stack) → Drained s → serve m s ≡ []
unfolding serve served advance advance_in next_in take
serve-Drained zero s d = refl
serve-Drained (suc m) s d = elim d.at_rest [
  | inl e ↦
      ap (served (serve m)) (ap (advance_in s) e ∙ ap (next_in s ended) d.no_batch)
      ∙ serve-Drained m (record s { standing = ended })
          (record { no_head = d.no_head; no_batch = d.no_batch; at_rest = inr (inl refl) })
  | inr (inl e) ↦
      ap (served (serve m)) (ap (advance_in s) e)
      ∙ serve-Drained m (take s)
          (record { no_head = refl; no_batch = d.no_head; at_rest = inr (inr refl) })
  | inr (inr e) ↦
      ap (served (serve m)) (ap (advance_in s) e ∙ ap (next_in s idle) d.no_batch)
      ∙ serve-Drained m (record s { standing = idle })
          (record { no_head = d.no_head; no_batch = d.no_batch; at_rest = inl refl })
]
