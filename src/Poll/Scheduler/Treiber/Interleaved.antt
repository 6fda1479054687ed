-- ===== src/Poll/Scheduler/Treiber/Interleaved.antt =====
-- The stack under any interleaving of the pushes' steps and the consumer's.
use areamy.Common.{ℕ, ◌≡◌, refl, sym, subst, false, Option, none, some, List, [], ◌∷◌, arith}
use areamy.Poll.Scheduler.Treiber.{
  Walk, idle, ended, taken, releasing, update, fresh_stack, take, release, next_in, advance_in,
  advance, Step, wakes, looks, links, exchanges, advances, World, handed, act, perform, start,
}
use areamy.Poll.Scheduler.Treiber.Sound.{
  Chain, Walks, Sound, Reached, wakes-Sound, looks-Sound, link_in-Sound, exchange_in-Reached,
}

-- The batch's first id is handed out, and the walk goes on from the link that was read.
release-Sound :
    (w : World) (i : ℕ) (b : Option ℕ) (xs ys : List ℕ)
    → b ≡ w.below i
    → Sound w xs (i ∷ ys)
    → Sound
        (record {
          stack = record w.stack { batch = b; queued = update w.queued i false; standing = idle };
          owed = update w.owed i false;
        })
        xs
        ys
release-Sound w i b xs ys e s = record {
  on_stack = s.on_stack;
  in_batch = subst (λ l. Chain w.below l ys) (sym e) s.in_batch.1;
  walks = tt;
  once = λ j. ground (arith, s.once j, s.once i);
  to_link = s.to_link;
  owing = λ j. ground (arith, s.owing j);
}

walk-Sound :
    (w : World) (walk : Walk) (xs ys : List ℕ)
    → Walks w.below w.batch walk
    → Sound w xs ys
    → Sound (record w { stack = record w.stack { standing = walk } }) xs ys
walk-Sound w walk xs ys h s = record {
  on_stack = s.on_stack;
  in_batch = s.in_batch;
  walks = h;
  once = s.once;
  to_link = s.to_link;
  owing = s.owing;
}

take-Sound :
    (w : World) (xs : List ℕ) → Sound w xs [] → Sound (record w { stack = take w.stack }) [] xs
unfolding take
take-Sound w xs s = record {
  on_stack = refl;
  in_batch = s.on_stack;
  walks = tt;
  once = λ j. ground (arith, s.once j);
  to_link = s.to_link;
  owing = s.owing;
}

-- `next` starts: the consumer goes to `out`, or reads the link of the batch's first id.
next_in-Reached :
    (w : World) (out : Walk) (l : Option ℕ)
    → w.batch ≡ l
    → (l ≡ none → Walks w.below w.batch out)
    → Reached w
    → Reached (handed w.owed (next_in w.stack out l))
unfolding next_in release handed
next_in-Reached w out none e h (xs, ys, s) = (xs, ys, walk-Sound w out xs ys (h refl) s)
next_in-Reached w out (some i) e h (xs, ys, s) =
    (xs, ys, walk-Sound w (releasing i (w.below i)) xs ys (e, refl) s)

advance_in-Reached :
    (w : World) (walk : Walk)
    → w.standing ≡ walk
    → Walks w.below w.batch walk
    → Reached w
    → Reached (handed w.owed (advance_in w.stack walk))
unfolding advance_in release handed
advance_in-Reached w idle e h r = next_in-Reached w ended w.batch refl (λ q. q) r
advance_in-Reached w taken e h r = next_in-Reached w idle w.batch refl (λ q. tt) r
advance_in-Reached w ended e h (xs, [], s) = ([], xs, take-Sound w xs s)
advance_in-Reached w ended e h (xs, y ∷ ys, s) = ground (arith, s.in_batch, h)
advance_in-Reached w (releasing i b) e h (xs, [], s) = ground (arith, s.in_batch, h)
advance_in-Reached w (releasing i b) e h (xs, y ∷ ys, s) = (
  xs,
  ys,
  release-Sound w i b xs ys h.1
      (subst (λ z. Sound w xs (z ∷ ys)) (ground (arith, s.in_batch, h)) s),
)

act-Reached : (w : World) (t : Step) → Reached w → Reached (act w t)
unfolding act advance
act-Reached w (wakes i) (xs, ys, s) = (xs, ys, wakes-Sound w i xs ys s)
act-Reached w (looks i) (xs, ys, s) = (xs, ys, looks-Sound w i xs ys s)
act-Reached w (links i) (xs, ys, s) = (xs, ys, link_in-Sound w i (w.stage i) xs ys refl s)
act-Reached w (exchanges i spurious) r = exchange_in-Reached w i spurious (w.stage i) refl r
act-Reached w advances (xs, ys, s) = advance_in-Reached w w.standing refl s.walks (xs, ys, s)

pub perform-Reached : (w : World) (ts : List Step) → Reached w → Reached (perform w ts)
unfolding perform
perform-Reached w [] r = r
perform-Reached w (t ∷ ts) r = perform-Reached (act w t) ts (act-Reached w t r)

pub start-Reached : (n : ℕ) → Reached (start n)
unfolding start fresh_stack
start-Reached n = (
  [],
  [],
  record {
    on_stack = refl;
    in_batch = refl;
    walks = tt;
    once = λ i. refl;
    to_link = λ i b e. ground arith;
    owing = λ i. refl;
  },
)
