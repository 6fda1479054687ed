-- ===== src/Work/Node/Stream.antt =====
-- What a work node's routine and its input promise, by what the routine took, what it is still to
-- put out, and what waits on the edge.
use areamy.Common.{
  Bool, true, false, Option, none, some, List, [], ◌∷◌, ◌++◌, ◌≡◌, refl, sym, ◌∙◌, ap, append-nil,
  append_assoc, map,
}
use areamy.Error.{fatal, any, closed, Result, ok, err, Op}
use areamy.Message.{Message, data', flush, marker}
use areamy.Work.Each.{rotated, work_each}
use areamy.Work.Each.Once.{Ran, Ended, work_each-Ended}
use areamy.Work.Node.{Routine, Inlet, Incoming, message, input_closed, starved, waited}

-- The list became longer, at its end.
pub record Extends {ℓ} {A : Type ℓ} (l l' : List A) : Type ℓ where
  pub news : List A
  pub same : l' ≡ l ++ news

module _ {ℓ} {A : Type ℓ} where
  abbrev pub by_news : {a b : List A} (news : List A) → b ≡ a ++ news → Extends a b
  by_news news same = record { news = news; same = same }

  pub Extends-eq : {a b : List A} → b ≡ a → Extends a b
  Extends-eq {a} e = by_news [] (e ∙ sym (append-nil a))

  pub Extends-refl : (l : List A) → Extends l l
  Extends-refl l = by_news [] (sym (append-nil l))

  pub Extends-trans : {a b c : List A} → Extends a b → Extends b c → Extends a c
  Extends-trans {a} x y =
      by_news (x.news ++ y.news)
        (y.same ∙ ap (λ l. l ++ y.news) x.same ∙ append_assoc a x.news y.news)

  -- Behind what stands before both.
  pub Extends-behind : (l : List A) {a b : List A} → Extends a b → Extends (l ++ a) (l ++ b)
  Extends-behind l {a} x = by_news x.news (ap (λ b. l ++ b) x.same ∙ sym (append_assoc l a x.news))

module _ {ℓ} {D Out S : Type ℓ} where
  -- A signal as the input had it; data that goes out is the routine's own.
  abbrev pub signal : Message Out S → List (Message D S)
  signal (data' o) = []
  signal (flush s) = flush s ∷ []
  signal (marker s) = marker s ∷ []

  abbrev pub signal_in : Option (Message Out S) → List (Message D S)
  signal_in none = []
  signal_in (some m) = signal m

  abbrev pub gave : Incoming (Message Out S) → List (Message D S)
  gave (message m) = signal m
  gave input_closed = []

module _ {ℓ} {D S : Type ℓ} where
  -- The signals among the messages that a node reads.
  abbrev pub signals : List (Message D S) → List (Message D S)
  signals [] = []
  signals (data' d ∷ ms) = signals ms
  signals (flush s ∷ ms) = flush s ∷ signals ms
  signals (marker s ∷ ms) = marker s ∷ signals ms

  pub signals-data : (ds : List D) → signals (map data' ds) ≡ []
  signals-data [] = refl
  signals-data (d ∷ ds) = signals-data ds

  pub signals-append : (a b : List (Message D S)) → signals (a ++ b) ≡ signals a ++ signals b
  signals-append [] b = refl
  signals-append (data' d ∷ a) b = signals-append a b
  signals-append (flush s ∷ a) b = ap (λ l. flush s ∷ l) (signals-append a b)
  signals-append (marker s ∷ a) b = ap (λ l. marker s ∷ l) (signals-append a b)

  pub Extends-signals : {a b : List (Message D S)} → Extends a b → Extends (signals a) (signals b)
  Extends-signals {a} x = by_news (signals x.news) (ap signals x.same ∙ signals-append a x.news)

module _ {ℓ} {D Out S : Type ℓ} where
  -- The signals among the messages that it put out.
  abbrev pub signals_out : List (Message Out S) → List (Message D S)
  signals_out [] = []
  signals_out (m ∷ ms) = signal m ++ signals_out ms

  pub signals_out-append :
      (a b : List (Message Out S)) → signals_out (a ++ b) ≡ signals_out a ++ signals_out b
  signals_out-append [] b = refl
  signals_out-append (m ∷ a) b =
      ap (λ l. signal m ++ l) (signals_out-append a b)
      ∙ sym (append_assoc (signal m) (signals_out a) (signals_out b))

  pub signals_out-data : (os : List Out) → signals_out (map data' os) ≡ []
  signals_out-data [] = refl
  signals_out-data (o ∷ os) = signals_out-data os

  pub signals-signal : (m : Message Out S) → signals (signal {D = D} m) ≡ signal m
  signals-signal (data' o) = refl
  signals-signal (flush s) = refl
  signals-signal (marker s) = refl

  pub signals-signal_in : (o : Option (Message Out S)) → signals (signal_in {D = D} o) ≡ signal_in o
  signals-signal_in none = refl
  signals-signal_in (some m) = signals-signal m

module _ {ℓ} {M : Type ℓ} where
  abbrev pub owed : Option M → List M
  owed none = []
  owed (some m) = m ∷ []

module _ {ℓ} {R Out : Type ℓ} (owes : R → List Out) where
  -- What `next` does to what the routine is to put out.
  abbrev pub NextOf : R → Result (Option Out) × R → Type ℓ
  NextOf x (ok none, x') = (owes x ≡ []) × (owes x' ≡ [])
  NextOf x (ok (some o), x') = owes x ≡ o ∷ owes x'
  NextOf x (err e, x') = Unit

  -- All that went out and is to go out, in order: `sent` went to the outputs, the routine's outputs
  -- follow, and the pending signal is behind them.
  abbrev pub leaving :
      {S : Type ℓ} → List (Message Out S) → R → Option (Message Out S) → List (Message Out S)
  leaving sent x pending = sent ++ (map data' (owes x) ++ owed pending)

module _ {ℓ} {R D Out S : Type ℓ} (owes : R → List Out) where
  pub signals_out-leaving :
      (sent : List (Message Out S)) (x : R) (p : Option (Message Out S))
      → signals_out {D = D} (leaving owes sent x p) ≡ signals_out sent ++ signals_out (owed p)
  signals_out-leaving sent x p =
      signals_out-append sent (map data' (owes x) ++ owed p)
      ∙ ap (λ l. signals_out sent ++ l)
          (signals_out-append (map data' (owes x)) (owed p)
            ∙ ap (λ l. l ++ signals_out (owed p)) (signals_out-data (owes x)))

-- A routine: it takes what it is sent, unless it fails, and puts out what it owes, in order.
module _ {ℓ} {R D Out : Type ℓ} (taken : R → List D) (owes : R → List Out) where
  abbrev pub Sent : R → D → Result (Unit {0}) × R → Type ℓ
  Sent x d (ok u, x') = taken x' ≡ taken x ++ d ∷ []
  Sent x d (err e, x') = Unit

  abbrev pub Kept : R → Result (Unit {0}) × R → Type ℓ
  Kept x (ok u, x') = taken x' ≡ taken x
  Kept x (err e, x') = Unit

  abbrev pub Gives : R → Result (Option Out) × R → Type ℓ
  Gives x (ok none, x') = (taken x' ≡ taken x) × (owes x ≡ []) × (owes x' ≡ [])
  Gives x (ok (some o), x') = (taken x' ≡ taken x) × (owes x ≡ o ∷ owes x')
  Gives x (err e, x') = Unit

  pub record RoutineLaws (r : Routine R D Out) : Type ℓ where
    pub on_send : (x : R) (d : D) → Sent x d (r.send x d)
    pub on_flush : (x : R) → Kept x (r.flush x)
    pub on_next : (x : R) → Gives x (r.next x)

-- An edge in a world where others push to it at any time.
module _ {ℓ} {X M : Type ℓ} (waiting : X → List M) where
  abbrev pub Grows : X → X → Type ℓ
  Grows x x' = Extends (waiting x) (waiting x')

  abbrev pub Reads : X → Result (Option M) × X → Type ℓ
  Reads x (ok (some m), x') = Extends (waiting x) (m ∷ waiting x')
  Reads x (ok none, x') = Grows x x'
  Reads x (err e, x') = Grows x x'

  pub record InletLaws (i : Inlet X M) : Type ℓ where
    pub on_poll : (x : X) → Reads x (i.poll x)
    pub on_wait : (x : X) → Grows x (i.wait_front x).1

  module _ {W : Type ℓ} (work : W → Op X (Unit {0}))
      (grows : (w : W) (x : X) → Grows x (work w x).1) where
    Ran-Grows : (l : List (W × Bool)) (x y : X) → Ran work l x y → Grows x y
    Ran-Grows [] x y e = rw e (Extends-refl (waiting y))
    Ran-Grows ((w, true) ∷ l) x y (h, ran) = Extends-trans (grows w x) (Ran-Grows l _ y ran)
    Ran-Grows ((w, false) ∷ l) x y (h, ran) = Extends-trans (grows w x) (Ran-Grows l _ y ran)

    Ended-Grows :
        (order : List W → List W) (before todo : List W) (x : X)
        (r : Result (Unit {0}) × List W × X)
        → Ended work order before todo x r
        → Grows x r.2
    Ended-Grows order before todo x (ok u, ws, y) (l, ran, p, k) = Ran-Grows l x y ran
    Ended-Grows order before todo x (err e, ws, y) (l, w, rest, z, ran, f, c, p, k) =
        Extends-trans (Ran-Grows l x z ran) (rw f at (grows w z))

    -- A round of the parents only adds to the edge.
    pub work_each-Grows : (ws : List W) (x : X) → Grows x (work_each work ws x).2
    work_each-Grows ws x =
        Ended-Grows rotated [] ws x (work_each work ws x) (work_each-Ended work ws x)

    waited-Grows :
        (ws : List W) (x : X) (onward : X → Result Bool × List W × X) (r : Result (Unit {0}) × X)
        → Grows x r.1
        → ((y : X) → Grows y (onward y).2)
        → Grows x (waited onward ws r).2
    waited-Grows ws x onward (ok u, y) g on = Extends-trans g (on y)
    waited-Grows ws x onward (err closed, y) g on = g
    waited-Grows ws x onward (err (fatal m), y) g on = g
    waited-Grows ws x onward (err (any e), y) g on = g

    pub starved-Grows :
        (wait : Op X (Unit {0}))
        → ((x : X) → Grows x (wait x).1)
        → (ws : List W) (x : X) → Grows x (starved work wait ws x).2
    unfolding starved
    starved-Grows wait g [] x = waited-Grows [] x _ (wait x) (g x) (work_each-Grows [])
    starved-Grows wait g (w ∷ ws) x = work_each-Grows (w ∷ ws) x
