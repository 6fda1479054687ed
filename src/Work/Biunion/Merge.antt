-- ===== src/Work/Biunion/Merge.antt =====
-- What leaves a node with two inputs is a merge of what its sides read.
use areamy.Common.{
  Option, none, some, List, [], ◌∷◌, ◌++◌, ◌≡◌, refl, sym, ◌∙◌, ap, ◌⊎◌, inl, inr, append-nil,
  append_assoc, map,
}
use areamy.Error.{Result, ok, err}
use areamy.Message.{Message, data', flush, marker}
use areamy.Work.Node.Stream.{
  Extends, by_news, Extends-refl, Extends-trans, Extends-behind, signal, signals_out,
  signals_out-leaving, owed, leaving, Grows, Reads,
}
use areamy.Work.Biunion.{BiunionRoutine, Inlets}

-- A message that the node read, by its side.
pub data Read {ℓ} (D E S : Type ℓ) : Type ℓ where
  from_left : Message D S → Read D E S
  from_right : Message E S → Read D E S

module _ {ℓ} {D E S : Type ℓ} where
  abbrev pub on_left : Read D E S → List (Message D S)
  on_left (from_left m) = m ∷ []
  on_left (from_right m) = []

  abbrev pub on_right : Read D E S → List (Message E S)
  on_right (from_left m) = []
  on_right (from_right m) = m ∷ []

  abbrev pub data_of : Read D E S → List (D ⊎ E)
  data_of (from_left (data' d)) = inl d ∷ []
  data_of (from_right (data' e)) = inr e ∷ []
  data_of (from_left (flush o)) = []
  data_of (from_left (marker o)) = []
  data_of (from_right (flush o)) = []
  data_of (from_right (marker o)) = []

  abbrev pub signal_of : {Out : Type ℓ} → Read D E S → List (Message Out S)
  signal_of (from_left m) = signal m
  signal_of (from_right m) = signal m

-- What each of them adds, in order.
abbrev pub each_of {ℓ} : {A B : Type ℓ} → (A → List B) → List A → List B
each_of f [] = []
each_of f (a ∷ l) = f a ++ each_of f l

each_of-last {ℓ} :
    {A B : Type ℓ} (f : A → List B) (l : List A) (a : A)
    → each_of f (l ++ a ∷ []) ≡ each_of f l ++ f a
each_of-last f [] a = append-nil (f a)
each_of-last f (b ∷ l) a =
    ap (λ m. f b ++ m) (each_of-last f l a) ∙ sym (append_assoc (f b) (each_of f l) (f a))

module _ {ℓ} {R D E : Type ℓ} (taken : R → List (D ⊎ E)) where
  -- A side of the routine.
  abbrev pub Took : {A : Type ℓ} → (A → D ⊎ E) → R → A → Result (Unit {0}) × R → Type ℓ
  Took side x d (ok u, x') = taken x' ≡ taken x ++ side d ∷ []
  Took side x d (err e, x') = Unit

  abbrev pub Kept : R → Result (Unit {0}) × R → Type ℓ
  Kept x (ok u, x') = taken x' ≡ taken x
  Kept x (err e, x') = Unit

module _ {ℓ} {R D E Out : Type ℓ} (taken : R → List (D ⊎ E)) (owes : R → List Out) where
  abbrev pub Gives : R → Result (Option Out) × R → Type ℓ
  Gives x (ok none, x') = (taken x' ≡ taken x) × (owes x ≡ []) × (owes x' ≡ [])
  Gives x (ok (some o), x') = (taken x' ≡ taken x) × (owes x ≡ o ∷ owes x')
  Gives x (err e, x') = Unit

  pub record BiunionLaws (r : BiunionRoutine R D E Out) : Type ℓ where
    pub on_send_left : (x : R) (d : D) → Took taken inl x d (r.send_left x d)
    pub on_send_right : (x : R) (e : E) → Took taken inr x e (r.send_right x e)
    pub on_flush : (x : R) → Kept taken x (r.flush x)
    pub on_next : (x : R) → Gives x (r.next x)

module _ {ℓ} {D E S X : Type ℓ} (left_waiting : X → List (Message D S))
    (right_waiting : X → List (Message E S)) where
  -- Both edges only became longer.
  abbrev pub BothGrow : X → X → Type ℓ
  BothGrow w w' = Grows left_waiting w w' × Grows right_waiting w w'

  -- What a poll of a side did to both edges.
  abbrev pub Polls :
      {A : Type ℓ} → (Message A S → Read D E S) → X → Result (Option (Message A S)) × X → Type ℓ
  Polls from w (ok (some m), w') =
      Extends (left_waiting w) (on_left (from m) ++ left_waiting w')
      × Extends (right_waiting w) (on_right (from m) ++ right_waiting w')
  Polls from w (ok none, w') = BothGrow w w'
  Polls from w (err e, w') = BothGrow w w'

  pub Polls-left :
      (w : X) (a : Result (Option (Message D S)) × X)
      → Reads left_waiting w a
      → Grows right_waiting w a.1
      → Polls from_left w a
  Polls-left w (ok (some m), w') l g = (l, g)
  Polls-left w (ok none, w') l g = (l, g)
  Polls-left w (err e, w') l g = (l, g)

  pub Polls-right :
      (w : X) (a : Result (Option (Message E S)) × X)
      → Reads right_waiting w a
      → Grows left_waiting w a.1
      → Polls from_right w a
  Polls-right w (ok (some m), w') r g = (g, r)
  Polls-right w (ok none, w') r g = (g, r)
  Polls-right w (err e, w') r g = (g, r)

  pub record InletsLaws (i : Inlets X (Message D S) (Message E S)) : Type ℓ where
    pub left_reads : (w : X) → Reads left_waiting w (i.poll_left w)
    pub left_grows : (w : X) → Grows right_waiting w (i.poll_left w).1
    pub right_reads : (w : X) → Reads right_waiting w (i.poll_right w)
    pub right_grows : (w : X) → Grows left_waiting w (i.poll_right w).1
    pub on_wait : (w : X) → BothGrow w (i.wait_any w).1

module _ {ℓ} {R D E Out S X : Type ℓ} (taken : R → List (D ⊎ E)) (owes : R → List Out)
    (left_waiting : X → List (Message D S)) (right_waiting : X → List (Message E S)) where
  -- Since the routine was `x₀`, with the signal `p₀` pending, in the world `w₀`, the node put out
  -- `sent`, and is at `x`, `p` and `w` now. It read the messages `reads`: each side's are those that
  -- came on it, in order. The routine took their data; and what left the node and is to leave it
  -- goes on in order, with the signals of `reads` in the order they were read.
  pub record Merged (x₀ : R) (p₀ : Option (Message Out S)) (w₀ : X) (sent : List (Message Out S))
      (x : R) (p : Option (Message Out S)) (w : X) : Type ℓ where
    pub reads : List (Read D E S)
    pub left_side : Extends (left_waiting w₀) (each_of on_left reads ++ left_waiting w)
    pub right_side : Extends (right_waiting w₀) (each_of on_right reads ++ right_waiting w)
    pub took : taken x ≡ taken x₀ ++ each_of data_of reads
    pub leaves : Extends (leaving owes [] x₀ p₀) (leaving owes sent x p)
    pub in_order :
        signals_out {D = Out} (leaving owes sent x p)
        ≡ signals_out (leaving owes [] x₀ p₀) ++ each_of signal_of reads

  module _ (x₀ : R) (p₀ : Option (Message Out S)) (w₀ : X) where
    pub Merged-start : Merged x₀ p₀ w₀ [] x₀ p₀ w₀
    Merged-start = record {
      reads = [];
      left_side = Extends-refl (left_waiting w₀);
      right_side = Extends-refl (right_waiting w₀);
      took = sym (append-nil (taken x₀));
      leaves = Extends-refl (leaving owes [] x₀ p₀);
      in_order = sym (append-nil (signals_out (leaving owes [] x₀ p₀)));
    }

    -- What leaves is the same.
    Merged-same :
        (sent sent' : List (Message Out S)) (x x' : R) (p p' : Option (Message Out S)) (w : X)
        → taken x' ≡ taken x
        → leaving owes sent' x' p' ≡ leaving owes sent x p
        → Merged x₀ p₀ w₀ sent x p w
        → Merged x₀ p₀ w₀ sent' x' p' w
    Merged-same sent sent' x x' p p' w t l h = record {
      reads = h.reads;
      left_side = h.left_side;
      right_side = h.right_side;
      took = t ∙ h.took;
      leaves = rw l h.leaves;
      in_order = ap signals_out l ∙ h.in_order;
    }

    pub Merged-grow :
        (sent : List (Message Out S)) (x : R) (p : Option (Message Out S)) (w w' : X)
        → BothGrow left_waiting right_waiting w w'
        → Merged x₀ p₀ w₀ sent x p w
        → Merged x₀ p₀ w₀ sent x p w'
    Merged-grow sent x p w w' (l, r) h = record {
      reads = h.reads;
      left_side = Extends-trans h.left_side (Extends-behind (each_of on_left h.reads) l);
      right_side = Extends-trans h.right_side (Extends-behind (each_of on_right h.reads) r);
      took = h.took;
      leaves = h.leaves;
      in_order = h.in_order;
    }

    -- A side that is behind what it read before.
    read_behind :
        {A : Type ℓ} (of : Read D E S → List A) (a b c : List A) (reads : List (Read D E S))
        (m : Read D E S)
        → Extends a (each_of of reads ++ b)
        → Extends b (of m ++ c)
        → Extends a (each_of of (reads ++ m ∷ []) ++ c)
    read_behind of a b c reads m x y =
        rw (each_of-last of reads m, append_assoc (each_of of reads) (of m) c)
          (Extends-trans x (Extends-behind (each_of of reads) y))

    -- The node, with nothing to put out, reads a message.
    pub Merged-reads :
        (sent : List (Message Out S)) (x x' : R) (p' : Option (Message Out S)) (w w' : X)
        (m : Read D E S)
        → owes x ≡ []
        → taken x' ≡ taken x ++ data_of m
        → signals_out {D = Out} (owed p') ≡ signal_of m
        → Extends (left_waiting w) (on_left m ++ left_waiting w')
        → Extends (right_waiting w) (on_right m ++ right_waiting w')
        → Merged x₀ p₀ w₀ sent x none w
        → Merged x₀ p₀ w₀ sent x' p' w'
    Merged-reads sent x x' p' w w' m e t s l r h = record {
      reads = h.reads ++ m ∷ [];
      left_side = read_behind on_left _ _ _ h.reads m h.left_side l;
      right_side = read_behind on_right _ _ _ h.reads m h.right_side r;
      took =
          t
          ∙ ap (λ l. l ++ data_of m) h.took
          ∙ append_assoc (taken x₀) (each_of data_of h.reads) (data_of m)
          ∙ ap (λ l. taken x₀ ++ l) (sym (each_of-last data_of h.reads m));
      leaves =
          Extends-trans h.leaves
            (by_news (map data' (owes x') ++ owed p') (rw (e, append-nil sent)));
      in_order =
          signals_out-leaving owes sent x' p'
          ∙ ap (λ l. signals_out sent ++ l) s
          ∙ ap (λ l. l ++ signal_of m)
              (sym (append-nil (signals_out sent))
                ∙ sym (signals_out-leaving owes sent x none)
                ∙ h.in_order)
          ∙ append_assoc (signals_out (leaving owes [] x₀ p₀)) (each_of signal_of h.reads)
              (signal_of m)
          ∙ ap (λ l. signals_out (leaving owes [] x₀ p₀) ++ l)
              (sym (each_of-last signal_of h.reads m));
    }

    -- What a routine puts out next.
    pub Merged-next :
        (sent : List (Message Out S)) (x x' : R) (o : Out) (p : Option (Message Out S)) (w : X)
        → taken x' ≡ taken x
        → owes x ≡ o ∷ owes x'
        → Merged x₀ p₀ w₀ sent x p w
        → Merged x₀ p₀ w₀ (sent ++ data' o ∷ []) x' p w
    Merged-next sent x x' o p w t e =
        Merged-same sent (sent ++ data' o ∷ []) x x' p p w t
          (rw e (append_assoc sent (data' o ∷ []) (map data' (owes x') ++ owed p)))

    pub Merged-idle :
        (sent : List (Message Out S)) (x x' : R) (p : Option (Message Out S)) (w : X)
        → taken x' ≡ taken x
        → owes x ≡ []
        → owes x' ≡ []
        → Merged x₀ p₀ w₀ sent x p w
        → Merged x₀ p₀ w₀ sent x' p w
    Merged-idle sent x x' p w t e e' = Merged-same sent sent x x' p p w t (rw (e, e') refl)

    -- The pending signal goes out.
    pub Merged-owed :
        (sent : List (Message Out S)) (x : R) (m : Message Out S) (w : X)
        → owes x ≡ []
        → Merged x₀ p₀ w₀ sent x (some m) w
        → Merged x₀ p₀ w₀ (sent ++ m ∷ []) x none w
    Merged-owed sent x m w e =
        Merged-same sent (sent ++ m ∷ []) x x (some m) none w refl
          (rw (e, append-nil (sent ++ m ∷ [])) refl)
