-- ===== src/Message.antt =====
-- message.rs: what travels along the edges of a graph.
use areamy.Common.{Option, none, some, List, [], ◌∷◌}

pub data Message {ℓ κ} (D : Type ℓ) (S : Type κ) : Type (ℓ ⊔ κ) where
  data' : D → Message D S
  flush : S → Message D S
  marker : S → Message D S

module _ {ℓ κ} {D : Type ℓ} {S : Type κ} where
  -- `Message::data` and `Message::as_data`, which differ in ownership only.
  abbrev pub as_data : Message D S → Option D
  as_data (data' d) = some d
  as_data (flush s) = none
  as_data (marker s) = none

  -- `Message::data_from_iter`.
  pub data_from_iter : List (Message D S) → List D
  data_from_iter [] = []
  data_from_iter (m ∷ ms) = elim m [
    | data' d ↦ d ∷ data_from_iter ms
    | flush s ↦ data_from_iter ms
    | marker s ↦ data_from_iter ms
  ]
