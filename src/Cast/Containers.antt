-- ===== src/Cast/Containers.antt =====
-- The specialisations of `LexicalCast`, one for each container and direction. `from` converts a
-- text to an element and `to` an element to a text.
use final_designer.Cast.{
  Cast, set_insert, table_insert, push_back, say, quiet, read_sequence, read_map, write_sequence,
  write_map,
}
use final_designer.Prelude.{Bool, List, [], Text, text_eq}
use final_designer.Prelude.Order.{text_lt}
use final_designer.Yaml.{Api}

-- Pairs of a map compare by their keys.
abbrev pub key_lt : {A : Type 0} → Text × A → Text × A → Bool
key_lt x y = text_lt x.0 y.0

abbrev pub key_eq : {A : Type 0} → Text × A → Text × A → Bool
key_eq x y = text_eq x.0 y.0

module _ (api : Api) {A : Type 0} where
  unfoldable pub to_vector : Cast A Text → Cast (List A) Text
  unfolding write_sequence
  to_vector to = write_sequence api to

  unfoldable pub from_vector : Cast Text A → Cast Text (List A)
  unfolding read_sequence
  from_vector from = read_sequence api from quiet push_back []

  unfoldable pub to_list : Cast A Text → Cast (List A) Text
  unfolding write_sequence
  to_list to = write_sequence api to

  unfoldable pub from_list : Cast Text A → Cast Text (List A)
  unfolding read_sequence
  from_list from = read_sequence api from quiet push_back []

  -- A `std::set`, as the list of its elements in order; this conversion prints every item.
  unfoldable pub to_set : Cast A Text → Cast (List A) Text
  unfolding write_sequence
  to_set to = write_sequence api to

  unfoldable pub from_set : (A → A → Bool) → Cast Text A → Cast Text (List A)
  unfolding read_sequence set_insert
  from_set lt from = read_sequence api from say (set_insert lt) []

  unfoldable pub to_unordered_set : Cast A Text → Cast (List A) Text
  unfolding write_sequence
  to_unordered_set to = write_sequence api to

  unfoldable pub from_unordered_set : (A → A → Bool) → Cast Text A → Cast Text (List A)
  unfolding read_sequence table_insert
  from_unordered_set eq from = read_sequence api from quiet (table_insert eq) []

  unfoldable pub to_map : Cast A Text → Cast (List (Text × A)) Text
  unfolding write_map
  to_map to = write_map api to

  unfoldable pub from_map : Cast Text A → Cast Text (List (Text × A))
  unfolding read_map set_insert
  from_map from = read_map api from (set_insert key_lt) []

  unfoldable pub to_unordered_map : Cast A Text → Cast (List (Text × A)) Text
  unfolding write_map
  to_unordered_map to = write_map api to

  unfoldable pub from_unordered_map : Cast Text A → Cast Text (List (Text × A))
  unfolding read_map table_insert
  from_unordered_map from = read_map api from (table_insert key_eq) []
