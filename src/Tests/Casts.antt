-- ===== src/Tests/Casts.antt =====
-- The conversions of containers: nnysl/config.h.
use final_designer.Cast.{Cast, read_sequence, read_items, set_insert, ◌>>=◌, pure}
use final_designer.Cast.Containers.{to_vector, from_vector, from_set, to_map, from_map}
use final_designer.Cast.Maps.{from_map-to_map}
use final_designer.Cast.RoundTrip.{from_vector-to_vector}
use final_designer.Cast.Sets.{IsOrder}
use final_designer.Config.Var.{returns, throws}
use final_designer.Prelude.{
  zero, suc, ◌≡◌, refl, arith, Bool, true, false, not, ◌&&◌, [], ◌∷◌, ◌++◌, ◌||◌, Text, codes,
  text_eq, if◌then◌else◌,
}
use final_designer.Prelude.Order.{text_lt}
use final_designer.Tests.Document.{
  plain, items, documents, documents-IsSequential, documents-IsKeyed, print_doc,
}

-- `boost::lexical_cast` of truth values, to and from their names.
abbrev name_of : Bool → Text
name_of true = codes "true"
name_of false = codes "false"

abbrev to_name : Cast Bool Text
to_name b = pure (name_of b)

abbrev unquote : Text → Text
unquote (suc (suc zero) ∷ text) = text
unquote text = text

abbrev from_name : Cast Text Bool
from_name text =
    if text_eq (unquote text) (codes "true")
    then pure true
    else if text_eq (unquote text) (codes "false")
    then pure false
    else ([], throws (codes "bad lexical cast"))

from_name-to_name : (b : Bool) → from_name (documents.dump (documents.of_text (name_of b))) ≡ pure b
unfolding text_eq
from_name-to_name true = refl
from_name-to_name false = refl

abbrev bool_lt : Bool → Bool → Bool
bool_lt a b = not a && b

bool_lt-IsOrder : IsOrder bool_lt
bool_lt-IsOrder = record { trans = λ x y z h k. ground arith; asymm = λ x y h. ground arith }

from_vector-to_vector_example :
    (to_vector documents to_name (true ∷ false ∷ true ∷ []) >>= from_vector documents from_name)
    ≡ pure (true ∷ false ∷ true ∷ [])
from_vector-to_vector_example =
    from_vector-to_vector documents documents-IsSequential to_name from_name name_of (λ x. refl)
      from_name-to_name (true ∷ false ∷ true ∷ []) refl

abbrev bool_eq : Bool → Bool → Bool
bool_eq a b = (a && b) || (not a && not b)

-- A sequence with an item twice, out of order.
abbrev unsorted : Text
unsorted = print_doc (items ((2 ∷ codes "true") ∷ codes "false" ∷ codes "true" ∷ []))

reads :
    from_set documents bool_lt from_name unsorted
    ≡ (2 ∷ codes "true" ++ 2 ∷ codes "false" ++ 2 ∷ codes "true", returns (false ∷ true ∷ []))
unfolding from_set read_sequence read_items set_insert text_eq
reads = refl

from_map-to_map_example :
    (to_map documents to_name ((codes "a", true) ∷ (codes "b", false) ∷ [])
      >>= from_map documents from_name)
    ≡ pure ((codes "a", true) ∷ (codes "b", false) ∷ [])
unfolding text_lt text_eq
from_map-to_map_example =
    from_map-to_map documents documents-IsKeyed to_name from_name name_of (λ x. plain (name_of x))
      (λ x. (refl, loads x)) from_name-to_name ((codes "a", true) ∷ (codes "b", false) ∷ []) refl
      refl
  where
    loads : (x : Bool) → documents.load (name_of x) ≡ returns (plain (name_of x))
    loads true = refl
    loads false = refl
