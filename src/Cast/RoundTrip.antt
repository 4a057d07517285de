-- ===== src/Cast/RoundTrip.antt =====
-- A container that is written and read back.
use mathlib.Core.List.{foldl, map-id}
use final_designer.Cast.{
  Cast, ◌>>=◌, pure, set_insert, table_insert, push_back, read_sequence, write_sequence,
}
use final_designer.Cast.Containers.{
  to_vector, from_vector, to_set, from_set, to_unordered_set, from_unordered_set,
}
use final_designer.Cast.Loops.{concat_map, write_items-push_all, sequence-foldl}
use final_designer.Cast.Sets.{IsOrder, is_sorted, foldl-set_insert, foldl-table_insert}
use final_designer.Config.Var.{returns}
use final_designer.Prelude.{
  ◌≡◌, refl, sym, ap, ap₂, ◌∙◌, Bool, true, List, [], ◌∷◌, ◌++◌, Text, map, is_distinct, append-nil,
  append_assoc,
}
use final_designer.Yaml.{Api, IsSequential, push_all}

concat_nothing : {A : Type 0} (xs : List A) → concat_map (λ x. []) xs ≡ []
concat_nothing [] = refl
concat_nothing (x ∷ xs) = concat_nothing xs

foldl-push_back : {A : Type 0} (acc xs : List A) → foldl push_back acc xs ≡ acc ++ xs
foldl-push_back acc [] = sym (append-nil acc)
foldl-push_back acc (x ∷ xs) = foldl-push_back (acc ++ x ∷ []) xs ∙ append_assoc acc (x ∷ []) xs

-- An element whose text converts back, and whose item in a sequence is printed and read as it was.
module _ (api : Api) (laws : IsSequential api) {A : Type 0} (to : Cast A Text) (from : Cast Text A)
    (text : A → Text) (prints : (x : A) → to x ≡ pure (text x))
    (reads : (x : A) → from (api.dump (api.of_text (text x))) ≡ pure x) where
  open api use {Node, load, dump, size, at, of_text, null}

  abbrev pub item : A → Node
  item x = of_text (text x)

  -- The node that is written for the elements.
  abbrev pub written : List A → Node
  written xs = push_all api null (map item xs)

  self_foldl :
      {C : Type 0} (spoken : Text → Text) (add : C → A → C) (empty : C) (xs : List A)
      → load (dump (written xs)) ≡ returns (written xs)
      → (write_sequence api to xs
          >>= read_sequence api from (λ t. (spoken t, returns tt)) add empty)
        ≡ (concat_map (λ x. spoken (dump (item x))) xs, returns (foldl add empty xs))
  self_foldl spoken add empty xs h =
      sequence-foldl api to from text (λ x. x) spoken add empty xs laws prints reads h
      ∙ ap (λ ys. (concat_map (λ x. spoken (dump (item x))) xs, returns (foldl add empty ys)))
          (map-id xs)

  -- A vector that is written and read back is as it was, if the library keeps the items of a sequence
  -- in order and reads the document that it wrote, and each element's text converts back.
  pub from_vector-to_vector :
      (xs : List A)
      → load (dump (written xs)) ≡ returns (written xs)
      → (to_vector api to xs >>= from_vector api from) ≡ pure xs
  unfolding to_vector from_vector
  from_vector-to_vector xs h =
      self_foldl (λ t. []) push_back [] xs h
      ∙ ap₂ (λ (o : Text) (ys : List A). (o, returns ys)) (concat_nothing xs)
          (foldl-push_back [] xs)

  -- A set that is written and read back, whose elements are in order, is as it was under the same
  -- conditions; reading it prints the text of every item.
  from_set-to_set :
      (lt : A → A → Bool)
      → IsOrder lt
      → (xs : List A) → is_sorted lt xs ≡ true
      → load (dump (written xs)) ≡ returns (written xs)
      → (to_set api to xs >>= from_set api lt from)
        ≡ (concat_map (λ x. dump (item x)) xs, returns xs)
  unfolding to_set from_set
  from_set-to_set lt order xs sorted h =
      self_foldl (λ t. t) (set_insert lt) [] xs h
      ∙ ap (λ (ys : List A). (concat_map (λ x. dump (item x)) xs, returns ys))
          (foldl-set_insert lt order [] xs sorted)

  -- So is an unordered set, whose elements are distinct.
  pub from_unordered_set-to_unordered_set :
      (eq : A → A → Bool) (xs : List A)
      → is_distinct eq xs ≡ true
      → load (dump (written xs)) ≡ returns (written xs)
      → (to_unordered_set api to xs >>= from_unordered_set api eq from) ≡ pure xs
  unfolding to_unordered_set from_unordered_set
  from_unordered_set-to_unordered_set eq xs distinct h =
      self_foldl (λ t. []) (table_insert eq) [] xs h
      ∙ ap₂ (λ (o : Text) (ys : List A). (o, returns ys)) (concat_nothing xs)
          (foldl-table_insert eq [] xs distinct)

-- The text of a vector, and the item that stands for it in a vector of vectors.
abbrev pub inner : (api : Api) {A : Type 0} → (A → Text) → List A → Text
inner api text xs = api.dump (push_all api api.null (map (λ x. api.of_text (text x)) xs))

abbrev pub nested : (api : Api) {A : Type 0} → (A → Text) → List A → api.Node
nested api text xs = api.of_text (inner api text xs)

-- What the documents of YAML say of a node made of a text: written and read, it is as before, and
-- it has no items, whatever stands in the text.
module _ (api : Api) (laws : IsSequential api)
    (scalars : (t : Text)
      → (api.load (api.dump (api.of_text t)) ≡ returns (api.of_text t))
        × (api.size (api.of_text t) ≡ 0))
    {A : Type 0} (to : Cast A Text) (from : Cast Text A) (text : A → Text)
    (prints : (x : A) → to x ≡ pure (text x)) where
  open api use {Node, load, dump, of_text, null, size}

  from_vector_of_text : (t : Text) → from_vector api from (dump (of_text t)) ≡ pure []
  unfolding from_vector
  from_vector_of_text t = rw ((scalars t).0, (scalars t).1) refl

  -- A vector of vectors does not come back: the inner ones are written as texts, which are read as
  -- vectors without an element, if the library reads a text as a node without items. As many empty
  -- vectors are read as there were.
  from_vector-to_vector-nested :
      (xss : List (List A))
      → load (dump (push_all api null (map (nested api text) xss)))
        ≡ returns (push_all api null (map (nested api text) xss))
      → (to_vector api (to_vector api to) xss >>= from_vector api (from_vector api from))
        ≡ pure (map (λ xs. []) xss)
  unfolding to_vector from_vector
  from_vector-to_vector-nested xss h =
      sequence-foldl api (to_vector api to) (from_vector api from) (inner api text) (λ xs. [])
        (λ t. []) push_back [] xss laws
        (λ xs. rw (write_items-push_all api to text prints xs null) refl)
        (λ xs. from_vector_of_text (inner api text xs)) h
      ∙ ap₂ (λ (o : Text) (ys : List (List A)). (o, returns ys)) (concat_nothing xss)
          (foldl-push_back [] (map (λ xs. []) xss))
