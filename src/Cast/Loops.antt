-- ===== src/Cast/Loops.antt =====
-- What the loops of the conversions come to.
use final_designer.Cast.{Cast, ◌>>=◌, pure, read_items, read_sequence, write_items, write_sequence}
use final_designer.Config.Var.{returns}
use final_designer.Prelude.{
  ℕ, zero, suc, ◌+◌, ◌≡◌, refl, ap, ◌∙◌, List, [], ◌∷◌, ◌++◌, Text, map, none, some, length,
  get_elem?, arith,
}
use mathlib.Core.List.{foldl}
use final_designer.Yaml.{Api, IsSequential, push_all}

-- Texts written one after another.
abbrev pub concat_map : {A : Type 0} → (A → Text) → List A → Text
concat_map f [] = []
concat_map f (x ∷ xs) = f x ++ concat_map f xs

pub length-map : {A B : Type 0} (f : A → B) (xs : List A) → length (map f xs) ≡ length xs
length-map f [] = refl
length-map f (x ∷ xs) = ap suc (length-map f xs)

pub get_elem?-map :
    {A B : Type 0} (f : A → B) (xs : List A) (i : ℕ) (x : A)
    → get_elem? xs i ≡ some x
    → get_elem? (map f xs) i ≡ some (f x)
get_elem?-map f [] i x e = cc
get_elem?-map f (y ∷ xs) zero x e = ap (λ o. elim o [ none ↦ none | some z ↦ some (f z) ]) e
get_elem?-map f (y ∷ xs) (suc i) x e = get_elem?-map f xs i x e

module _ (api : Api) {A : Type 0} where
  open api use {Node, of_text}

  -- A list of elements is written as the sequence of their texts.
  pub write_items-push_all :
      (cast : Cast A Text) (text : A → Text)
      → ((x : A) → cast x ≡ pure (text x))
      → (xs : List A) (node : Node)
      → write_items api cast xs node ≡ pure (push_all api node (map (λ x. of_text (text x)) xs))
  unfolding write_items
  write_items-push_all cast text prints [] node = refl
  write_items-push_all cast text prints (x ∷ xs) node =
      rw (prints x, write_items-push_all cast text prints xs) refl

module _ (api : Api) {A B : Type 0} where
  open api use {Node, load, dump, size, at, of_text, null}

  -- If the items of a sequence convert to some elements, the loop adds these in order.
  read_items-foldl :
      {C : Type 0} (cast : Cast Text B) (spoken : Text → Text) (add : C → B → C) (n : A → Node)
      (g : A → B) (node : Node)
      → ((x : A) → cast (dump (n x)) ≡ pure (g x))
      → (xs : List A) (i : ℕ) (acc : C)
      → ((j : ℕ) (x : A) → get_elem? xs j ≡ some x → at node (i + j) ≡ n x)
      → read_items api cast (λ t. (spoken t, returns tt)) add node i (length xs) acc
        ≡ (concat_map (λ x. spoken (dump (n x))) xs, returns (foldl add acc (map g xs)))
  unfolding read_items
  read_items-foldl cast spoken add n g node reads [] i acc h = refl
  read_items-foldl cast spoken add n g node reads (x ∷ xs) i acc h =
      let this : at node i ≡ n x = ap (at node) (omega arith) ∙ h 0 x refl in
      let rest =
        read_items-foldl cast spoken add n g node reads xs (i + 1) (add acc (g x))
          (λ j y e. ap (at node) (omega arith) ∙ h (suc j) y e) in
      rw (this, reads x, rest) refl

  -- What elements come to that are written as a sequence and read, if the library reads what it
  -- wrote: `g` is what an element's item converts to.
  pub sequence-foldl :
      {C : Type 0} (to : Cast A Text) (from : Cast Text B) (text : A → Text) (g : A → B)
      (spoken : Text → Text) (add : C → B → C) (empty : C) (xs : List A)
      → IsSequential api
      → ((x : A) → to x ≡ pure (text x))
      → ((x : A) → from (dump (of_text (text x))) ≡ pure (g x))
      → load (dump (push_all api null (map (λ x. of_text (text x)) xs)))
        ≡ returns (push_all api null (map (λ x. of_text (text x)) xs))
      → (write_sequence api to xs
          >>= read_sequence api from (λ t. (spoken t, returns tt)) add empty)
        ≡ (
          concat_map (λ x. spoken (dump (of_text (text x)))) xs,
          returns (foldl add empty (map g xs)),
        )
  unfolding write_sequence read_sequence
  sequence-foldl to from text g spoken add empty xs laws prints reads h =
      let item : A → Node = λ x. of_text (text x) in
      let node : Node = push_all api null (map item xs) in
      let count : size node ≡ length xs = laws.size_of (map item xs) ∙ length-map item xs in
      let loop = read_items-foldl from spoken add item g node reads xs 0 empty λ j x e.
        ap (at node) (omega arith)
        ∙ laws.at_of (map item xs) j (item x) (get_elem?-map item xs j x e) in
      rw (write_items-push_all api to text prints xs null, h, count, loop) refl
