-- ===== src/Define/Fields.antt =====
-- What the reader finds in a node that a writer has built.
use final_designer.Cast.{pure}
use final_designer.Config.Var.{returns}
use final_designer.Define.Read.{optional_text}
use final_designer.Define.Write.{put_if_empty, put_unless_empty, text_field}
use final_designer.Prelude.{
  ◌≡◌, refl, ap, ◌∙◌, false, List, [], ◌∷◌, Text, text_eq, text_eq_refl, Option, none, some,
}
use final_designer.Yaml.{Api, IsMap, push_all}

-- A node with a list of nodes pushed at a key one by one.
abbrev pub push_all_at : (api : Api) → api.Node → Text → List api.Node → api.Node
push_all_at api n key [] = n
push_all_at api n key (x ∷ xs) = push_all_at api (api.push_at n key x) key xs

-- The child that holds them, if there are any.
abbrev pub listed : (api : Api) → List api.Node → Option api.Node
listed api [] = none
listed api (x ∷ xs) = some (push_all api api.null (x ∷ xs))

module _ (api : Api) (laws : IsMap api) where
  open api use {Node, child, null, of_text, put}
  open laws use {IsMapped, null_mapped, put_mapped, child_null, child_put, as_string_of}

  -- A node with the text that a key leads to.
  pub optional_text-some :
      (n : Node) (key t : Text)
      → child n key ≡ returns (some (of_text t))
      → optional_text api n key ≡ pure t
  unfolding optional_text
  optional_text-some n key t h = rw (h, as_string_of t) refl

  pub optional_text-none :
      (n : Node) (key : Text) → child n key ≡ returns none → optional_text api n key ≡ pure []
  unfolding optional_text
  optional_text-none n key h = rw h refl

  pub optional_text-child :
      (n m : Node) (key : Text)
      → child n key ≡ child m key
      → optional_text api n key ≡ optional_text api m key
  unfolding optional_text
  optional_text-child n m key h = rw h refl

  pub child_self :
      (n : Node) (k t : Text)
      → IsMapped n
      → child (text_field api n k t) k ≡ returns (some (of_text t))
  child_self n k t m = child_put n k k (of_text t) m ∙ rw (text_eq_refl k) refl

  pub child-other :
      (n : Node) (k j t : Text)
      → IsMapped n
      → text_eq k j ≡ false
      → child (text_field api n k t) j ≡ child n j
  child-other n k j t m h = child_put n k j (of_text t) m ∙ rw h refl

  pub put_unless_empty-mapped :
      (k t : Text) (n : Node) → IsMapped n → IsMapped (put_unless_empty api k t n)
  put_unless_empty-mapped k [] n m = m
  put_unless_empty-mapped k (c ∷ t) n m = put_mapped n k _ m

  pub child-put_unless_empty :
      (k j t : Text) (n : Node)
      → IsMapped n
      → text_eq k j ≡ false
      → child (put_unless_empty api k t n) j ≡ child n j
  child-put_unless_empty k j [] n m h = refl
  child-put_unless_empty k j (c ∷ t) n m h = child-other n k j (c ∷ t) m h

  -- A text that is written unless it is empty is read as it was.
  pub optional_text-put_unless_empty :
      (k t : Text) (n : Node)
      → IsMapped n
      → child n k ≡ returns none
      → optional_text api (put_unless_empty api k t n) k ≡ pure t
  optional_text-put_unless_empty k [] n m h = optional_text-none n k h
  optional_text-put_unless_empty k (c ∷ t) n m h =
      optional_text-some _ k (c ∷ t) (child_self n k (c ∷ t) m)

  -- A text that is written only if it is empty is read as empty.
  pub put_if_empty-mapped : (k t : Text) (n : Node) → IsMapped n → IsMapped (put_if_empty api k t n)
  put_if_empty-mapped k [] n m = put_mapped n k _ m
  put_if_empty-mapped k (c ∷ t) n m = m

  pub child-put_if_empty :
      (k j t : Text) (n : Node)
      → IsMapped n
      → text_eq k j ≡ false
      → child (put_if_empty api k t n) j ≡ child n j
  child-put_if_empty k j [] n m h = child-other n k j [] m h
  child-put_if_empty k j (c ∷ t) n m h = refl

  pub optional_text-put_if_empty :
      (k t : Text) (n : Node)
      → IsMapped n
      → child n k ≡ returns none
      → optional_text api (put_if_empty api k t n) k ≡ pure []
  optional_text-put_if_empty k [] n m h = optional_text-some _ k [] (child_self n k [] m)
  optional_text-put_if_empty k (c ∷ t) n m h = optional_text-none n k h

  push_all_at-put :
      (xs : List Node) (n s : Node) (k : Text)
      → IsMapped n
      → push_all_at api (put n k s) k xs ≡ put n k (push_all api s xs)
  push_all_at-put [] n s k m = refl
  push_all_at-put (x ∷ xs) n s k m =
      rw (laws.push_at_put n k s x m) (push_all_at-put xs n (api.push s x) k m)

  module _ (n : Node) (k : Text) (m : IsMapped n) (new : child n k ≡ returns none) where
    push_all_at-new :
        (x : Node) (xs : List Node)
        → push_all_at api n k (x ∷ xs) ≡ put n k (push_all api null (x ∷ xs))
    push_all_at-new x xs =
        rw (laws.push_at_new n k x m new) (push_all_at-put xs n (api.push null x) k m)

    pub child-push_all_at :
        (xs : List Node) → child (push_all_at api n k xs) k ≡ returns (listed api xs)
    child-push_all_at [] = new
    child-push_all_at (x ∷ xs) =
        ap (λ y. child y k) (push_all_at-new x xs) ∙ child_put n k k _ m ∙ rw (text_eq_refl k) refl

    pub child-push_all_at-other :
        (xs : List Node) (j : Text)
        → text_eq k j ≡ false
        → child (push_all_at api n k xs) j ≡ child n j
    child-push_all_at-other [] j h = refl
    child-push_all_at-other (x ∷ xs) j h =
        ap (λ y. child y j) (push_all_at-new x xs) ∙ child_put n k j _ m ∙ rw h refl
