-- ===== src/Yaml.antt =====
-- What the sources use of the library yaml-cpp, as an interface.
use final_designer.Config.Var.{Outcome, returns}
use final_designer.Prelude.{
  ℕ, ◌≡◌, List, [], ◌∷◌, Text, Option, none, some, if◌then◌else◌, length, get_elem?, map, text_eq,
  true, is_distinct,
}

-- `load` is `YAML::Load`, `dump` what a stream gets of a node, `at` and `size` are those of a
-- sequence, `pairs` what the iterators of a map go through, `child` is `node[key]`, none where
-- `IsDefined` fails, and `as_string` is `as<std::string>()` of such a node. `put`, `push` and
-- `push_at` are the writes `node[key] = value`, `node.push_back(value)` and
-- `node[key].push_back(value)`, to a node that `null` begins.
pub record Api : Type 1 where
  pub Node : Type 0
  pub load : Text → Outcome Node
  pub dump : Node → Text
  pub size : Node → ℕ
  pub at : Node → ℕ → Node
  pub pairs : Node → List (Node × Node)
  pub scalar : Node → Text
  pub child : Node → Text → Outcome (Option Node)
  pub as_string : Option Node → Outcome Text
  pub null : Node
  pub of_text : Text → Node
  pub put : Node → Text → Node → Node
  pub push : Node → Node → Node
  pub push_at : Node → Text → Node → Node

module _ (api : Api) where
  open api use {Node, size, at, null, push, put}

  -- A sequence that `push_back` has built.
  abbrev pub push_all : Node → List Node → Node
  push_all node [] = node
  push_all node (x ∷ xs) = push_all (push node x) xs

  -- What `push_back` on a null node documents: the nodes stand in the sequence in their order.
  pub record IsSequential : Type 0 where
    pub size_of : (xs : List Node) → size (push_all null xs) ≡ length xs
    pub at_of :
        (xs : List Node) (i : ℕ) (x : Node) → get_elem? xs i ≡ some x → at (push_all null xs) i ≡ x

  -- A map that writes under keys have built.
  abbrev pub put_all : Node → List (Text × Node) → Node
  put_all node [] = node
  put_all node ((k, x) ∷ xs) = put_all (put node k x) xs

  -- What writes under different keys document: the pairs are those, in the order of the writes.
  pub record IsKeyed : Type 0 where
    pub pairs_of :
        (xs : List (Text × Node))
        → is_distinct (λ x y. text_eq x.0 y.0) xs ≡ true
        → map (λ p. (api.scalar p.0, p.1)) (api.pairs (put_all null xs)) ≡ xs

  -- What the documents say of the children of a map that writes have built, and of text in a node.
  pub record IsMap : Type 1 where
    pub IsMapped : Node → Type 0
    pub null_mapped : IsMapped null
    pub put_mapped : (n : Node) (k : Text) (v : Node) → IsMapped n → IsMapped (put n k v)
    pub child_null : (j : Text) → api.child null j ≡ returns none
    pub child_put :
        (n : Node) (k j : Text) (v : Node)
        → IsMapped n
        → api.child (put n k v) j ≡ (if text_eq k j then returns (some v) else api.child n j)
    pub push_at_new :
        (n : Node) (k : Text) (v : Node)
        → IsMapped n
        → api.child n k ≡ returns none
        → api.push_at n k v ≡ put n k (push null v)
    pub push_at_put :
        (n : Node) (k : Text) (s v : Node)
        → IsMapped n
        → api.push_at (put n k s) k v ≡ put n k (push s v)
    pub as_string_of : (t : Text) → api.as_string (some (api.of_text t)) ≡ returns t
