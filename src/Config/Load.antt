-- ===== src/Config/Load.antt =====
-- `ListAllMember` and `Config::LoadFromYaml` of nnysl/config.cpp, over the YAML library.
use final_designer.Config.Registry.{Types, is_config_name, Registry, lookup_base, cell_from_string}
use final_designer.Level.{error}
use final_designer.Prelude.{
  ℕ, zero, suc, Bool, List, [], ◌∷◌, ◌++◌, Text, codes, map, tolower, is_empty, none, some,
  if◌then◌else◌,
}

-- What the sources use of `YAML::Node`: `entries` are the pairs that the iterators of a map go
-- through, `dump` is what a stream gets, and `height` bounds how deep a node is.
pub record Yaml : Type 1 where
  pub Node : Type 0
  pub is_map : Node → Bool
  pub is_scalar : Node → Bool
  pub scalar : Node → Text
  pub entries : Node → List (Node × Node)
  pub dump : Node → Text
  pub height : Node → ℕ

module _ {W : Type 0} (types : Types W) (yaml : Yaml) where
  open types use {log_root}
  open yaml use {Node, is_map, is_scalar, scalar, entries, dump, height}

  -- The name of a member: `prefix.empty() ? key : prefix + "." + key`.
  abbrev pub member_name : Text → Node → Text
  member_name prefix key = if is_empty prefix then scalar key else prefix ++ (b'.' ∷ scalar key)

  abbrev pub Members : Type 0
  Members = List (Text × Node)

  -- The loop of `ListAllMember` over the entries of a map, given the call on a member.
  unfoldable pub list_entries :
      (Text → Node → W → Members × W) → Text → List (Node × Node) → W → Members × W
  list_entries call prefix [] w = ([], w)
  list_entries call prefix ((key, value) ∷ rest) w =
      let (first, w1) = call (member_name prefix key) value w in
      let (others, w2) = list_entries call prefix rest w1 in (first ++ others, w2)

  -- `ListAllMember`, on fuel for the depth; what it appends to `output`.
  unfoldable pub list_all_member : ℕ → Text → Node → W → Members × W
  unfolding list_entries
  list_all_member zero prefix node w = ([], w)
  list_all_member (suc fuel) prefix node w =
      let inner : Members × W = list_entries (list_all_member fuel) prefix (entries node) w in
      if is_config_name prefix
      then (if is_map node then ((prefix, node) ∷ inner.0, inner.1) else ((prefix, node) ∷ [], w))
      else (
        [],
        log_root error (codes "Config invalid name: *" ++ (prefix ++ (codes "* : " ++ dump node)))
            w,
      )

  -- The body of the loop of `LoadFromYaml`.
  unfoldable pub load_member : Registry types → Text × Node → Registry types
  load_member r (name, node) =
      if is_empty name then r else elim (lookup_base types r (map tolower name)) [
        | none ↦ r
        | some i ↦ cell_from_string types r i (if is_scalar node then scalar node else dump node)
      ]

  unfoldable pub load_members : Registry types → Members → Registry types
  unfolding load_member
  load_members r [] = r
  load_members r (m ∷ ms) = load_members (load_member r m) ms

  -- `Config::LoadFromYaml`
  unfoldable pub load_from_yaml : Registry types → Node → Registry types
  unfolding load_members list_all_member
  load_from_yaml r root =
      let (members, w) = list_all_member (suc (height root)) [] root r.world in
      load_members (record r { world = w }) members
