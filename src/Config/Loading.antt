-- ===== src/Config/Loading.antt =====
-- `Config::LoadFromYaml`: what it does to variables.
use final_designer.Config.Load.{
  Yaml, Members, list_all_member, load_member, load_members, load_from_yaml,
}
use final_designer.Config.Loads.{
  cell_of, Becomes, node_text, load_members-Becomes, load_members-datas, load_member-datas,
  cell_from_string-hit,
}
use final_designer.Config.Lookups.{IsSound, IsSound-injective}
use final_designer.Config.Members.{
  In, there, In-append_right, Lists, list_all_member-Lists, Lists-valid, is_config_name-tolower,
}
use final_designer.Config.Registry.{Types, Registry, find_data, lookup_base, note_from}
use final_designer.Config.Var.{returns, Var, from_string, set_value, call_listeners}
use final_designer.Prelude.{
  ℕ, suc, ◌≡◌, ◌≢◌, refl, sym, ◌∙◌, ap, subst, true, false, [], ◌∷◌, ◌++◌, Text, map, tolower,
  is_empty, some, get_elem?, inl, inr, ◌⊎◌, Bool-cases,
}

module _ {W : Type 0} (types : Types W) (yaml : Yaml) where
  open types use {Kind, Val, eq, from_str}
  open yaml use {Node, height}

  abbrev members_of : Registry types → Node → Members types yaml
  members_of r root = (list_all_member types yaml (suc (height root)) [] root r.world).0

  abbrev begun : Registry types → Node → Registry types
  begun r root = record r {
    world = (list_all_member types yaml (suc (height root)) [] root r.world).1;
  }

  -- What is listed and leads to a variable is listed under just its name.
  listed_name :
      (r : Registry types) (root : Node) (name : Text) (i : ℕ)
      → IsSound types r
      → find_data types r.datas name ≡ some i
      → (m : Text × Node) → In m (members_of r root)
      → find_data types r.datas (map tolower m.0) ≡ some i
      → m.0 ≡ name
  listed_name r root name i sound e m j f =
      let l = list_all_member-Lists types yaml (suc (height root)) [] root r.world m j in
      sym (is_config_name-tolower m.0 (Lists-valid types yaml l))
      ∙ IsSound-injective types r (map tolower m.0) name i sound f e

  -- Loading a document leaves the name, the description and the listeners of every variable alone,
  -- and its value too, unless a text converts to the new value that the document lists under just
  -- the variable's name.
  pub load_from_yaml-Becomes :
      (r : Registry types) (root : Node) (name : Text) (i : ℕ) (k : Kind) (var : Var (Val k) W)
      → IsSound types r
      → find_data types r.datas name ≡ some i
      → get_elem? r.cells i ≡ some (record { kind = k; var = var })
      → Becomes types
          (λ text.
            (node : Node) × Lists types yaml [] root name node × (node_text types yaml node ≡ text))
          k
          var
          (load_from_yaml types yaml r root).cells
          i
  unfolding load_from_yaml
  load_from_yaml-Becomes r root name i k var sound e at =
      load_members-Becomes types yaml _ (begun r root) (members_of r root) i k var at λ m j f.
        let l = list_all_member-Lists types yaml (suc (height root)) [] root r.world m j in
        (
          m.1,
          subst (λ n. Lists types yaml [] root n m.1) (listed_name r root name i sound e m j f) l,
          refl,
        )

  -- Loading keeps the registry sound.
  pub load_from_yaml-IsSound :
      (r : Registry types) (root : Node)
      → IsSound types r
      → IsSound types (load_from_yaml types yaml r root)
  unfolding load_from_yaml
  load_from_yaml-IsSound r root sound name i e =
      let f : find_data types r.datas name ≡ some i =
        ap (λ d. find_data types d name)
          (sym (load_members-datas types yaml (begun r root) (members_of r root)))
        ∙ e in
      let (cell, at, named, valid) = sound name i f in
      let b =
        load_members-Becomes types yaml (λ text. Unit {0}) (begun r root) (members_of r root) i
          cell.kind cell.var at (λ m j g. tt) in
      (_, b.at, named, valid)

  load_members-append :
      (r : Registry types) (ms ns : Members types yaml)
      → load_members types yaml r (ms ++ ns)
        ≡ load_members types yaml (load_members types yaml r ms) ns
  unfolding load_members
  load_members-append r [] ns = refl
  load_members-append r (m ∷ ms) ns = load_members-append (load_member types yaml r m) ms ns

  -- What a variable without listeners holds after `setValue`, and after a text that converts.
  set_value_quiet :
      (k : Kind) (var : Var (Val k) W) (v : Val k) (w : W)
      → var.cbs ≡ []
      → (u : Val k) × ((u ≡ v) ⊎ (eq k v u ≡ true))
        × (set_value (eq k) var v w ≡ (record var { val = u }, w, returns tt))
  unfolding set_value call_listeners
  set_value_quiet k var v w c = elim (Bool-cases (eq k v var.val)) [
    | inl s ↦ (var.val, inr s, rw s refl)
    | inr s ↦
        let q : call_listeners var.cbs var.val v w ≡ (w, returns tt) = rw c refl in
        (v, inl refl, rw (s, ap (λ x. x.1) q, ap (λ x. x.0) q) refl)
  ]

  from_string_quiet :
      (k : Kind) (var : Var (Val k) W) (text : Text) (v : Val k) (w : W)
      → var.cbs ≡ []
      → from_str k text ≡ returns v
      → (u : Val k) × ((u ≡ v) ⊎ (eq k v u ≡ true))
        × ((from_string (eq k) (from_str k) (note_from types k) var text w).0
            ≡ record var { val = u })
  unfolding from_string
  from_string_quiet k var text v w c p =
      let (u, is, q) = set_value_quiet k var v w c in
      (u, is, rw (p, from_string, ap (λ x. x.2) q) (ap (λ x. x.0) q))

  load_member-at :
      (r : Registry types) (m : Text × Node) (i : ℕ) (k : Kind) (var : Var (Val k) W)
      → is_empty m.0 ≡ false
      → find_data types r.datas (map tolower m.0) ≡ some i
      → get_elem? r.cells i ≡ some (cell_of types k var)
      → get_elem? (load_member types yaml r m).cells i
        ≡ some (
            cell_of types k
              (from_string
                (eq k)
                (from_str k)
                (note_from types k)
                var
                (node_text types yaml m.1)
                r.world).0)
  unfolding load_member lookup_base
  load_member-at r (name, node) i k var e f at =
      rw (e, f, load_member) (cell_from_string-hit types r i _ k var at)

  -- The last listing of a name wins if its text converts: a variable without listeners, which the
  -- registry has under this name, ends with the value that the text of the last node listed under
  -- the name converts to, or with one that `operator==` takes for equal. The registry is sound, so
  -- that its names are those of its variables. A last text that does not convert is not spoken of.
  pub load_from_yaml_last :
      (r : Registry types) (root : Node) (before after : Members types yaml) (name : Text)
      (node : Node) (i : ℕ) (k : Kind) (var : Var (Val k) W) (v : Val k)
      → IsSound types r
      → find_data types r.datas name ≡ some i
      → get_elem? r.cells i ≡ some (record { kind = k; var = var })
      → var.cbs ≡ []
      → is_empty name ≡ false
      → (list_all_member types yaml (suc (height root)) [] root r.world).0
        ≡ before ++ (name, node) ∷ after
      → ((m : Text × Node) → In m after → m.0 ≢ name)
      → from_str k (node_text types yaml node) ≡ returns v
      → (u : Val k) × ((u ≡ v) ⊎ (eq k v u ≡ true))
        × (get_elem? (load_from_yaml types yaml r root).cells i
            ≡ some (record { kind = k; var = record var { val = u } }))
  unfolding load_from_yaml load_members
  load_from_yaml_last r root before after name node i k var v sound e at quiet full split others p =
      let b =
        load_members-Becomes types yaml (λ text. Unit {0}) start before i k var at (λ m j f. tt) in
      let (u, is, q) =
        from_string_quiet k (record var { val = b.val }) (node_text types yaml node) v middle.world
          quiet p in
      let here' : get_elem? (load_member types yaml middle (name, node)).cells i
          ≡ some (cell_of types k (record var { val = u })) =
        load_member-at middle (name, node) i k (record var { val = b.val }) full
          (found middle (load_members-datas types yaml start before)) b.at
        ∙ ap (λ x. some (cell_of types k x)) q in
      let c =
        load_members-Becomes types yaml (λ text. true ≡ false)
          (load_member types yaml middle (name, node)) after i k (record var { val = u }) here'
          (λ m j f. absurd (others m j (same m (behind m j) (old _ f)))) in
      let value : c.val ≡ u = elim c.from [ inl equal ↦ equal | inr (text, never, _) ↦ cc ] in
      (
        u,
        is,
        ap (λ ms. get_elem? (load_members types yaml start ms).cells i) split
            ∙ (ap (λ s. get_elem? s.cells i)
                  (load_members-append start before ((name, node) ∷ after))
                ∙ (c.at ∙ ap (λ x. some (cell_of types k (record var { val = x }))) value)),
      )
    where
      start : Registry types
      start = begun r root

      middle : Registry types
      middle = load_members types yaml start before

      old :
          (key : Text)
          → find_data types (load_member types yaml middle (name, node)).datas key ≡ some i
          → find_data types r.datas key ≡ some i
      old key f =
          ap (λ d. find_data types d key)
            (sym (
              load_member-datas types yaml middle (name, node)
              ∙ load_members-datas types yaml start before))
          ∙ f

      behind : (m : Text × Node) → In m after → In m (members_of r root)
      behind m j = subst (In m) (sym split) (In-append_right before _ (there j))

      same :
          (m : Text × Node)
          → In m (members_of r root)
          → find_data types r.datas (map tolower m.0) ≡ some i
          → m.0 ≡ name
      same m j f = listed_name r root name i sound e m j f

      found :
          (s : Registry types)
          → s.datas ≡ r.datas
          → find_data types s.datas (map tolower name) ≡ some i
      found s d =
          let (cell, place, named, valid) = sound name i e in
          rw (is_config_name-tolower name valid, d) e
