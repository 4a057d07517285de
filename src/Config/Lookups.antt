-- ===== src/Config/Lookups.antt =====
-- `Config::Lookup`: the registry that it keeps.
use final_designer.Config.Registry.{
  Types, is_config_name, Cell, Registry, pointer, invalid_argument, find_data, mismatch, log_to,
  lookup_or_make, lookup,
}
use final_designer.Level.{error}
use final_designer.Config.Members.{is_config_name-tolower}
use final_designer.Config.Var.{new_var}
use final_designer.Prelude.{
  ℕ, ◌≡◌, refl, sym, ◌∙◌, ap, subst, subst₂, ap₂, true, false, List, [], ◌∷◌, ◌++◌, Text, codes,
  text_eq, text_eq_iff, none, some, some-injective, length, get_elem?, get_elem?-append,
  get_elem?-append_last, arith, inl, inr, Bool-cases, Option-cases,
}

module _ {W : Type 0} (types : Types W) where
  open types use {Kind, same, Val}

  abbrev SoundOn : List (Cell types) → List (Text × ℕ) → Type 0
  SoundOn cells datas =
      (name : Text) (i : ℕ)
      → find_data types datas name ≡ some i
      → (cell : Cell types) × (get_elem? cells i ≡ some cell)
        × (cell.var.name ≡ name)
        × (is_config_name name ≡ true)

  -- Every name of the map leads to a variable of that name, which is one that `Lookup` admits.
  abbrev pub IsSound : Registry types → Type 0
  IsSound r = SoundOn r.cells r.datas

  -- Two names never share a variable.
  pub IsSound-injective :
      (r : Registry types) (name other : Text) (i : ℕ)
      → IsSound r
      → find_data types r.datas name ≡ some i
      → find_data types r.datas other ≡ some i
      → name ≡ other
  IsSound-injective r name other i sound e f =
      let (cell, at, named, _) = sound name i e in
      let (cell', at', named', _) = sound other i f in
      let q : cell ≡ cell' = some-injective _ _ (sym at ∙ at') in
      sym named ∙ ap (λ (c : Cell types). c.var.name) q ∙ named'

  pub lookup_same :
      (r s : Registry types) (k : Kind) (name : Text)
      → r.cells ≡ s.cells
      → r.datas ≡ s.datas
      → lookup types r k name ≡ lookup types s k name
  unfolding lookup
  lookup_same r s k name c d =
      ap₂
        (λ (cs : List (Cell types)) (ds : List (Text × ℕ)).
          lookup types (record r { cells = cs; datas = ds }) k name)
        c d

  -- A name that is known changes neither the map nor a variable, and gives what is there.
  pub lookup_or_make_known :
      (r : Registry types) (k : Kind) (name : Text) (d : Val k) (description : Text) (i : ℕ)
      → find_data types r.datas name ≡ some i
      → ((lookup_or_make types r k name d description).0.cells ≡ r.cells)
        × ((lookup_or_make types r k name d description).0.datas ≡ r.datas)
        × ((lookup_or_make types r k name d description).1 ≡ lookup types r k name)
  unfolding lookup_or_make mismatch lookup
  lookup_or_make_known r k name d t i e = elim (Option-cases (get_elem? r.cells i)) [
    | inl n ↦ rw (e, n, lookup_or_make, lookup) (refl, refl, refl)
    | inr (cell, at) ↦ elim (Bool-cases (same cell.kind k)) [
      | inl y ↦ rw (e, at, y, lookup_or_make, lookup) (refl, refl, refl)
      | inr n ↦ rw (e, at, n, lookup_or_make, lookup) (refl, refl, refl)
    ]
  ]

  pub lookup_or_make_new :
      (r : Registry types) (k : Kind) (name : Text) (d : Val k) (description : Text)
      → find_data types r.datas name ≡ none
      → is_config_name name ≡ true
      → lookup_or_make types r k name d description ≡ (
        record r {
          cells = r.cells ++ record { kind = k; var = new_var name d description } ∷ [];
          datas = (name, length r.cells) ∷ r.datas;
        },
        pointer (length r.cells),
      )
  unfolding lookup_or_make
  lookup_or_make_new r k name d t e v = rw (e, v, lookup_or_make) refl

  pub lookup_or_make_bad :
      (r : Registry types) (k : Kind) (name : Text) (d : Val k) (description : Text)
      → find_data types r.datas name ≡ none
      → is_config_name name ≡ false
      → lookup_or_make types r k name d description
        ≡ (log_to types r error (codes "Lookup name invalid " ++ name), invalid_argument name)
  unfolding lookup_or_make
  lookup_or_make_bad r k name d t e v = rw (e, v, lookup_or_make) refl

  added_sound :
      (r : Registry types) (k : Kind) (name : Text) (d : Val k) (description : Text)
      → is_config_name name ≡ true
      → IsSound r
      → SoundOn
          (r.cells ++ record { kind = k; var = new_var name d description } ∷ [])
          ((name, length r.cells) ∷ r.datas)
  unfolding find_data new_var
  added_sound r k name d t v sound name' i e = elim (Bool-cases (text_eq name name')) [
    | inl s ↦
        let q : name ≡ name' = (text_eq_iff name name').0 s in
        let at : length r.cells ≡ i = ground (arith, e, s) in
        subst₂
          (λ (n : Text) (j : ℕ).
            (cell : Cell types) × (get_elem?
                (r.cells ++ record { kind = k; var = new_var name d t } ∷ []) j
              ≡ some cell)
            × (cell.var.name ≡ n)
            × (is_config_name n ≡ true))
          q at (_, get_elem?-append_last r.cells _, is_config_name-tolower name v, v)
    | inr n ↦
        let old : find_data types r.datas name' ≡ some i = ground (arith, e, n) in
        let (cell, at, named, valid) = sound name' i old in
        (cell, get_elem?-append r.cells _ i cell at, named, valid)
  ]

  -- `Lookup` with a default value keeps the registry sound, whatever it returns.
  pub lookup_or_make-IsSound :
      (r : Registry types) (k : Kind) (name : Text) (default_value : Val k) (description : Text)
      → IsSound r
      → IsSound (lookup_or_make types r k name default_value description).0
  lookup_or_make-IsSound r k name d t sound = elim (Option-cases (find_data types r.datas name)) [
    | inr (i, e) ↦
        let (c, m, _) = lookup_or_make_known r k name d t i e in
        subst₂ SoundOn (sym c) (sym m) sound
    | inl e ↦ elim (Bool-cases (is_config_name name)) [
      | inl v ↦
          subst (λ x. IsSound x.0) (sym (lookup_or_make_new r k name d t e v))
            (added_sound r k name d t v sound)
      | inr n ↦ subst (λ x. IsSound x.0) (sym (lookup_or_make_bad r k name d t e n)) sound
    ]
  ]
