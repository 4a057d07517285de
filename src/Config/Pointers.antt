-- ===== src/Config/Pointers.antt =====
-- What `Config::Lookup` returns, with a default value and then without one.
use final_designer.Config.Lookups.{
  IsSound, lookup_same, lookup_or_make_known, lookup_or_make_new, lookup_or_make_bad,
}
use final_designer.Config.Registry.{
  Types, is_config_name, Cell, Registry, Found, pointer, null, invalid_argument, find_data, log_to,
  lookup_or_make, lookup,
}
use final_designer.Level.{error}
use final_designer.Config.Var.{Var, new_var}
use final_designer.Prelude.{
  ◌≡◌, ◌≢◌, refl, sym, ◌∙◌, ap, [], ◌∷◌, ◌++◌, Text, text_eq_refl, text_eq-eq-false, none, length,
  get_elem?, get_elem?-append, get_elem?-append_last, inl, inr, Bool-cases, Option-cases,
}

-- The pointer of a result, which is null if `Lookup` threw.
abbrev pub as_found : Found → Found
as_found (pointer i) = pointer i
as_found null = null
as_found (invalid_argument e) = null

module _ {W : Type 0} (types : Types W) where
  open types use {Kind, same, Val}

  as_found-lookup :
      (r : Registry types) (k : Kind) (name : Text)
      → as_found (lookup types r k name) ≡ lookup types r k name
  unfolding lookup
  as_found-lookup r k name = elim (Option-cases (find_data types r.datas name)) [
    | inl e ↦ rw (e, lookup) refl
    | inr (i, e) ↦ elim (Option-cases (get_elem? r.cells i)) [
      | inl n ↦ rw (e, n, lookup) refl
      | inr (cell, at) ↦ elim (Bool-cases (same cell.kind k)) [
        | inl y ↦ rw (e, at, y, lookup) refl
        | inr n ↦ rw (e, at, n, lookup) refl
      ]
    ]
  ]

  lookup_unknown :
      (r : Registry types) (k : Kind) (name : Text)
      → find_data types r.datas name ≡ none
      → lookup types r k name ≡ null
  unfolding lookup
  lookup_unknown r k name e = rw (e, lookup) refl

  lookup_added :
      (r : Registry types) (k : Kind) (name : Text) (var : Var (Val k) W)
      → lookup types
          (record r {
            cells = r.cells ++ record { kind = k; var = var } ∷ [];
            datas = (name, length r.cells) ∷ r.datas;
          })
          k
          name
        ≡ pointer (length r.cells)
  unfolding lookup find_data
  lookup_added r k name var =
      rw
        (
          text_eq_refl name,
          get_elem?-append_last r.cells (record { kind = k; var = var }),
          (types.same_iff k k).1 refl,
          lookup,
        )
        refl

  -- After `Lookup` with a default value, `Lookup` without one gives the same pointer, also where
  -- that is null, and null if the first one threw.
  pub lookup_or_make-lookup :
      (r : Registry types) (k : Kind) (name : Text) (default_value : Val k) (description : Text)
      → lookup types (lookup_or_make types r k name default_value description).0 k name
        ≡ as_found (lookup_or_make types r k name default_value description).1
  lookup_or_make-lookup r k name d t = elim (Option-cases (find_data types r.datas name)) [
    | inr (i, e) ↦
        let (c, m, f) = lookup_or_make_known types r k name d t i e in
        lookup_same types _ r k name c m ∙ (sym (as_found-lookup r k name) ∙ ap as_found (sym f))
    | inl e ↦ elim (Bool-cases (is_config_name name)) [
      | inl v ↦
          rw (lookup_or_make_new types r k name d t e v) (lookup_added r k name (new_var name d t))
      | inr n ↦ rw (lookup_or_make_bad types r k name d t e n) (
          lookup_same types (log_to types r error _) r k name refl refl ∙ lookup_unknown r k name e)
    ]
  ]

  lookup_beside :
      (r : Registry types) (k : Kind) (name other : Text) (cell : Cell types)
      → IsSound types r
      → name ≢ other
      → lookup types
          (record r { cells = r.cells ++ cell ∷ []; datas = (name, length r.cells) ∷ r.datas })
          k
          other
        ≡ lookup types r k other
  unfolding lookup find_data
  lookup_beside r k name other cell sound h = elim (Option-cases (find_data types r.datas other)) [
    | inl e ↦ rw (text_eq-eq-false name other h, e, lookup) refl
    | inr (i, e) ↦
        let (old, at, _, _) = sound other i e in
        rw
          (
            text_eq-eq-false name other h,
            e,
            at,
            get_elem?-append r.cells (cell ∷ []) i old at,
            lookup,
          )
          refl
  ]

  -- `Lookup` with a default value leaves what other names lead to alone.
  pub lookup_or_make-other :
      (r : Registry types) (k l : Kind) (name other : Text) (default_value : Val k)
      (description : Text)
      → IsSound types r
      → name ≢ other
      → lookup types (lookup_or_make types r k name default_value description).0 l other
        ≡ lookup types r l other
  lookup_or_make-other r k l name other d t sound h =
      elim (Option-cases (find_data types r.datas name)) [
        | inr (i, e) ↦
            let (c, m, _) = lookup_or_make_known types r k name d t i e in
            lookup_same types _ r l other c m
        | inl e ↦ elim (Bool-cases (is_config_name name)) [
          | inl v ↦
              rw (lookup_or_make_new types r k name d t e v)
                (lookup_beside r l name other _ sound h)
          | inr n ↦
              rw (lookup_or_make_bad types r k name d t e n)
                (lookup_same types (log_to types r error _) r l other refl refl)
        ]
      ]
