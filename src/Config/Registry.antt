-- ===== src/Config/Registry.antt =====
-- `Config`: the map of all variables by name. Their types are the kinds of an interface, since the
-- registry holds variables of every type behind `ConfigVarBase`.
use final_designer.Config.Var.{Outcome, Var, new_var, from_string, to_string}
use final_designer.Level.{Level, info, error}
use final_designer.Prelude.{
  ℕ, ◌≡◌, ◌↔◌, Bool, true, false, List, [], ◌∷◌, ◌++◌, Text, codes, text_eq, find_first_not_of,
  Option, none, some, length, get_elem?, set, if◌then◌else◌,
}

-- The types that variables are made of: `typeid`, `operator==` and the conversions of each, and the
-- log of the main logger, which acts on the state `W`.
pub record Types (W : Type 0) : Type 1 where
  pub Kind : Type 0
  pub same : Kind → Kind → Bool
  pub same_iff : (k l : Kind) → (same k l ≡ true) ↔ (k ≡ l)
  pub type_name : Kind → Text
  pub Val : Kind → Type 0
  pub eq : (k : Kind) → Val k → Val k → Bool
  pub from_str : (k : Kind) → Text → Outcome (Val k)
  pub to_str : (k : Kind) → Val k → Outcome Text
  pub log_root : Level → Text → W → W

abbrev pub config_chars : Text
config_chars = codes "abcdefghijklmnopqrstuvwxyz._0123456789"

-- `find_first_not_of` finds nothing: the text may name a variable.
abbrev pub is_config_name : Text → Bool
is_config_name s = elim (find_first_not_of s config_chars) [ none ↦ true | some i ↦ false ]

-- What `Lookup` returns: a pointer, a null pointer, or an exception.
pub data Found : Type 0 where
  pointer : ℕ → Found
  null : Found
  invalid_argument : Text → Found

module _ {W : Type 0} (types : Types W) where
  open types use {Kind, same, type_name, Val, eq, from_str, to_str, log_root}

  -- A `ConfigVar<T>` behind a `ConfigVarBase::ptr`.
  pub record Cell : Type 0 where
    pub kind : Kind
    pub var : Var (Val kind) W

  -- `datas` is `GetDatas()`, with addresses in `cells`.
  pub record Registry : Type 0 where
    pub cells : List Cell
    pub datas : List (Text × ℕ)
    pub world : W

  abbrev pub log_to : Registry → Level → Text → Registry
  log_to r level text = record r { world = log_root level text r.world }

  -- `GetDatas().find(name)`
  unfoldable pub find_data : List (Text × ℕ) → Text → Option ℕ
  find_data [] name = none
  find_data ((n, i) ∷ rest) name = if text_eq n name then some i else find_data rest name

  -- The handlers of `toString` and `fromString`.
  abbrev pub note_to : Kind → Text → W → W
  note_to k e = log_root info (
      codes "ConfigVar::toString exception"
      ++ (e ++ (codes " convert : " ++ (type_name k ++ codes "to stirng"))))

  abbrev pub note_from : Kind → Text → W → W
  note_from k e = log_root info (
      codes "ConfigVar::fromString exception"
      ++ (e ++ (codes " convert : string to " ++ type_name k)))

  -- A variable of another type under the name.
  unfoldable pub mismatch : Registry → Kind → Text → Cell → Registry
  unfolding to_string
  mismatch r k name cell =
      let (text, w) = to_string (to_str cell.kind) (note_to cell.kind) cell.var r.world in
      log_to (record r { world = w }) error
        (codes "Lookup name = "
          ++ (name
              ++ (codes "exists but type not "
                  ++ (type_name k
                      ++ (codes " real_type = " ++ (type_name cell.kind ++ (codes " " ++ text)))))))

  -- `Config::Lookup<T>(name, default_value, description)`
  unfoldable pub lookup_or_make : Registry → (k : Kind) → Text → Val k → Text → Registry × Found
  unfolding find_data mismatch new_var
  lookup_or_make r k name default_value description = elim (find_data r.datas name) [
    | some i ↦ elim (get_elem? r.cells i) [
      | none ↦ (r, null)
      | some cell ↦
          if same cell.kind k
          then (log_to r info (codes "Lookup name = " ++ (name ++ codes "exists ")), pointer i)
          else (mismatch r k name cell, null)
    ]
    | none ↦
        if is_config_name name
        then (
          record r {
            cells =
                r.cells ++ record { kind = k; var = new_var name default_value description } ∷ [];
            datas = (name, length r.cells) ∷ r.datas;
          },
          pointer (length r.cells),
        )
        else (log_to r error (codes "Lookup name invalid " ++ name), invalid_argument name)
  ]

  -- `Config::Lookup<T>(name)`
  unfoldable pub lookup : Registry → Kind → Text → Found
  unfolding find_data
  lookup r k name = elim (find_data r.datas name) [
    | none ↦ null
    | some i ↦ elim (get_elem? r.cells i) [
      | none ↦ null
      | some cell ↦ if same cell.kind k then pointer i else null
    ]
  ]

  -- `Config::LookupBase`
  unfoldable pub lookup_base : Registry → Text → Option ℕ
  unfolding find_data
  lookup_base r name = find_data r.datas name

  -- `var->fromString(text)` at an address.
  unfoldable pub cell_from_string : Registry → ℕ → Text → Registry
  unfolding from_string
  cell_from_string r i text = elim (get_elem? r.cells i) [
    | none ↦ r
    | some cell ↦
        let k : Kind = cell.kind in
        let (var', w', done) =
          from_string (eq k) (from_str k) (note_from k) cell.var text r.world in
        record r { cells = set r.cells i (record { kind = k; var = var' }); world = w' }
  ]

  -- `Config::Visit`; the order of an `unordered_map` is that of `datas`.
  visit_from : (Cell → W → W) → Registry → List (Text × ℕ) → W → W
  visit_from cb r [] w = w
  visit_from cb r ((n, i) ∷ rest) w =
      visit_from cb r rest (elim (get_elem? r.cells i) [ none ↦ w | some cell ↦ cb cell w ])

  unfoldable pub visit : (Cell → W → W) → Registry → Registry
  unfolding visit_from
  visit cb r = record r { world = visit_from cb r r.datas r.world }
