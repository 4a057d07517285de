-- ===== src/Config/Var.antt =====
-- `ConfigVar<T>`. A listener acts on a state `W` outside the variable.
use final_designer.Prelude.{
  ℕ, ◌+◌, ◌%◌, ◌^◌, Bool, true, false, List, [], ◌∷◌, Text, Option, none, some, map, tolower, ◌==◌,
  ltb, if◌then◌else◌,
}

-- What may throw a `std::exception`, whose `what()` it then has.
pub data Outcome {ℓ} (A : Type ℓ) : Type ℓ where
  returns : A → Outcome A
  throws : Text → Outcome A

-- A listener's effect, and the exception that it may leave by.
abbrev pub Listener : Type 0 → Type 0 → Type 0
Listener T W = T → T → W → W × Outcome (Unit {0})

pub record Var (T W : Type 0) : Type 0 where
  pub name : Text
  pub description : Text
  pub val : T
  -- `m_cbs`, in the order of its keys
  pub cbs : List (ℕ × Listener T W)

-- `m_cbs[key] = callback`, `erase` and `find`, in the order of the keys.
unfoldable pub put : {F : Type 0} → ℕ → F → List (ℕ × F) → List (ℕ × F)
put key cb [] = (key, cb) ∷ []
put key cb ((k, c) ∷ rest) =
    if k == key
    then (key, cb) ∷ rest
    else if ltb key k
    then (key, cb) ∷ (k, c) ∷ rest
    else (k, c) ∷ put key cb rest

unfoldable pub remove : {F : Type 0} → ℕ → List (ℕ × F) → List (ℕ × F)
remove key [] = []
remove key ((k, c) ∷ rest) = if k == key then rest else (k, c) ∷ remove key rest

unfoldable pub find : {F : Type 0} → ℕ → List (ℕ × F) → Option F
find key [] = none
find key ((k, c) ∷ rest) = if k == key then some c else find key rest

module _ {T W : Type 0} where
  -- `ConfigVarBase::ConfigVarBase`, `ConfigVar::ConfigVar`
  unfoldable pub new_var : Text → T → Text → Var T W
  new_var name default_value description = record {
    name = map tolower name;
    description = description;
    val = default_value;
    cbs = [];
  }

  -- The loop of `setValue`; an exception leaves it.
  unfoldable pub call_listeners : List (ℕ × Listener T W) → T → T → W → W × Outcome (Unit {0})
  call_listeners [] old new w = (w, returns tt)
  call_listeners ((id, cb) ∷ rest) old new w =
      let (w', result) = cb old new w in
      elim result [ returns _ ↦ call_listeners rest old new w' | throws e ↦ (w', throws e) ]

  -- `ConfigVar::setValue`; `eq` is the `operator==` of `T`.
  unfoldable pub set_value : (T → T → Bool) → Var T W → T → W → Var T W × W × Outcome (Unit {0})
  unfolding call_listeners
  set_value eq var v w =
      if eq v var.val
      then (var, w, returns tt)
      else (let (w', result) = call_listeners var.cbs var.val v w in
          elim result [
            | returns _ ↦ (record var { val = v }, w', returns tt)
            | throws e ↦ (var, w', throws e)
          ])

  -- `ConfigVar::fromString`: `from_str` is `FromStr`, and `note` the log entry of the handler.
  unfoldable pub from_string :
      (T → T → Bool) → (Text → Outcome T) → (Text → W → W) → Var T W → Text → W → Var T W × W × Bool
  unfolding set_value
  from_string eq from_str note var s w = elim (from_str s) [
    | throws e ↦ (var, note e w, false)
    | returns v ↦
        let (var', w', result) = set_value eq var v w in
        elim result [ returns _ ↦ (var', w', true) | throws e ↦ (var', note e w', false) ]
  ]

  -- `ConfigVar::toString`
  unfoldable pub to_string : (T → Outcome Text) → (Text → W → W) → Var T W → W → Text × W
  to_string to_str note var w = elim (to_str var.val) [
    | returns s ↦ (s, w)
    | throws e ↦ ([], note e w)
  ]

  -- `ConfigVar::addListener`: `count` is the static `s_fun_id` of the type, a `uint64_t`; the
  -- result is its new value, which is the key, and the variable.
  unfoldable pub add_listener : ℕ → Var T W → Listener T W → ℕ × Var T W
  unfolding put
  add_listener count var cb =
      let key : ℕ = (count + 1) % 2 ^ 64 in (key, record var { cbs = put key cb var.cbs })

  -- `delListener`, `getListener`, `clearListener`
  unfoldable pub del_listener : Var T W → ℕ → Var T W
  unfolding remove
  del_listener var key = record var { cbs = remove key var.cbs }

  unfoldable pub get_listener : Var T W → ℕ → Option (Listener T W)
  unfolding find
  get_listener var key = find key var.cbs

  unfoldable pub clear_listener : Var T W → Var T W
  clear_listener var = record var { cbs = [] }
