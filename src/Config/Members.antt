-- ===== src/Config/Members.antt =====
-- The members that `ListAllMember` lists.
use final_designer.Config.Load.{Yaml, member_name, Members, list_entries, list_all_member}
use final_designer.Config.Registry.{Types, is_config_name, config_chars}
use final_designer.Prelude.{
  ℕ, zero, suc, ◌<◌, ◌≡◌, refl, true, false, List, [], ◌∷◌, ◌++◌, Text, map, tolower, contains,
  find_first_not_of, arith, inl, inr, ◌⊎◌, ◌↔◌, Bool-cases, none, some, all, ◌==◌, ==_iff,
  &&-eq-true, ap₂, Option-cases, subst,
}

-- Membership in a list.
pub data In {A : Type 0} (x : A) : List A → Type 0 where
  here : {xs : List A} → In x (x ∷ xs)
  there : {y : A} {xs : List A} → In x xs → In x (y ∷ xs)

In-append : {A : Type 0} {x : A} (xs ys : List A) → In x xs → In x (xs ++ ys)
In-append _ ys here = here
In-append (y ∷ xs) ys (there i) = there (In-append xs ys i)

pub In-append_right : {A : Type 0} {x : A} (xs ys : List A) → In x ys → In x (xs ++ ys)
In-append_right [] ys i = i
In-append_right (y ∷ xs) ys i = there (In-append_right xs ys i)

In-append_cases : {A : Type 0} {x : A} (xs ys : List A) → In x (xs ++ ys) → In x xs ⊎ In x ys
In-append_cases [] ys i = inr i
In-append_cases (y ∷ xs) ys here = inl here
In-append_cases (y ∷ xs) ys (there i) = elim (In-append_cases xs ys i) [
  | inl j ↦ inl (there j)
  | inr j ↦ inr j
]

tolower-contains :
    (cs : Text) (c : ℕ) → all (λ d. tolower d == d) cs ≡ true → contains cs c ≡ true → tolower c ≡ c
unfolding contains
tolower-contains [] c h e = cc
tolower-contains (d ∷ cs) c h e = elim (Bool-cases (c == d)) [
  | inl same ↦
      let q : c ≡ d = (==_iff c d).0 same in rw q ((==_iff (tolower d) d).0 (&&-eq-true _ _ h).0)
  | inr other ↦ tolower-contains cs c (&&-eq-true _ _ h).1 (ground arith)
]

map-tolower_of_none :
    (cs s : Text)
    → all (λ d. tolower d == d) cs ≡ true
    → find_first_not_of s cs ≡ none
    → map tolower s ≡ s
unfolding find_first_not_of
map-tolower_of_none cs [] h e = refl
map-tolower_of_none cs (c ∷ s) h e = elim (Bool-cases (contains cs c)) [
  | inl on ↦
      ap₂ ◌∷◌ (tolower-contains cs c h on)
        (map-tolower_of_none cs s h (rest on (Option-cases (find_first_not_of s cs))))
  | inr off ↦ absurd (ground (arith, off, e))
]
  where
    rest :
        contains cs c ≡ true
        → (find_first_not_of s cs ≡ none) ⊎ ((i : ℕ) × (find_first_not_of s cs ≡ some i))
        → find_first_not_of s cs ≡ none
    rest on (inl n) = n
    rest on (inr (i, n)) = absurd (ground (arith, on, n, e))

-- `tolower` changes no text that may name a variable.
pub is_config_name-tolower : (s : Text) → is_config_name s ≡ true → map tolower s ≡ s
unfolding tolower
is_config_name-tolower s h = elim (Option-cases (find_first_not_of s config_chars)) [
  | inl e ↦ map-tolower_of_none config_chars s refl e
  | inr (i, e) ↦ absurd (ground (arith, h, e))
]

module _ {W : Type 0} (types : Types W) (yaml : Yaml) where
  open yaml use {Node, is_map, entries, height}

  -- The nodes under a node that `ListAllMember` has to list, with their names: the node itself,
  -- and what the entries of a map list under their names; nothing under a name that is not valid.
  pub data Lists : Text → Node → Text → Node → Type 0 where
    self :
        {prefix : Text} {node : Node} → is_config_name prefix ≡ true → Lists prefix node prefix node
    member :
        {prefix : Text} {node : Node} {name : Text} {target : Node} (key value : Node)
        → is_config_name prefix ≡ true
        → is_map node ≡ true
        → In (key, value) (entries node)
        → Lists (member_name types yaml prefix key) value name target
        → Lists prefix node name target

  abbrev Call : Type 0
  Call = Text → Node → W → Members types yaml × W

  In-list_entries :
      (call : Call) (prefix : Text) (es : List (Node × Node)) (w : W) {x : Text × Node}
      → In x (list_entries types yaml call prefix es w).0
      → (key value : Node) × (v : W) × In (key, value) es
        × In x (call (member_name types yaml prefix key) value v).0
  unfolding list_entries
  In-list_entries call prefix [] w i = elim i [ ]
  In-list_entries call prefix ((k, e) ∷ es) w i =
      elim (In-append_cases (call (member_name types yaml prefix k) e w).0 _ i) [
        | inl j ↦ (k, e, w, here, j)
        | inr j ↦
            let (key, value, v, m, n) = In-list_entries call prefix es _ j in
            (key, value, v, there m, n)
      ]

  list_entries-In :
      (call : Call) (prefix : Text) (es : List (Node × Node)) (w : W) {x : Text × Node}
      (e : Node × Node)
      → In e es
      → ((v : W) → In x (call (member_name types yaml prefix e.0) e.1 v).0)
      → In x (list_entries types yaml call prefix es w).0
  unfolding list_entries
  list_entries-In call prefix [] w e m h = elim m [ ]
  list_entries-In call prefix ((k, v) ∷ es) w e here h = In-append _ _ (h w)
  list_entries-In call prefix ((k, v) ∷ es) w e (there m) h =
      In-append_right (call (member_name types yaml prefix k) v w).0 _
        (list_entries-In call prefix es _ e m h)

  -- One call of `ListAllMember`, in each case.
  list_map :
      (fuel : ℕ) (prefix : Text) (node : Node) (w : W)
      → is_config_name prefix ≡ true
      → is_map node ≡ true
      → (list_all_member types yaml (suc fuel) prefix node w).0
        ≡ (prefix, node)
          ∷ (list_entries types yaml (list_all_member types yaml fuel) prefix (entries node) w).0
  unfolding list_all_member
  list_map fuel prefix node w v m = rw (v, m) refl

  list_leaf :
      (fuel : ℕ) (prefix : Text) (node : Node) (w : W)
      → is_config_name prefix ≡ true
      → is_map node ≡ false
      → (list_all_member types yaml (suc fuel) prefix node w).0 ≡ (prefix, node) ∷ []
  unfolding list_all_member
  list_leaf fuel prefix node w v m = rw (v, m) refl

  list_invalid :
      (fuel : ℕ) (prefix : Text) (node : Node) (w : W)
      → is_config_name prefix ≡ false
      → (list_all_member types yaml (suc fuel) prefix node w).0 ≡ []
  unfolding list_all_member
  list_invalid fuel prefix node w v = rw v refl

  In-self :
      {prefix : Text} {node : Node} {x : Text × Node} {rest : Members types yaml}
      → is_config_name prefix ≡ true
      → In x ((prefix, node) ∷ rest)
      → (In x rest → Lists prefix node x.0 x.1)
      → Lists prefix node x.0 x.1
  In-self v here k = self v
  In-self v (there i) k = k i

  pub list_all_member-Lists :
      (fuel : ℕ) (prefix : Text) (node : Node) (w : W) (x : Text × Node)
      → In x (list_all_member types yaml fuel prefix node w).0
      → Lists prefix node x.0 x.1
  list_all_member-Lists zero prefix node w x i = unfold list_all_member in elim i [ ]
  list_all_member-Lists (suc fuel) prefix node w x i = elim (Bool-cases (is_config_name prefix)) [
    | inr bad ↦ none_in (subst (In x) (list_invalid fuel prefix node w bad) i)
    | inl good ↦ elim (Bool-cases (is_map node)) [
      | inr leaf ↦
          In-self good (subst (In x) (list_leaf fuel prefix node w good leaf) i) (λ j. none_in j)
      | inl tree ↦ In-self good (subst (In x) (list_map fuel prefix node w good tree) i) λ j.
          let (key, value, v, m, n) =
            In-list_entries (list_all_member types yaml fuel) prefix (entries node) w j in
          member key value good tree m
            (list_all_member-Lists fuel (member_name types yaml prefix key) value v x n)
    ]
  ]
    where
      none_in : In x [] → Lists prefix node x.0 x.1
      none_in j = elim j [ ]

  Lists-list_all_member :
      ((node : Node) (e : Node × Node) → In e (entries node) → height e.1 < height node)
      → (fuel : ℕ) {prefix : Text} {node : Node} (w : W) {name : Text} {target : Node}
      → height node < fuel
      → Lists prefix node name target
      → In (name, target) (list_all_member types yaml fuel prefix node w).0
  Lists-list_all_member small zero w h l = absurd (omega arith)
  Lists-list_all_member small (suc fuel) {prefix} {node} w h (self v) =
      elim (Bool-cases (is_map node)) [
        | inl tree ↦ rw (list_map fuel prefix node w v tree) here
        | inr leaf ↦ rw (list_leaf fuel prefix node w v leaf) here
      ]
  Lists-list_all_member small (suc fuel) {prefix} {node} w h (member key value v tree m l) =
      rw (list_map fuel prefix node w v tree) (
        there (
          list_entries-In (list_all_member types yaml fuel) prefix (entries node) w (key, value) m
            λ u. Lists-list_all_member small fuel u (omega (arith, small node (key, value) m)) l))

  pub Lists-valid :
      {prefix : Text} {node : Node} {name : Text} {target : Node}
      → Lists prefix node name target
      → is_config_name name ≡ true
  Lists-valid (self v) = v
  Lists-valid (member key value v tree m l) = Lists-valid l

  -- With as much fuel as a node is high, `ListAllMember` lists a node under a name exactly if the
  -- relation `Lists` says so: all names are valid, maps are gone through, and the members of what
  -- has a name that is not valid are left out. What stands in a map has to be less high.
  pub list_all_member-In_iff :
      ((node : Node) (e : Node × Node) → In e (entries node) → height e.1 < height node)
      → (prefix : Text) (node : Node) (w : W) (name : Text) (target : Node)
      → In (name, target) (list_all_member types yaml (suc (height node)) prefix node w).0
        ↔ Lists prefix node name target
  list_all_member-In_iff small prefix node w name target = (
    list_all_member-Lists (suc (height node)) prefix node w (name, target),
    Lists-list_all_member small (suc (height node)) w (omega arith),
  )
