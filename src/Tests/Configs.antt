-- ===== src/Tests/Configs.antt =====
-- Configuration: nnysl/config.h and nnysl/config.cpp, on two kinds of variables and small documents.
use final_designer.Config.Changes.{SetsValue, SetsFrom, set_value-cases, from_string-cases}
use final_designer.Config.Listeners.{add_listener-del_listener, are_taken}
use final_designer.Config.Load.{Yaml, list_entries, list_all_member, load_from_yaml}
use final_designer.Config.Loading.{
  load_from_yaml-Becomes, load_from_yaml-IsSound, load_from_yaml_last,
}
use final_designer.Config.Loads.{Becomes, node_text}
use final_designer.Config.Pointers.{as_found, lookup_or_make-lookup}
use final_designer.Config.Lookups.{IsSound, lookup_or_make-IsSound}
use final_designer.Config.Members.{In, here, there, Lists, list_all_member-In_iff}
use final_designer.Config.Registry.{
  Types, Registry, find_data, lookup_base, cell_from_string, lookup_or_make, lookup,
}
use final_designer.Config.Var.{
  Outcome, returns, throws, Listener, Var, new_var, set_value, add_listener, call_listeners, put,
  del_listener,
}
use final_designer.Prelude.{
  ℕ, suc, ◌+◌, ◌-◌, ◌<◌, ◌≡◌, ◌≢◌, ◌↔◌, refl, Bool, true, false, List, [], ◌∷◌, ◌++◌, Text, codes,
  text_eq, decimal, tolower, find_first_not_of, some, get_elem?, arith, ◌⊎◌, ◌==◌,
}

data Sort : Type 0 where
  number : Sort
  word : Sort

same_sort : Sort → Sort → Bool
same_sort number number = true
same_sort word word = true
same_sort _ _ = false

same_sort_iff : (k l : Sort) → (same_sort k l ≡ true) ↔ (k ≡ l)
unfolding same_sort
same_sort_iff number number = (λ _. refl, λ _. refl)
same_sort_iff number word = (λ h. cc, λ h. cc)
same_sort_iff word number = (λ h. cc, λ h. cc)
same_sort_iff word word = (λ _. refl, λ _. refl)

abbrev Value : Sort → Type 0
Value number = ℕ
Value word = Text

equal : (k : Sort) → Value k → Value k → Bool
equal number a b = a == b
equal word a b = text_eq a b

-- A number is one digit.
read : (k : Sort) → Text → Outcome (Value k)
read number (c ∷ []) = returns (c - 48)
read number _ = throws (codes "bad lexical cast")
read word s = returns s

write : (k : Sort) → Value k → Outcome Text
write number n = returns (decimal n)
write word s = returns s

abbrev types : Types (List Text)
types = record {
  Kind = Sort;
  same = same_sort;
  same_iff = same_sort_iff;
  type_name = λ k. elim k [ number ↦ codes "i" | word ↦ codes "Ss" ];
  Val = Value;
  eq = equal;
  from_str = read;
  to_str = write;
  log_root = λ level text w. w ++ text ∷ [];
}

data Doc : Type 0 where
  leaf : Text → Doc
  nothing : Doc
  entry : Text → Doc → Doc → Doc

is_leaf : Doc → Bool
is_leaf (leaf s) = true
is_leaf _ = false

is_tree : Doc → Bool
is_tree (leaf s) = false
is_tree _ = true

scalar_of : Doc → Text
scalar_of (leaf s) = s
scalar_of _ = []

entries_of : Doc → List (Doc × Doc)
entries_of (entry k v rest) = (leaf k, v) ∷ entries_of rest
entries_of _ = []

height_of : Doc → ℕ
height_of (entry k v rest) = height_of v + height_of rest + 1
height_of _ = 0

abbrev yaml : Yaml
yaml = record {
  Node = Doc;
  is_map = is_tree;
  is_scalar = is_leaf;
  scalar = scalar_of;
  entries = entries_of;
  dump = λ _. codes "...";
  height = height_of;
}

entries_of-small :
    (node : Doc) (e : Doc × Doc) → In e (entries_of node) → height_of e.1 < height_of node
unfolding entries_of height_of
entries_of-small (entry k v rest) e here = omega arith
entries_of-small (entry k v rest) e (there i) = omega (arith, entries_of-small rest e i)
entries_of-small (leaf s) e i = elim i [ ]
entries_of-small nothing e i = elim i [ ]

-- server: { port: 8 }, port: 9
abbrev document : Doc
document =
    entry (codes "server") (entry (codes "port") (leaf (codes "8")) nothing)
      (entry (codes "port") (leaf (codes "9")) nothing)

abbrev empty_registry : Registry types
empty_registry = record { cells = []; datas = []; world = [] }

abbrev registry : Registry types
registry = (lookup_or_make types empty_registry number (codes "server.port") 1 (codes "port")).0

empty_registry-IsSound : IsSound types empty_registry
unfolding find_data
empty_registry-IsSound name i e = cc

registry-IsSound : IsSound types registry
registry-IsSound =
    lookup_or_make-IsSound types empty_registry number (codes "server.port") 1 (codes "port")
      empty_registry-IsSound

abbrev listener : Listener ℕ (List Text)
listener old new w = (w ++ decimal old ∷ decimal new ∷ [], returns tt)

abbrev refuses : Listener ℕ (List Text)
refuses old new w = (w, throws (codes "no"))

abbrev port : Var ℕ (List Text)
port = (add_listener 0 (new_var (codes "server.port") 1 (codes "port")) listener).1

abbrev note : Text → List Text → List Text
note e w = w ++ e ∷ []

-- The port is set to 8 and then refused 9.
port_set :
    set_value (equal number) port 8 []
    ≡ (record port { val = 8 }, codes "1" ∷ codes "8" ∷ [], returns tt)
unfolding set_value equal call_listeners add_listener new_var put decimal tolower
port_set = refl

port_refused :
    set_value (equal number) (add_listener 1 port refuses).1 9 []
    ≡ ((add_listener 1 port refuses).1, codes "1" ∷ codes "9" ∷ [], throws (codes "no"))
unfolding set_value equal call_listeners add_listener new_var put decimal tolower
port_refused = refl

set_value-cases_example : SetsValue (equal number) (add_listener 1 port refuses).1 9 []
set_value-cases_example = set_value-cases (equal number) (add_listener 1 port refuses).1 9 []

from_string-cases_example : SetsFrom (equal number) (read number) note port (codes "8") []
from_string-cases_example = from_string-cases (equal number) (read number) note port (codes "8") []

port-are_taken : are_taken 1 port.cbs ≡ true
unfolding add_listener put new_var
port-are_taken = refl

add_listener-del_listener_example :
    ((add_listener 1 port refuses).0 ≡ 2)
    × ((add_listener 1 port refuses).1.cbs ≡ port.cbs ++ (2, refuses) ∷ [])
    × (are_taken 2 (add_listener 1 port refuses).1.cbs ≡ true)
    × (del_listener (add_listener 1 port refuses).1 (add_listener 1 port refuses).0 ≡ port)
add_listener-del_listener_example =
    add_listener-del_listener 1 port refuses port-are_taken (omega arith)

list_all_member-In_iff_example :
    In
      (codes "server.port", leaf (codes "8"))
      (list_all_member types yaml (suc (height_of document)) [] document []).0
    ↔ Lists types yaml [] document (codes "server.port") (leaf (codes "8"))
list_all_member-In_iff_example =
    list_all_member-In_iff types yaml entries_of-small [] document [] (codes "server.port")
      (leaf (codes "8"))

lookup_or_make-IsSound_example :
    IsSound types (lookup_or_make types registry word (codes "name") (codes "a") []).0
lookup_or_make-IsSound_example =
    lookup_or_make-IsSound types registry word (codes "name") (codes "a") [] registry-IsSound

lookup_or_make-lookup_example :
    lookup types
      (lookup_or_make types registry word (codes "name") (codes "a") []).0
      word
      (codes "name")
    ≡ as_found (lookup_or_make types registry word (codes "name") (codes "a") []).1
lookup_or_make-lookup_example =
    lookup_or_make-lookup types registry word (codes "name") (codes "a") []

registry-find_data : find_data types registry.datas (codes "server.port") ≡ some 0
unfolding lookup_or_make find_data text_eq find_first_not_of
registry-find_data = refl

abbrev port_var : Var ℕ (List Text)
port_var = new_var (codes "server.port") 1 (codes "port")

registry-cell : get_elem? registry.cells 0 ≡ some (record { kind = number; var = port_var })
unfolding lookup_or_make find_data find_first_not_of
registry-cell = refl

load_from_yaml-Becomes_example :
    Becomes types
      (λ text.
        (node : Doc) × Lists types yaml [] document (codes "server.port") node
        × (node_text types yaml node ≡ text))
      number
      port_var
      (load_from_yaml types yaml registry document).cells
      0
load_from_yaml-Becomes_example =
    load_from_yaml-Becomes types yaml registry document (codes "server.port") 0 number port_var
      registry-IsSound registry-find_data registry-cell

load_from_yaml-IsSound_example : IsSound types (load_from_yaml types yaml registry document)
load_from_yaml-IsSound_example =
    load_from_yaml-IsSound types yaml registry document registry-IsSound

abbrev inner_document : Doc
inner_document = entry (codes "port") (leaf (codes "8")) nothing

document-members :
    (list_all_member types yaml (suc (height_of document)) [] document registry.world).0
    ≡ (([], document) ∷ (codes "server", inner_document) ∷ [])
      ++ (codes "server.port", leaf (codes "8")) ∷ (codes "port", leaf (codes "9")) ∷ []
unfolding list_all_member list_entries height_of entries_of find_first_not_of is_tree scalar_of
document-members = refl

port-others :
    (m : Text × Doc) → In m ((codes "port", leaf (codes "9")) ∷ []) → m.0 ≢ codes "server.port"
port-others m here e = cc
port-others m (there i) e = elim i [ ]

-- Loading the document sets the port to 8.
port_loaded :
    get_elem? (load_from_yaml types yaml registry document).cells 0
    ≡ some (record { kind = number; var = record port_var { val = 8 } })
unfolding load_from_yaml find_first_not_of is_tree entries_of height_of scalar_of lookup_base
    lookup_or_make text_eq tolower cell_from_string read is_leaf equal
port_loaded = refl

load_from_yaml_last_example :
    (u : ℕ) × ((u ≡ 8) ⊎ (equal number 8 u ≡ true))
    × (get_elem? (load_from_yaml types yaml registry document).cells 0
        ≡ some (record { kind = number; var = record port_var { val = u } }))
unfolding new_var read is_leaf scalar_of
load_from_yaml_last_example =
    load_from_yaml_last types yaml registry document
      (([], document) ∷ (codes "server", inner_document) ∷ [])
      ((codes "port", leaf (codes "9")) ∷ []) (codes "server.port") (leaf (codes "8")) 0 number
      port_var 8 registry-IsSound registry-find_data registry-cell refl refl document-members
      port-others refl
