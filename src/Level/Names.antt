-- ===== src/Level/Names.antt =====
-- `LogLevel::toString` and `LogLevel::fromString` against each other.
use final_designer.Prelude.{
  Text, codes, map, toupper, tolower, text_eq, text_eq_iff, ◌≡◌, ◌⊎◌, ◌↔◌, if◌then◌else◌, leb,
  arith, map-toupper_idem, map-toupper-tolower, true,
}
use final_designer.Level.{Level, unknow, fatal, to_string, from_string}

-- Printing a level and reading it back gives the level if it is one of the six enumerators, and
-- `UNKNOW` for every other number.
pub from_string-to_string :
    (l : Level) → (from_string (to_string l)).0 ≡ (if leb l fatal then l else unknow)
unfolding from_string to_string text_eq toupper
from_string-to_string l = ground arith

-- The case of the text makes no difference to the level, and the argument is left upper-cased.
pub from_string_case :
    (s : Text)
    → ((from_string (map tolower s)).0 ≡ (from_string s).0) × ((from_string s).1 ≡ map toupper s)
unfolding from_string
from_string_case s = ground (arith, map-toupper_idem s, map-toupper-tolower s)

-- Reading a text and printing the level gives the text back in upper case, unless the text names
-- no level; then the level is `UNKNOW`.
to_string-from_string :
    (s : Text) → (to_string (from_string s).0 ≡ map toupper s) ⊎ ((from_string s).0 ≡ unknow)
unfolding from_string to_string
to_string-from_string s =
    let names : Text → Type 0 = λ t. (text_eq (map toupper s) t ≡ true) ↔ (map toupper s ≡ t) in
    let named : (t : Text) → names t = text_eq_iff (map toupper s) in
    simp map-toupper_idem (
      ground (
        arith,
        named (codes "DEBUG"),
        named (codes "INFO"),
        named (codes "WARN"),
        named (codes "ERROR"),
        named (codes "FATAL"),
      ))
