-- ===== src/Prelude/Strings.antt =====
-- `std::string` as the list of its bytes, with the character functions of the C locale and the
-- few members of `std::string` and `std::ostream` that the sources call.
use Prim.Native.Char.{code}
use Prim.Native.Nat.{ℕ, zero, suc, ◌+◌, ◌-◌, ◌/◌, ◌%◌}
use Prim.Native.String.{String}
use mathlib.Core.Path.{◌≡◌, refl}
use mathlib.Core.Logic.{◌↔◌, ◌≢◌, inl, inr}
use mathlib.Core.Bool.{Bool, true, false, ◌&&◌, ◌||◌}
use mathlib.Core.List.{List, [], ◌∷◌, map}
use mathlib.Core.Option.{Option, none, some}
use mathlib.Core.Option
use native.Mathlib.Omega.{arith}
use final_designer.Prelude.Lists.{take, drop}
use final_designer.Prelude.Tests.{leb, ◌==◌, if◌then◌else◌, Bool-cases}

abbrev pub Text : Type 0
Text = List ℕ

-- The bytes of a literal; every literal in the sources that a definition names is ASCII.
abbrev pub codes : String → Text
codes String.[] = []
codes (String.◌∷◌ c s) = code c ∷ codes s

-- `std::string::operator==`
unfoldable pub text_eq : Text → Text → Bool
text_eq [] [] = true
text_eq (x ∷ xs) (y ∷ ys) = x == y && text_eq xs ys
text_eq _ _ = false

pub text_eq_iff : (a b : Text) → (text_eq a b ≡ true) ↔ (a ≡ b)
unfolding text_eq
text_eq_iff (x ∷ a) (y ∷ b) = ground (arith, text_eq_iff a b)
text_eq_iff _ _ = ground arith

pub text_eq_refl : (a : Text) → text_eq a a ≡ true
text_eq_refl a = (text_eq_iff a a).1 refl

pub text_eq-eq-false : (a b : Text) → a ≢ b → text_eq a b ≡ false
text_eq-eq-false a b h = elim (Bool-cases (text_eq a b)) [
  | inl e ↦ absurd (h ((text_eq_iff a b).0 e))
  | inr e ↦ e
]

-- `::toupper`, `::tolower` and `isalpha`
unfoldable pub toupper : ℕ → ℕ
toupper c = if leb b'a' c && leb c b'z' then c - 32 else c

unfoldable pub tolower : ℕ → ℕ
tolower c = if leb b'A' c && leb c b'Z' then c + 32 else c

unfoldable pub isalpha : ℕ → Bool
isalpha c = (leb b'a' c && leb c b'z') || (leb b'A' c && leb c b'Z')

toupper-tolower : (c : ℕ) → toupper (tolower c) ≡ toupper c
unfolding toupper tolower
toupper-tolower c = ground arith

pub map-toupper-tolower : (s : Text) → map toupper (map tolower s) ≡ map toupper s
map-toupper-tolower [] = refl
map-toupper-tolower (c ∷ s) = ground (arith, toupper-tolower c, map-toupper-tolower s)

toupper_idem : (c : ℕ) → toupper (toupper c) ≡ toupper c
unfolding toupper
toupper_idem c = ground arith

pub map-toupper_idem : (s : Text) → map toupper (map toupper s) ≡ map toupper s
map-toupper_idem [] = refl
map-toupper_idem (c ∷ s) = ground (arith, toupper_idem c, map-toupper_idem s)

-- Membership of a byte in a text, and `std::string::find_first_not_of`, whose `npos` is `none`.
unfoldable pub contains : Text → ℕ → Bool
contains [] c = false
contains (d ∷ ds) c = c == d || contains ds c

unfoldable pub find_first_not_of : Text → Text → Option ℕ
unfolding contains
find_first_not_of [] set = none
find_first_not_of (c ∷ s) set =
    if contains set c then Option.map suc (find_first_not_of s set) else some 0

-- `s.substr(pos, len)`, for `pos` at most the size.
unfoldable pub substr : Text → ℕ → ℕ → Text
substr s pos len = take len (drop pos s)

-- `os << n` for an unsigned `n`: `fuel` digits at most.
digits_onto : ℕ → ℕ → Text → Text
digits_onto zero n out = out
digits_onto (suc fuel) n out =
    let out' : Text = (b'0' + n % 10) ∷ out in
    let rest = digits_onto fuel (n / 10) out' in if n / 10 == 0 then out' else rest

-- Twenty digits are enough for a 64-bit number.
unfoldable pub decimal : ℕ → Text
unfolding digits_onto
decimal n = digits_onto 20 n []

-- A signed number: `negsuc n` is -(n + 1).
pub data ℤ : Type 0 where
  pos : ℕ → ℤ
  negsuc : ℕ → ℤ

unfoldable pub decimal_signed : ℤ → Text
unfolding decimal
decimal_signed (pos n) = decimal n
decimal_signed (negsuc n) = b'-' ∷ decimal (n + 1)
