-- ===== src/Formatter/Grammar.antt =====
-- The patterns that `LogFormatter::init` takes apart, described on what is left of the pattern and
-- with no index.
use final_designer.Formatter.Scan.{Token, directive, flush}
use final_designer.Prelude.{
  Bool, true, false, not, ◌&&◌, ◌||◌, ◌≡◌, List, [], ◌∷◌, ◌++◌, ℕ, Text, codes, isalpha, all,
  is_empty, ◌==◌,
}

-- What the inner loop passes over before a brace.
abbrev pub is_name_char : ℕ → Bool
is_name_char c = isalpha c || c == b'}'

abbrev pub is_name : Text → Bool
is_name = all is_name_char

-- What it passes over inside braces.
abbrev pub is_inside : Text → Bool
is_inside = all (λ c. not (c == b'}'))

-- A directive with the name `w` ends in front of this.
abbrev pub ends : Text → Text → Bool
ends w [] = true
ends w (c ∷ _) = not (is_name_char c) && not (c == b'{') && not (is_empty w && c == b'%')

abbrev pub pattern_error : Token
pattern_error = record { str = codes "<pattern_error>"; fmt = []; kind = 0 }

-- `Reads p acc ts e`: from the literal text `acc` read so far, the rest `p` of a pattern gives the
-- tokens `ts`, and `e` tells of an error.
pub data Reads : Text → Text → List Token → Bool → Type 0 where
  done : {acc : Text} {ts : List Token} → ts ≡ flush acc → Reads [] acc ts false
  plain :
      {c : ℕ} {rest acc : Text} {ts : List Token} {e : Bool}
      → (c == b'%') ≡ false
      → Reads rest (acc ++ c ∷ []) ts e
      → Reads (c ∷ rest) acc ts e
  percent :
      {p : Text} {rest acc : Text} {ts : List Token} {e : Bool}
      → p ≡ b'%' ∷ b'%' ∷ rest
      → Reads (b'%' ∷ rest) (acc ++ b'%' ∷ []) ts e
      → Reads p acc ts e
  bare :
      {p acc : Text} {us : List Token} {e : Bool} (w rest : Text) (ts : List Token)
      → p ≡ b'%' ∷ (w ++ rest)
      → us ≡ flush acc ++ directive w [] ∷ ts
      → is_name w ≡ true
      → ends w rest ≡ true
      → Reads rest [] ts e
      → Reads p acc us e
  braced :
      {p acc : Text} {us : List Token} {e : Bool} (w f rest : Text) (ts : List Token)
      → p ≡ b'%' ∷ (w ++ b'{' ∷ (f ++ b'}' ∷ rest))
      → us ≡ flush acc ++ directive w f ∷ ts
      → is_name w ≡ true
      → is_inside f ≡ true
      → Reads rest [] ts e
      → Reads p acc us e
  unclosed :
      {p acc : Text} {us : List Token} {e : Bool} (w f : Text) (ts : List Token)
      → p ≡ b'%' ∷ (w ++ b'{' ∷ f)
      → us ≡ pattern_error ∷ ts
      → is_name w ≡ true
      → is_inside f ≡ true
      → Reads (w ++ b'{' ∷ f) acc ts e
      → Reads p acc us true
