-- ===== src/Formatter/Errors.antt =====
-- Patterns that `LogFormatter::init` does not take as they are meant.
use final_designer.Formatter.Grammar.{
  is_name, is_inside, ends, pattern_error, Reads, percent, bare, unclosed, done,
}
use final_designer.Formatter.Item.{find_item}
use final_designer.Formatter.Reading.{scan-Reads}
use final_designer.Formatter.Meaning.{Reads-text}
use final_designer.Formatter.Total.{read}
use final_designer.Formatter.Scan.{
  Token, literal, directive, flush, scan, make_items, new_formatter,
}
use final_designer.Prelude.{
  ℕ, Bool, true, false, not, ◌≡◌, refl, ◌∙◌, ap, List, [], ◌∷◌, ◌++◌, Text, arith, append-nil,
  append_assoc, ◌==◌, isalpha, all, text_eq, subst,
}

-- A text with no `%` in it.
abbrev pub is_plain : Text → Bool
is_plain = all (λ c. not (c == b'%'))

flush-cons : (a s : Text) (c : ℕ) → flush (a ++ c ∷ s) ≡ literal (a ++ c ∷ s) ∷ []
flush-cons [] s c = refl
flush-cons (d ∷ a) s c = refl

is_name-is_plain : (w : Text) → is_name w ≡ true → is_plain w ≡ true
unfolding isalpha
is_name-is_plain [] h = refl
is_name-is_plain (c ∷ w) h = ground (arith, is_name-is_plain w)

is_plain-append : (a b : Text) → is_plain a ≡ true → is_plain b ≡ true → is_plain (a ++ b) ≡ true
is_plain-append [] b h k = k
is_plain-append (c ∷ a) b h k = ground (arith, is_plain-append a b)

-- A doubled `%` does not stand for one: the first is a literal `%`, and the second begins a
-- directive, whatever text, without a `%`, stands in front.
scan_double_percent :
    (a w rest : Text)
    → is_plain a ≡ true
    → is_name w ≡ true
    → ends w rest ≡ true
    → ((scan (a ++ b'%' ∷ b'%' ∷ (w ++ rest))).vec
        ≡ literal (a ++ b'%' ∷ []) ∷ directive w [] ∷ (scan rest).vec)
      × ((scan (a ++ b'%' ∷ b'%' ∷ (w ++ rest))).error ≡ (scan rest).error)
scan_double_percent a w rest h name e =
    let (v, f, i) =
      scan-Reads _
        (Reads-text a _ [] h (percent refl (bare w rest _ refl refl name e (read rest)))) in
    (v ∙ ap (λ (l : List Token). l ++ directive w [] ∷ (scan rest).vec) (flush-cons a [] b'%'), f)

-- In particular such a pattern is refused if no directive's name stands behind the two.
pub double_percent-is_error :
    (a rest : Text)
    → is_plain a ≡ true
    → ends [] rest ≡ true
    → (new_formatter (a ++ b'%' ∷ b'%' ∷ rest)).is_error ≡ true
unfolding new_formatter make_items find_item text_eq
double_percent-is_error a rest h e =
    let (v, f) = scan_double_percent a [] rest h refl e in rw v (ground arith)

-- A brace that is not closed is an error, and the text in front of the directive comes out behind
-- the error's token, joined to the directive's own text without its `%`.
scan_unclosed :
    (a w f : Text)
    → is_plain a ≡ true
    → is_name w ≡ true
    → is_inside f ≡ true
    → is_plain f ≡ true
    → ((scan (a ++ b'%' ∷ (w ++ b'{' ∷ f))).vec
        ≡ pattern_error ∷ literal (a ++ (w ++ b'{' ∷ f)) ∷ [])
      × ((scan (a ++ b'%' ∷ (w ++ b'{' ∷ f))).error ≡ true)
scan_unclosed a w f h name inside p =
    let tail : Text = w ++ b'{' ∷ f in
    let plain_tail : is_plain tail ≡ true =
      is_plain-append w (b'{' ∷ f) (is_name-is_plain w name) p in
    let last =
      subst (λ (u : Text). Reads u a (flush (a ++ tail)) false) (append-nil tail)
        (Reads-text tail [] a plain_tail (done refl)) in
    let (v, e, i) =
      scan-Reads _ (Reads-text a _ [] h (unclosed w f _ refl refl name inside last)) in
    (
      v
          ∙ ap (◌∷◌ pattern_error) (
              subst (λ (u : Text). flush u ≡ literal u ∷ []) (append_assoc a w (b'{' ∷ f))
                (flush-cons (a ++ w) f b'{')),
      e,
    )
