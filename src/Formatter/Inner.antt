-- ===== src/Formatter/Inner.antt =====
-- The inner loop of `LogFormatter::init` over each kind of directive.
use final_designer.Formatter.Grammar.{is_name_char, is_name, is_inside, ends}
use final_designer.Formatter.Scan.{Inner, stop, again, inner_step, inner, inner_start}
use final_designer.Prelude.{
  ℕ, ◌+◌, ◌-◌, true, false, ◌≡◌, ◌≢◌, refl, ◌∙◌, [], ◌∷◌, ◌++◌, Text, substr, length, drop,
  take-append, drop-add, drop-append, length-append, arith, ap, is_empty, isalpha, ◌==◌,
  if◌then◌else◌, ◌&&◌, append-nil, ap₂, &&-eq-true,
}

-- The state of the loop at `n` outside braces, and inside those opened at `b`.
abbrev outside : ℕ → Text → Inner
outside n str = record { n = n; fmt_status = 0; fmt_begin = 0; str = str; fmt = [] }

abbrev within : ℕ → ℕ → Text → Inner
within b n str = record { n = n; fmt_status = 1; fmt_begin = b; str = str; fmt = [] }

module _ (p : Text) (i : ℕ) where
  inner-again :
      (c : ℕ) (rest : Text) (s s' : Inner)
      → inner_step p i c s ≡ again s'
      → inner p i (c ∷ rest) s ≡ inner p i rest s'
  unfolding inner
  inner-again c rest s s' e = rw (e, inner)

  inner-stop :
      (c : ℕ) (rest : Text) (s s' : Inner)
      → inner_step p i c s ≡ stop s'
      → inner p i (c ∷ rest) s ≡ s'
  unfolding inner
  inner-stop c rest s s' e = rw (e, inner)

  inner-nil : (s : Inner) → inner p i [] s ≡ s
  unfolding inner
  inner-nil s = refl

  step-close :
      (b n : ℕ) (str : Text)
      → inner_step p i b'}' (within b n str)
        ≡ stop (record {
          n = n + 1;
          fmt_status = 0;
          fmt_begin = b;
          str = str;
          fmt = substr p (b + 1) (n - b - 1);
        })
  unfolding inner_step
  step-close b n str = refl

  step-name :
      (c n : ℕ)
      → is_name_char c ≡ true
      → n + 1 ≢ length p
      → inner_step p i c (outside n []) ≡ again (outside (n + 1) [])
  unfolding inner_step isalpha
  step-name c n name more = ground arith

  step-name_last :
      (c n : ℕ)
      → is_name_char c ≡ true
      → n + 1 ≡ length p
      → inner_step p i c (outside n []) ≡ again (outside (n + 1) (drop (i + 1) p))
  unfolding inner_step isalpha
  step-name_last c n name last = ground arith

  step-open :
      (n : ℕ)
      → inner_step p i b'{' (outside n []) ≡ again (within n (n + 1) (substr p (i + 1) (n - i - 1)))
  unfolding inner_step isalpha
  step-open n = refl

  step-inside :
      (c b n : ℕ) (str : Text)
      → (c == b'}') ≡ false
      → n + 1 ≢ length p
      → inner_step p i c (within b n str) ≡ again (within b (n + 1) str)
  unfolding inner_step
  step-inside c b n str inside more = ground arith

  step-ends :
      (c n : ℕ) (w rest : Text)
      → ends w (c ∷ rest) ≡ true
      → inner_step p i c (outside n []) ≡ stop (outside n (substr p (i + 1) (n - i - 1)))
  unfolding inner_step
  step-ends c n w rest e = ground arith

  inner-name :
      (w : Text) (c : ℕ) (rest : Text) (n : ℕ)
      → is_name w ≡ true
      → n + length (w ++ c ∷ rest) ≡ length p
      → inner p i (w ++ c ∷ rest) (outside n []) ≡ inner p i (c ∷ rest) (outside (n + length w) [])
  inner-name [] c rest n name size =
      ap (λ (k : ℕ). inner p i (c ∷ rest) (outside k [])) (omega arith)
  inner-name (d ∷ w) c rest n name size =
      inner-again d _ _ _
        (step-name d n (&&-eq-true _ _ name).0 (omega (arith, length-append w (c ∷ rest))))
      ∙ inner-name w c rest (n + 1) (&&-eq-true _ _ name).1 (omega arith)
      ∙ ap (λ (k : ℕ). inner p i (c ∷ rest) (outside k [])) (omega arith)

  inner-inside :
      (f : Text) (c : ℕ) (rest : Text) (b n : ℕ) (str : Text)
      → is_inside f ≡ true
      → n + length (f ++ c ∷ rest) ≡ length p
      → inner p i (f ++ c ∷ rest) (within b n str)
        ≡ inner p i (c ∷ rest) (within b (n + length f) str)
  inner-inside [] c rest b n str inside size =
      ap (λ (k : ℕ). inner p i (c ∷ rest) (within b k str)) (omega arith)
  inner-inside (d ∷ f) c rest b n str inside size =
      inner-again d _ _ _
        (step-inside d b n str (ground arith) (omega (arith, length-append f (c ∷ rest))))
      ∙ inner-inside f c rest b (n + 1) str (&&-eq-true _ _ inside).1 (omega arith)
      ∙ ap (λ (k : ℕ). inner p i (c ∷ rest) (within b k str)) (omega arith)

  -- A name that runs up to the end.
  inner-name_last :
      (w : Text) (n : ℕ)
      → is_name w ≡ true
      → n + length w ≡ length p
      → w ≢ []
      → inner p i w (outside n []) ≡ outside (length p) (drop (i + 1) p)
  inner-name_last [] n name size ne = absurd (ne refl)
  inner-name_last (d ∷ []) n name size ne =
      inner-again d _ _ _ (step-name_last d n (&&-eq-true _ _ name).0 (omega arith))
      ∙ inner-nil _
      ∙ ap (λ (k : ℕ). outside k (drop (i + 1) p)) size
  inner-name_last (d ∷ c ∷ w) n name size ne =
      inner-again d _ _ _ (step-name d n (&&-eq-true _ _ name).0 (omega arith))
      ∙ inner-name_last (c ∷ w) (n + 1) (&&-eq-true _ _ name).1 (omega arith) (λ e. cc)

  step-unclosed :
      (c b n : ℕ) (str : Text)
      → (c == b'}') ≡ false
      → (str' : Text) × (inner_step p i c (within b n str) ≡ again (within b (n + 1) str'))
  unfolding inner_step
  step-unclosed c b n str inside =
      ((if n + 1 == length p && is_empty str then drop (i + 1) p else str), ground arith)

  -- Inside braces that are never closed.
  inner-unclosed :
      (f : Text) (b n : ℕ) (str : Text)
      → is_inside f ≡ true
      → ((inner p i f (within b n str)).fmt_status ≡ 1) × ((inner p i f (within b n str)).fmt ≡ [])
  inner-unclosed [] b n str inside = unfold inner in (refl, refl)
  inner-unclosed (c ∷ f) b n str inside =
      let (str', e) = step-unclosed c b n str (ground arith) in
      rw (inner-again c f _ _ e) (inner-unclosed f b (n + 1) str' (&&-eq-true _ _ inside).1)

-- The pattern `p` has `tail` behind the index `i`.
pub record Behind (p : Text) (i : ℕ) (tail : Text) : Type 0 where
  pub dropped : drop (i + 1) p ≡ tail
  pub size : length p ≡ i + 1 + length tail

substr-Behind :
    (p : Text) (i n : ℕ) (w rest : Text)
    → Behind p i (w ++ rest)
    → n ≡ i + 1 + length w
    → substr p (i + 1) (n - i - 1) ≡ w
unfolding substr
substr-Behind p i n w rest h e =
    let len : n - i - 1 ≡ length w = omega arith in rw (len, h.dropped) (take-append w rest)

substr-Behind_inside :
    (p : Text) (i b n : ℕ) (w f : Text) (c d : ℕ) (rest : Text)
    → Behind p i (w ++ c ∷ (f ++ d ∷ rest))
    → b ≡ i + 1 + length w
    → n ≡ b + 1 + length f
    → substr p (b + 1) (n - b - 1) ≡ f
unfolding substr
substr-Behind_inside p i b n w f c d rest h e e' =
    let len : n - b - 1 ≡ length f = omega arith in
    let start : b + 1 ≡ i + 1 + (length w + 1) = omega arith in
    rw
      (len, start, drop-add (i + 1) (length w + 1) p, h.dropped, drop-add (length w) 1, drop-append)
      (take-append f (d ∷ rest))

module _ {p : Text} {i : ℕ} where
  -- The loop over a directive without braces.
  pub inner_bare :
      (w rest : Text)
      → Behind p i (w ++ rest)
      → is_name w ≡ true
      → ends w rest ≡ true
      → inner p i (w ++ rest) (inner_start i) ≡ outside (i + 1 + length w) w
  inner_bare [] [] h name e = inner-nil p i _ ∙ ap (λ (k : ℕ). outside k []) (omega arith)
  inner_bare (c ∷ w) [] h name e = rw (append-nil w) (
      inner-name_last p i (c ∷ w) (i + 1) name (omega (arith, h.size, ap length (append-nil w)))
        (λ q. cc)
      ∙ ap₂ outside (omega (arith, h.size, ap length (append-nil w)))
          (h.dropped ∙ append-nil (c ∷ w)))
  inner_bare w (c ∷ rest) h name e =
      inner-name p i w c rest (i + 1) name (omega (arith, h.size))
      ∙ inner-stop p i c rest _ _ (step-ends p i c _ w rest e)
      ∙ ap (outside (i + 1 + length w)) (substr-Behind p i _ w (c ∷ rest) h refl)

  -- The loop over a directive with braces.
  pub inner_braced :
      (w f rest : Text)
      → Behind p i (w ++ b'{' ∷ (f ++ b'}' ∷ rest))
      → is_name w ≡ true
      → is_inside f ≡ true
      → inner p i (w ++ b'{' ∷ (f ++ b'}' ∷ rest)) (inner_start i) ≡ record {
        n = i + 1 + length w + 1 + length f + 1;
        fmt_status = 0;
        fmt_begin = i + 1 + length w;
        str = w;
        fmt = f;
      }
  inner_braced w f rest h name inside =
      inner-name p i w b'{' _ (i + 1) name (omega (arith, h.size))
      ∙ inner-again p i b'{' _ _ _ (step-open p i (i + 1 + length w))
      ∙ inner-inside p i f b'}' rest _ _ _ inside
          (omega (arith, h.size, length-append w (b'{' ∷ (f ++ b'}' ∷ rest))))
      ∙ inner-stop p i b'}' rest _ _ (step-close p i (i + 1 + length w) _ _)
      ∙ rw (
        substr-Behind p i _ w _ h refl,
        substr-Behind_inside p i _ _ w f b'{' b'}' rest h refl refl,
      )

  pub inner_unclosed :
      (w f : Text)
      → Behind p i (w ++ b'{' ∷ f)
      → is_name w ≡ true
      → is_inside f ≡ true
      → ((inner p i (w ++ b'{' ∷ f) (inner_start i)).fmt_status ≡ 1)
        × ((inner p i (w ++ b'{' ∷ f) (inner_start i)).fmt ≡ [])
  inner_unclosed w f h name inside =
      rw (inner-name p i w b'{' f (i + 1) name (omega (arith, h.size))) (
        rw (inner-again p i b'{' f _ _ (step-open p i (i + 1 + length w)))
          (inner-unclosed p i f _ _ _ inside))
