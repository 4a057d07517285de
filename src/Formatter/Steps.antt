-- ===== src/Formatter/Steps.antt =====
-- Rounds of the outer loop of `LogFormatter::init`, one for each rule of the grammar.
use final_designer.Formatter.Grammar.{is_name, is_inside, ends, pattern_error}
use final_designer.Formatter.Inner.{Behind, inner_bare, inner_braced, inner_unclosed}
use final_designer.Formatter.Scan.{
  directive, flush, Inner, inner, inner_start, Outer, is_at, close, outer_step, outer,
}
use final_designer.Prelude.{
  ℕ, zero, suc, ◌+◌, ◌≤◌, true, false, ◌≡◌, refl, ◌∙◌, ap, [], ◌∷◌, ◌++◌, Text, length, drop,
  get_elem?-drop, get_elem?-drop_nil, drop_behind, arith, length-append, ◌==◌, isalpha, drop-append,
  drop-add,
}

-- The outer loop stands at `i`, with `rest` at and behind it.
pub record At (p : Text) (i : ℕ) (rest : Text) : Type 0 where
  pub here : drop i p ≡ rest
  pub size : length p ≡ i + length rest

pub At-cons : {p : Text} {i : ℕ} {c : ℕ} {rest : Text} → At p i (c ∷ rest) → At p (i + 1) rest
At-cons {p} {i} {c} {rest} a = record {
  here = drop_behind i p rest c a.here;
  size = omega (arith, a.size);
}

pub At-Behind : {p : Text} {i : ℕ} {c : ℕ} {rest : Text} → At p i (c ∷ rest) → Behind p i rest
At-Behind a = let b = At-cons a in record { dropped = b.here; size = b.size }

pub At-append :
    {p : Text} {i : ℕ} (w rest : Text) (j : ℕ) → At p i (w ++ rest) → j ≡ i + length w → At p j rest
At-append {p} {i} w rest j a e = record {
  here = rw (e, drop-add i (length w) p, a.here) (drop-append w rest);
  size = omega (arith, a.size, length-append w rest);
}

module _ (p : Text) where
  pub step-plain :
      (c : ℕ) (o : Outer)
      → (c == b'%') ≡ false
      → outer_step p c o ≡ record o { i = o.i + 1; n_str = o.n_str ++ c ∷ [] }
  unfolding outer_step
  step-plain c o h = rw h

  pub step-percent :
      (o : Outer)
      → is_at p (o.i + 1) b'%' ≡ true
      → outer_step p b'%' o ≡ record o { i = o.i + 1; n_str = o.n_str ++ b'%' ∷ [] }
  unfolding outer_step
  step-percent o h = rw h

  step-directive :
      (o : Outer) {tail : Text}
      → Behind p o.i tail
      → is_at p (o.i + 1) b'%' ≡ false
      → outer_step p b'%' o ≡ close p o (inner p o.i tail (inner_start o.i))
  unfolding outer_step
  step-directive o b h = rw (h, b.dropped)

  pub outer-step :
      (fuel c : ℕ) (rest : Text) (o o' : Outer)
      → At p o.i (c ∷ rest)
      → outer_step p c o ≡ o'
      → outer (suc fuel) p o ≡ outer fuel p o'
  unfolding outer
  outer-step fuel c rest o o' a e =
      rw (get_elem?-drop o.i p rest c a.here, outer) (ap (outer fuel p) e)

  pub outer-end : (fuel : ℕ) (o : Outer) → At p o.i [] → outer fuel p o ≡ o
  unfolding outer
  outer-end zero o a = refl
  outer-end (suc fuel) o a = rw (get_elem?-drop_nil o.i p a.here, outer)

  -- The byte behind the `%` of a directive is no `%`.
  not-is_at-bare :
      (o : Outer) (w rest : Text)
      → Behind p o.i (w ++ rest)
      → is_name w ≡ true
      → ends w rest ≡ true
      → is_at p (o.i + 1) b'%' ≡ false
  unfolding isalpha
  not-is_at-bare o [] [] b name e = rw (get_elem?-drop_nil (o.i + 1) p b.dropped, is_at)
  not-is_at-bare o [] (c ∷ rest) b name e =
      rw (get_elem?-drop (o.i + 1) p rest c b.dropped, is_at) (ground arith)
  not-is_at-bare o (c ∷ w) rest b name e =
      rw (get_elem?-drop (o.i + 1) p (w ++ rest) c b.dropped, is_at) (ground arith)

  not-is_at-brace :
      (o : Outer) (w rest : Text)
      → Behind p o.i (w ++ b'{' ∷ rest)
      → is_name w ≡ true
      → is_at p (o.i + 1) b'%' ≡ false
  unfolding isalpha
  not-is_at-brace o [] rest b name = rw (get_elem?-drop (o.i + 1) p rest b'{' b.dropped, is_at)
  not-is_at-brace o (c ∷ w) rest b name =
      rw (get_elem?-drop (o.i + 1) p (w ++ b'{' ∷ rest) c b.dropped, is_at) (ground arith)

  pub step-bare :
      (o : Outer) (w rest : Text)
      → Behind p o.i (w ++ rest)
      → is_name w ≡ true
      → ends w rest ≡ true
      → outer_step p b'%' o ≡ record o {
        i = o.i + 1 + length w;
        n_str = [];
        vec = o.vec ++ (flush o.n_str ++ directive w [] ∷ []);
      }
  unfolding close
  step-bare o w rest b name e =
      step-directive o b (not-is_at-bare o w rest b name e)
      ∙ rw (inner_bare w rest b name e) (ground arith)

  pub step-braced :
      (o : Outer) (w f rest : Text)
      → Behind p o.i (w ++ b'{' ∷ (f ++ b'}' ∷ rest))
      → is_name w ≡ true
      → is_inside f ≡ true
      → outer_step p b'%' o ≡ record o {
        i = o.i + 1 + length w + 1 + length f + 1;
        n_str = [];
        vec = o.vec ++ (flush o.n_str ++ directive w f ∷ []);
      }
  unfolding close
  step-braced o w f rest b name i =
      step-directive o b (not-is_at-brace o w (f ++ b'}' ∷ rest) b name)
      ∙ rw (inner_braced w f rest b name i) (ground arith)

  close-unclosed :
      (o : Outer) (s : Inner)
      → s.fmt_status ≡ 1
      → s.fmt ≡ []
      → close p o s ≡ record o {
        i = o.i + 1;
        vec = o.vec ++ pattern_error ∷ [];
        error = true;
        out = (close p o s).out;
      }
  unfolding close
  close-unclosed o s st fm = ground (arith)

  pub step-unclosed :
      (o : Outer) (w f : Text)
      → Behind p o.i (w ++ b'{' ∷ f)
      → is_name w ≡ true
      → is_inside f ≡ true
      → (out : Text) × (outer_step p b'%' o
          ≡ record o { i = o.i + 1; vec = o.vec ++ pattern_error ∷ []; error = true; out = out })
  step-unclosed o w f b name i =
      let (st, fm) = inner_unclosed w f b name i in
      (_, step-directive o b (not-is_at-brace o w f b name) ∙ close-unclosed o _ st fm)

  -- One round at a `%`, with the fuel that is left.
  pub outer-directive :
      (fuel : ℕ) (o o' : Outer) {q : Text} (tail : Text)
      → q ≡ b'%' ∷ tail
      → At p o.i q
      → outer_step p b'%' o ≡ o'
      → length q ≤ fuel
      → (f : ℕ) × (outer fuel p o ≡ outer f p o') × (length tail ≤ f)
  outer-directive zero o o' tail e a st h = absurd (omega (arith, ap length e))
  outer-directive (suc f) o o' tail e a st h =
      (f, outer-step f b'%' tail o o' (rw e at a) st, omega (arith, ap length e))
