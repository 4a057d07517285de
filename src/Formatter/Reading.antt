-- ===== src/Formatter/Reading.antt =====
-- `LogFormatter::init` gives the tokens that the grammar names, for every pattern.
use final_designer.Formatter.Grammar.{
  pattern_error, Reads, done, plain, percent, bare, braced, unclosed,
}
use final_designer.Formatter.Scan.{Token, directive, flush, Outer, is_at, outer, outer_start, scan}
use final_designer.Formatter.Steps.{
  At, At-cons, At-Behind, At-append, step-plain, step-percent, step-bare, step-braced,
  step-unclosed, outer-step, outer-end, outer-directive,
}
use final_designer.Prelude.{
  ℕ, zero, suc, ◌+◌, ◌≤◌, Bool, true, ◌||◌, ◌≡◌, refl, ◌∙◌, sym, ap, List, [], ◌∷◌, ◌++◌, Text,
  length, get_elem?-drop, arith, append-nil, append_assoc, length-append,
}

module _ (p : Text) where
  -- What the outer loop has to leave behind, from the state `o`.
  record Ends (o r : Outer) (ts : List Token) (e : Bool) : Type 0 where
    at_end : r.i ≡ length p
    tokens : r.vec ++ flush r.n_str ≡ o.vec ++ ts
    flag : r.error ≡ (o.error || e)

  Ends-step :
      (o o' r : Outer) (us ts : List Token) {vs : List Token} {e e' : Bool}
      → o'.vec ≡ o.vec ++ us
      → vs ≡ us ++ ts
      → (o'.error || e) ≡ (o.error || e')
      → Ends o' r ts e
      → Ends o r vs e'
  Ends-step o o' r us ts v q w d = record {
    at_end = d.at_end;
    tokens =
        d.tokens
        ∙ ap (λ (l : List Token). l ++ ts) v
        ∙ append_assoc o.vec us ts
        ∙ ap (◌++◌ o.vec) (sym q);
    flag = d.flag ∙ w;
  }

  outer-Reads :
      {rest acc : Text} {ts : List Token} {e : Bool}
      → Reads rest acc ts e
      → (fuel : ℕ) (o : Outer) → At p o.i rest
      → o.n_str ≡ acc
      → length rest ≤ fuel
      → Ends o (outer fuel p o) ts e
  outer-Reads (done q) fuel o a n h =
      rw (outer-end p fuel o a)
        (record { at_end = omega (arith, a.size); tokens = rw (q, n); flag = ground arith })
  outer-Reads (plain {c} {rest} q r) zero o a n h = absurd (omega arith)
  outer-Reads (plain {c} {rest} {ts} q r) (suc fuel) o a n h =
      let o' : Outer = record o { i = o.i + 1; n_str = o.n_str ++ c ∷ [] } in
      rw (outer-step p fuel c rest o o' a (step-plain p c o q)) (
        Ends-step o o' _ [] ts (sym (append-nil o.vec)) refl refl
          (outer-Reads r fuel o' (At-cons a) (ap (λ (t : Text). t ++ c ∷ []) n) (omega arith)))
  outer-Reads (percent {rest} {ts} q r) fuel o a n h =
      let o' : Outer = record o { i = o.i + 1; n_str = o.n_str ++ b'%' ∷ [] } in
      let at = At-cons (rw q at a) in
      let (f, e, m) =
        outer-directive p fuel o o' (b'%' ∷ rest) q a
          (step-percent p o (rw (get_elem?-drop (o.i + 1) p rest b'%' at.here, is_at) refl)) h in
      rw e (
        Ends-step o o' _ [] ts (sym (append-nil o.vec)) refl refl
          (outer-Reads r f o' at (ap (λ (t : Text). t ++ b'%' ∷ []) n) m))
  outer-Reads (bare w rest ts q u name e r) fuel o a n h =
      let o' : Outer = record o {
        i = o.i + 1 + length w;
        n_str = [];
        vec = o.vec ++ (flush o.n_str ++ directive w [] ∷ []);
      } in
      let b = rw q at a in
      let (f, d, m) =
        outer-directive p fuel o o' (w ++ rest) q a (step-bare p o w rest (At-Behind b) name e) h in
      rw d (
        Ends-step o o' _ (flush o.n_str ++ directive w [] ∷ []) ts refl
          (rw (u, ← n) (sym (append_assoc (flush o.n_str) (directive w [] ∷ []) ts))) refl
          (outer-Reads r f o' (At-append w rest _ (At-cons b) refl) refl
            (omega (arith, length-append w rest))))
  outer-Reads (braced w f rest ts q u name i r) fuel o a n h =
      let o' : Outer = record o {
        i = o.i + 1 + length w + 1 + length f + 1;
        n_str = [];
        vec = o.vec ++ (flush o.n_str ++ directive w f ∷ []);
      } in
      let b = rw q at a in
      let tail : Text = b'{' ∷ (f ++ b'}' ∷ rest) in
      let inside = At-cons (At-append w tail _ (At-cons b) refl) in
      let (k, d, m) =
        outer-directive p fuel o o' (w ++ tail) q a (step-braced p o w f rest (At-Behind b) name i)
          h in
      rw d (
        Ends-step o o' _ (flush o.n_str ++ directive w f ∷ []) ts refl
          (rw (u, ← n) (sym (append_assoc (flush o.n_str) (directive w f ∷ []) ts))) refl
          (outer-Reads r k o' (At-cons (At-append f (b'}' ∷ rest) _ inside refl)) refl
            (omega (arith, length-append w tail, length-append f (b'}' ∷ rest)))))
  outer-Reads (unclosed w f ts q u name i r) fuel o a n h =
      let b = rw q at a in
      let (out, st) = step-unclosed p o w f (At-Behind b) name i in
      let o' : Outer = record o {
        i = o.i + 1;
        vec = o.vec ++ pattern_error ∷ [];
        error = true;
        out = out;
      } in
      let (k, d, m) = outer-directive p fuel o o' (w ++ b'{' ∷ f) q a st h in
      rw d (
        Ends-step o o' _ (pattern_error ∷ []) ts refl u (ground arith)
          (outer-Reads r k o' (At-cons b) n m))

-- `scan` gives the tokens and the error flag of any reading of the pattern, and its loop stops at
-- the end of the pattern.
pub scan-Reads :
    (p : Text) {ts : List Token} {e : Bool}
    → Reads p [] ts e
    → ((scan p).vec ≡ ts) × ((scan p).error ≡ e) × ((scan p).i ≡ length p)
unfolding scan
scan-Reads p r =
    let d =
      outer-Reads p r (length p) outer_start (record { here = refl; size = omega arith }) refl
        (omega arith) in
    (d.tokens, d.flag, d.at_end)
