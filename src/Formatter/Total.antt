-- ===== src/Formatter/Total.antt =====
-- Every pattern can be read by the grammar, and in one way only.
use Prim.Native.Nat.add
use final_designer.Formatter.Grammar.{
  is_name_char, is_name, ends, Reads, done, plain, percent, bare, braced, unclosed,
}
use final_designer.Formatter.Reading.{scan-Reads}
use final_designer.Formatter.Scan.{Token, scan, Outer, outer, outer_step, outer_start}
use final_designer.Prelude.{
  ℕ, zero, suc, ◌+◌, ◌≤◌, Bool, true, false, not, ◌&&◌, ◌≡◌, ◌↔◌, ◌⊎◌, inl, inr, refl, ◌∙◌, sym, ap,
  List, [], ◌∷◌, ◌++◌, Text, length, arith, append-nil, length-append, ◌==◌, Bool-cases, is_empty,
  subst, subst₂, ==_iff, all, get_elem?, get_elem?-drop_nil, drop-length, Option-cases, none,
}

-- The longest prefix whose bytes all pass a test.
record Prefix (test : ℕ → Bool) (s : Text) : Type 0 where
  word : Text
  rest : Text
  splits : s ≡ word ++ rest
  passes : all test word ≡ true
  stops : (rest ≡ []) ⊎ ((c : ℕ) × (r : Text) × (rest ≡ c ∷ r) × (test c ≡ false))

longest : (test : ℕ → Bool) (s : Text) → Prefix test s
longest test [] = record { word = []; rest = []; splits = refl; passes = refl; stops = inl refl }
longest test (c ∷ s) =
    let l = longest test s in
    elim (Bool-cases (test c)) [
      | inl yes_ ↦ record {
        word = c ∷ l.word;
        rest = l.rest;
        splits = ap (◌∷◌ c) l.splits;
        passes = rw (yes_, l.passes);
        stops = l.stops;
      }
      | inr no_ ↦ record {
        word = [];
        rest = c ∷ s;
        splits = refl;
        passes = refl;
        stops = inr (c, s, refl, no_);
      }
    ]

-- A reading with what it gives.
record Reading (p acc : Text) : Type 0 where
  tokens : List Token
  error : Bool
  reads : Reads p acc tokens error

-- Readings of every text no longer than `k`.
abbrev Readings : ℕ → Type 0
Readings k = (q acc : Text) → length q ≤ k → Reading q acc

module _ (k : ℕ) (ih : Readings k) (s acc : Text) (h : length s ≤ k) where
  read_bare :
      (w rest : Text)
      → s ≡ w ++ rest
      → is_name w ≡ true
      → ends w rest ≡ true
      → Reading (b'%' ∷ s) acc
  read_bare w rest q name e =
      let r = ih rest [] (omega (arith, ap length q, length-append w rest)) in
      record {
        tokens = _;
        error = r.error;
        reads = bare w rest r.tokens (ap (◌∷◌ b'%') q) refl name e r.reads;
      }

  read_brace :
      (w t : Text)
      → s ≡ w ++ b'{' ∷ t
      → is_name w ≡ true
      → Prefix (λ c. not (c == b'}')) t
      → Reading (b'%' ∷ s) acc
  read_brace w t q name l = elim l.stops [
    | inl e ↦
        let r = ih s acc h in
        let whole : t ≡ l.word = l.splits ∙ rw e (append-nil l.word) in
        record {
          tokens = _;
          error = true;
          reads =
              unclosed w l.word r.tokens (ap (◌∷◌ b'%') (q ∙ rw whole refl)) refl name l.passes
                (subst (λ (u : Text). Reads u acc r.tokens r.error) (q ∙ rw whole refl) r.reads);
        }
    | inr (c, u, e, n) ↦
        let r = ih u [] (
          omega (
            arith,
            ap length q,
            length-append w (b'{' ∷ t),
            ap length l.splits,
            length-append l.word l.rest,
            ap length e,
          )) in
        let close : c ≡ b'}' = ground arith in
        record {
          tokens = _;
          error = r.error;
          reads =
              braced w l.word u r.tokens
                (ap (◌∷◌ b'%')
                  (q ∙ ap (λ (v : Text). w ++ b'{' ∷ v) (l.splits ∙ rw (e, close) refl)))
                refl name l.passes r.reads;
        }
  ]

  read_percent : (r : Text) → s ≡ b'%' ∷ r → Reading (b'%' ∷ s) acc
  read_percent r q =
      let d = ih s (acc ++ b'%' ∷ []) h in
      record {
        tokens = d.tokens;
        error = d.error;
        reads =
            percent (ap (◌∷◌ b'%') q)
              (subst (λ (u : Text). Reads u (acc ++ b'%' ∷ []) d.tokens d.error) q d.reads);
      }

  read_stop :
      (l : Prefix is_name_char s) (c : ℕ) (r : Text)
      → l.rest ≡ c ∷ r
      → is_name_char c ≡ false
      → Reading (b'%' ∷ s) acc
  read_stop l c r e n =
      let q : s ≡ l.word ++ c ∷ r = l.splits ∙ ap (◌++◌ l.word) e in
      elim (Bool-cases (c == b'{')) [
        | inl open_ ↦
            read_brace l.word r (q ∙ ap (λ (d : ℕ). l.word ++ d ∷ r) ((==_iff c b'{').0 open_))
              l.passes (longest _ r)
        | inr other ↦ elim (Bool-cases (is_empty l.word && c == b'%')) [
          | inl pct ↦ read_percent r (q ∙ ground arith)
          | inr end_ ↦ read_bare l.word (c ∷ r) q l.passes (rw (n, other, end_))
        ]
      ]

  read_directive : Reading (b'%' ∷ s) acc
  read_directive = directive_from (longest is_name_char s)
    where
      directive_from : Prefix is_name_char s → Reading (b'%' ∷ s) acc
      directive_from l = elim l.stops [
        | inl e ↦ read_bare l.word [] (l.splits ∙ ap (◌++◌ l.word) e) l.passes refl
        | inr (c, r, e, n) ↦ read_stop l c r e n
      ]

reading : (k : ℕ) → Readings k
reading zero [] acc h = record { tokens = _; error = false; reads = done refl }
reading zero (c ∷ s) acc h = absurd (omega arith)
reading (suc k) [] acc h = record { tokens = _; error = false; reads = done refl }
reading (suc k) (c ∷ s) acc h = elim (Bool-cases (c == b'%')) [
  | inl pct ↦
      subst (λ (d : ℕ). Reading (d ∷ s) acc) (sym ((==_iff c b'%').0 pct))
        (read_directive k (reading k) s acc (omega arith))
  | inr other ↦
      let r = reading k s (acc ++ c ∷ []) (omega arith) in
      record { tokens = r.tokens; error = r.error; reads = plain other r.reads }
]

-- `scan` computes the grammar: tokens and an error flag are a reading of the pattern exactly when
-- they are those that `scan` gives.
pub scan-Reads_iff :
    (p : Text) (ts : List Token) (e : Bool)
    → Reads p [] ts e ↔ (((scan p).vec ≡ ts) × ((scan p).error ≡ e))
scan-Reads_iff p ts e = (
  λ r. let (v, f, i) = scan-Reads p r in (v, f),
  λ (v, f).
      let r = reading (length p) p [] (omega arith) in
      let (v', f', i) = scan-Reads p r.reads in
      subst₂ (λ (us : List Token) (b : Bool). Reads p [] us b) (sym v' ∙ v) (sym f' ∙ f) r.reads,
)

-- The reading that `scan` finds.
pub read : (p : Text) → Reads p [] (scan p).vec (scan p).error
read p = (scan-Reads_iff p _ _).1 (refl, refl)

outer-more :
    (p : Text) (fuel more : ℕ) (o : Outer)
    → get_elem? p (outer fuel p o).i ≡ none
    → outer (fuel + more) p o ≡ outer fuel p o
unfolding outer
outer-more p zero zero o e = refl
outer-more p zero (suc more) o e = rw (add.zero (suc more), e, outer) refl
outer-more p (suc fuel) more o e = rw (add.suc fuel more) (elim (Option-cases (get_elem? p o.i)) [
  | inl n ↦ rw (n, outer) refl
  | inr (c, s) ↦ rw (s, outer) (outer-more p fuel more (outer_step p c o) (rw (s, outer) at e))
])

-- The loops of `init` come to the end of every pattern within the fuel that `scan` gives them, and
-- more fuel changes nothing.
pub scan_ends :
    (p : Text) (more : ℕ)
    → ((outer (length p) p outer_start).i ≡ length p)
      × (outer (length p + more) p outer_start ≡ outer (length p) p outer_start)
unfolding scan
scan_ends p more =
    let e = (scan-Reads p (reading (length p) p [] (omega arith)).reads).2 in
    (
      e,
      outer-more p (length p) more outer_start
          (rw e (get_elem?-drop_nil (length p) p (drop-length p))),
    )
