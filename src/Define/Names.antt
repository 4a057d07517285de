-- ===== src/Define/Names.antt =====
-- Sets of definitions: at most one for a name, found by its name.
use final_designer.Cast.{set_find}
use final_designer.Define.{LogDefine, define_lt}
use final_designer.Define.Views.{define_of}
use final_designer.Prelude.{
  ◌≡◌, refl, ap, true, not, List, [], ◌∷◌, Text, none, all, text_eq, text_eq_iff, text_eq_refl,
  text_eq-eq-false, arith, if◌then◌else◌, Bool-cases, inl, inr, &&-eq-true, ◌&&◌, sym, ◌∙◌, some,
  some-injective,
}
use final_designer.Prelude.Order.{text_lt, text_lt_irrefl, text_lt_connex}

-- A set of definitions has at most one for a name, and finds it by its name.
neither_less : (a b : Text) → (not (text_lt a b) && not (text_lt b a)) ≡ text_eq b a
neither_less a b = elim (Bool-cases (text_eq b a)) [
  | inl e ↦ let q : b ≡ a = (text_eq_iff b a).0 e in rw (e, q, text_lt_irrefl a) refl
  | inr e ↦ elim (Bool-cases (text_lt a b)) [
    | inl h ↦ ground (arith, e, h)
    | inr h ↦ elim (Bool-cases (text_lt b a)) [
      | inl k ↦ ground (arith, e, h, k)
      | inr k ↦ absurd (ground (arith, e, text_lt_connex b a k h, text_eq_refl a))
    ]
  ]
]

pub set_find-define_of :
    (ds : List LogDefine) (d : LogDefine) → set_find define_lt ds d ≡ define_of ds d.name
unfolding set_find
set_find-define_of [] d = refl
set_find-define_of (e ∷ ds) d =
    rw (neither_less d.name e.name)
      (ap (λ o. if text_eq e.name d.name then some e else o) (set_find-define_of ds d))

pub define_of-above :
    (d : LogDefine) (ds : List LogDefine) → all (define_lt d) ds ≡ true → define_of ds d.name ≡ none
define_of-above d [] h = refl
define_of-above d (e ∷ ds) h =
    let (first, rest) = &&-eq-true (define_lt d e) _ h in
    rw
      (text_eq-eq-false e.name d.name
        (λ q. ground (arith, first, ap (text_lt d.name) q, text_lt_irrefl d.name)))
      (define_of-above d ds rest)

-- What is found under a name has it.
pub define_of-name :
    (ds : List LogDefine) (n : Text) (d : LogDefine) → define_of ds n ≡ some d → d.name ≡ n
define_of-name [] n d e = cc
define_of-name (x ∷ ds) n d e = elim (Bool-cases (text_eq x.name n)) [
  | inl q ↦
      ap (λ (y : LogDefine). y.name) (sym (some-injective _ _ (rw q at e)))
      ∙ (text_eq_iff x.name n).0 q
  | inr q ↦ define_of-name ds n d (rw q at e)
]
