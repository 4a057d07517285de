-- ===== src/Define/Equal.antt =====
-- The equality of definitions is that of all their members.
use final_designer.Cast.{set_find}
use final_designer.Define.{
  AppenderDefine, LogDefine, appender_define_eq, appenders_eq, define_eq, define_lt,
}
use final_designer.Define.Apply.{is_unchanged}
use final_designer.Define.Names.{set_find-define_of}
use final_designer.Define.Views.{define_of}
use final_designer.Prelude.{
  ◌≡◌, ◌≢◌, ◌⊎◌, inl, inr, refl, sym, ap, ap₂, ◌∙◌, Bool, true, false, List, [], ◌∷◌, Option, none,
  some, some-injective, text_eq, text_eq_iff, text_eq_refl, ◌==◌, ==_iff, &&-eq-true, Bool-cases,
  arith,
}

appender_define_eq-true : (a b : AppenderDefine) → appender_define_eq a b ≡ true → a ≡ b
unfolding appender_define_eq
appender_define_eq-true a b h =
    let (h1, g) = &&-eq-true _ (text_eq a.file b.file) h in
    let (h2, f) = &&-eq-true _ (text_eq a.formatter b.formatter) h1 in
    let (t, l) = &&-eq-true (a.type == b.type) (a.level == b.level) h2 in
    λ i. record {
      type = (==_iff a.type b.type).0 t i;
      level = (==_iff a.level b.level).0 l i;
      formatter = (text_eq_iff a.formatter b.formatter).0 f i;
      file = (text_eq_iff a.file b.file).0 g i;
    }

appenders_eq-true : (ds es : List AppenderDefine) → appenders_eq ds es ≡ true → ds ≡ es
unfolding appenders_eq
appenders_eq-true [] [] h = refl
appenders_eq-true [] (b ∷ es) h = cc
appenders_eq-true (a ∷ ds) [] h = cc
appenders_eq-true (a ∷ ds) (b ∷ es) h =
    let (x, y) = &&-eq-true (appender_define_eq a b) _ h in
    ap₂ (◌∷◌) (appender_define_eq-true a b x) (appenders_eq-true ds es y)

pub define_eq-true : (d e : LogDefine) → define_eq d e ≡ true → d ≡ e
unfolding define_eq
define_eq-true d e h =
    let (h1, g) = &&-eq-true _ (appenders_eq d.appenders e.appenders) h in
    let (h2, f) = &&-eq-true _ (text_eq d.formatter e.formatter) h1 in
    let (n, l) = &&-eq-true (text_eq d.name e.name) (d.level == e.level) h2 in
    λ i. record {
      name = (text_eq_iff d.name e.name).0 n i;
      level = (==_iff d.level e.level).0 l i;
      formatter = (text_eq_iff d.formatter e.formatter).0 f i;
      appenders = appenders_eq-true d.appenders e.appenders g i;
    }

appenders_eq_refl : (ds : List AppenderDefine) → appenders_eq ds ds ≡ true
unfolding appenders_eq appender_define_eq
appenders_eq_refl [] = refl
appenders_eq_refl (a ∷ ds) = ground (
  arith,
  (==_iff a.type a.type).1 refl,
  (==_iff a.level a.level).1 refl,
  text_eq_refl a.formatter,
  text_eq_refl a.file,
  appenders_eq_refl ds,
)

pub define_eq_refl : (d : LogDefine) → define_eq d d ≡ true
unfolding define_eq
define_eq_refl d = ground (
  arith,
  text_eq_refl d.name,
  (==_iff d.level d.level).1 refl,
  text_eq_refl d.formatter,
  appenders_eq_refl d.appenders,
)

-- The listener skips a definition just where it is the one from before.
pub is_unchanged-cases :
    (old : List LogDefine) (d : LogDefine)
    → ((is_unchanged old d ≡ true) × (define_of old d.name ≡ some d))
      ⊎ ((is_unchanged old d ≡ false) × (define_of old d.name ≢ some d))
unfolding is_unchanged
is_unchanged-cases old d = found (set_find define_lt old d) refl (sym (set_find-define_of old d))
  where
    compared : Option LogDefine → Bool
    compared o = elim o [ none ↦ false | some e ↦ define_eq d e ]

    found :
        (o : Option LogDefine)
        → set_find define_lt old d ≡ o
        → define_of old d.name ≡ set_find define_lt old d
        → ((compared (set_find define_lt old d) ≡ true) × (define_of old d.name ≡ some d))
          ⊎ ((compared (set_find define_lt old d) ≡ false) × (define_of old d.name ≢ some d))
    found none e q = inr (ap compared e, λ h. absurd (cc (q, e, h)))
    found (some x) e q = elim (Bool-cases (define_eq d x)) [
      | inl same ↦ inl (ap compared e ∙ same, q ∙ e ∙ ap some (sym (define_eq-true d x same)))
      | inr other ↦ inr (
        ap compared e ∙ other,
        λ h.
            let p : x ≡ d = some-injective _ _ (sym e ∙ sym q ∙ h) in
            absurd (ground (arith, other, ap (define_eq d) p, define_eq_refl d)),
      )
    ]
