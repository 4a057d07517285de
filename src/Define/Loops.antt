-- ===== src/Define/Loops.antt =====
-- The two loops of the listener.
use final_designer.Cast.{set_find}
use final_designer.Cast.Sets.{is_sorted}
use final_designer.Define.{LogDefine, define_lt}
use final_designer.Define.Apart.{IsSound}
use final_designer.Define.Apply.{set_up, set_up_all, is_unchanged, take_out, take_out_all}
use final_designer.Define.Changes.{take_out-Changed, set_up-Changed}
use final_designer.Define.SetUp.{is_known}
use final_designer.Define.Views.{View, view, configured, removed, define_of}
use final_designer.Logging.World.{World}
use final_designer.Prelude.{
  ◌≡◌, refl, ◌∙◌, sym, ap, Bool, true, false, List, [], ◌∷◌, Text, Option, none, some, all, text_eq,
  text_eq_iff, if◌then◌else◌, Bool-cases, Option-cases, inl, inr, &&-eq-true,
}
use final_designer.Define.Names.{set_find-define_of, define_of-above}

-- What the first loop makes of what a name stands for.
abbrev pub after_set_up : List LogDefine → List LogDefine → Text → Option View → Option View
after_set_up old new n before = elim (define_of new n) [
  | none ↦ before
  | some d ↦ if is_unchanged old d then before else some (configured d before)
]

-- And the second one, for a name with a new definition, an old one, or none.
abbrev pub taken : Option LogDefine → Option LogDefine → Option View → Option View
taken (some e) o before = before
taken none none before = before
taken none (some d) before = some (removed before)

abbrev pub after_take_out : List LogDefine → List LogDefine → Text → Option View → Option View
after_take_out new old n before = taken (define_of new n) (define_of old n) before

-- One definition in front of the others.
after_set_up-cons :
    (old ds : List LogDefine) (d : LogDefine) (n : Text) (before between : Option View)
    → all (define_lt d) ds ≡ true
    → between ≡ (
        if text_eq d.name n
        then (if is_unchanged old d then before else some (configured d before))
        else before)
    → after_set_up old ds n between ≡ after_set_up old (d ∷ ds) n before
after_set_up-cons old ds d n before between h e = elim (Bool-cases (text_eq d.name n)) [
  | inl q ↦
      let gone : define_of ds n ≡ none =
        ap (define_of ds) (sym ((text_eq_iff d.name n).0 q)) ∙ define_of-above d ds h in
      rw (gone, after_set_up) (e ∙ rw (q, after_set_up) refl)
  | inr q ↦
      let kept : between ≡ before = e ∙ rw q refl in
      ap (after_set_up old ds n) kept ∙ rw (q, after_set_up) refl
]

set_up_all-skip :
    (w : World) (old ds : List LogDefine) (d : LogDefine)
    → is_unchanged old d ≡ true
    → set_up_all w old (d ∷ ds) ≡ set_up_all w old ds
unfolding set_up_all
set_up_all-skip w old ds d h = rw h refl

set_up_all-step :
    (w w1 : World) (old ds : List LogDefine) (d : LogDefine)
    → is_unchanged old d ≡ false
    → set_up w d ≡ some w1
    → set_up_all w old (d ∷ ds) ≡ set_up_all w1 old ds
unfolding set_up_all
set_up_all-step w w1 old ds d h e = rw (h, e) refl

pub set_up_all_lem :
    (old new : List LogDefine) (w : World)
    → IsSound w
    → is_sorted define_lt new ≡ true
    → all (λ d. all is_known d.appenders) new ≡ true
    → (w' : World) × (set_up_all w old new ≡ some w')
      × IsSound w'
      × ((n : Text) → view w' n ≡ after_set_up old new n (view w n))
unfolding set_up_all
set_up_all_lem old [] w s h k = (w, refl, s, λ n. refl)
set_up_all_lem old (d ∷ ds) w s h k =
    let (above, sorted) = &&-eq-true (all (define_lt d) ds) _ h in
    let (known, rest) = &&-eq-true (all is_known d.appenders) _ k in
    elim (Bool-cases (is_unchanged old d)) [
      | inl same ↦
          let (w', e, s', seen) = set_up_all_lem old ds w s sorted rest in
          (
            w',
            set_up_all-skip w old ds d same ∙ e,
            s',
            λ n.
                seen n
                ∙ after_set_up-cons old ds d n _ _ above
                    (rw same (either (text_eq d.name n) (view w n))),
          )
      | inr other ↦
          let (w1, q, c) = set_up-Changed w d s known in
          let (w', e, s', seen) = set_up_all_lem old ds w1 c.sound sorted rest in
          (
            w',
            set_up_all-step w w1 old ds d other q ∙ e,
            s',
            λ n. seen n ∙ after_set_up-cons old ds d n _ _ above (c.seen n ∙ rw other (at_name n)),
          )
    ]
  where
    either : (b : Bool) (v : Option View) → v ≡ (if b then v else v)
    either true v = refl
    either false v = refl

    at_name :
        (n : Text)
        → (if text_eq d.name n then some (configured d (view w d.name)) else view w n)
          ≡ (if text_eq d.name n then some (configured d (view w n)) else view w n)
    at_name n = elim (Bool-cases (text_eq d.name n)) [
      | inl e ↦
          ap (λ t. if text_eq d.name n then some (configured d (view w t)) else view w n)
            ((text_eq_iff d.name n).0 e)
      | inr e ↦ rw e refl
    ]

taken-none : (o : Option LogDefine) (v : Option View) → taken o none v ≡ v
taken-none none v = refl
taken-none (some e) v = refl

after_take_out-cons :
    (new ds : List LogDefine) (d : LogDefine) (n : Text) (before between : Option View)
    → all (define_lt d) ds ≡ true
    → between ≡ (if text_eq d.name n then taken (define_of new n) (some d) before else before)
    → after_take_out new ds n between ≡ after_take_out new (d ∷ ds) n before
after_take_out-cons new ds d n before between h e = elim (Bool-cases (text_eq d.name n)) [
  | inl q ↦
      let gone : define_of ds n ≡ none =
        ap (define_of ds) (sym ((text_eq_iff d.name n).0 q)) ∙ define_of-above d ds h in
      let made : between ≡ taken (define_of new n) (some d) before = e ∙ rw q refl in
      ap (λ o. taken (define_of new n) o between) gone
      ∙ taken-none (define_of new n) between
      ∙ made
      ∙ head n (sym q)
  | inr q ↦
      let kept : between ≡ before = e ∙ rw q refl in
      ap (taken (define_of new n) (define_of ds n)) kept ∙ head n (sym q)
]
  where
    head :
        (n : Text) {b : Bool}
        → b ≡ text_eq d.name n
        → taken (define_of new n) (if b then some d else define_of ds n) before
          ≡ after_take_out new (d ∷ ds) n before
    head n q = ap (λ b. taken (define_of new n) (if b then some d else define_of ds n) before) q

pub take_out_all_lem :
    (new old : List LogDefine) (w : World)
    → IsSound w
    → is_sorted define_lt old ≡ true
    → IsSound (take_out_all w new old)
      × ((n : Text) → view (take_out_all w new old) n ≡ after_take_out new old n (view w n))
unfolding take_out_all
take_out_all_lem new [] w s h = (s, λ n. sym (taken-none (define_of new n) (view w n)))
take_out_all_lem new (d ∷ ds) w s h =
    let (above, sorted) = &&-eq-true (all (define_lt d) ds) _ h in
    elim (Option-cases (set_find define_lt new d)) [
      | inl e ↦
          let c = take_out-Changed w d s in
          let (s', seen) = take_out_all_lem new ds (take_out w d) c.sound sorted in
          rw (e, take_out_all)
            (
              s',
              λ n.
                  seen n
                  ∙ after_take_out-cons new ds d n _ _ above
                      (c.seen n ∙ of_name n (sym (sym (set_find-define_of new d) ∙ e))),
            )
      | inr (x, e) ↦
          let (s', seen) = take_out_all_lem new ds w s sorted in
          rw (e, take_out_all)
            (
              s',
              λ n.
                  seen n
                  ∙ after_take_out-cons new ds d n _ _ above
                      (same_name n ∙ of_name n (sym (sym (set_find-define_of new d) ∙ e))),
            )
    ]
  where
    of_name :
        (n : Text) {o : Option LogDefine}
        → o ≡ define_of new d.name
        → (if text_eq d.name n then taken o (some d) (view w d.name) else view w n)
          ≡ (if text_eq d.name n then taken (define_of new n) (some d) (view w n) else view w n)
    of_name n e = elim (Bool-cases (text_eq d.name n)) [
      | inl q ↦
          ap (λ o. if text_eq d.name n then taken o (some d) (view w d.name) else view w n) e
          ∙ ap
              (λ t.
                if text_eq d.name n then taken (define_of new t) (some d) (view w t) else view w n)
              ((text_eq_iff d.name n).0 q)
      | inr q ↦ rw q refl
    ]

    same_name : (n : Text) → view w n ≡ (if text_eq d.name n then view w d.name else view w n)
    same_name n = elim (Bool-cases (text_eq d.name n)) [
      | inl q ↦ rw q (ap (view w) (sym ((text_eq_iff d.name n).0 q)))
      | inr q ↦ rw q refl
    ]
