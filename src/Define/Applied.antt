-- ===== src/Define/Applied.antt =====
-- The listener of `LogIniter` as a whole: what a change of the definitions makes of the loggers.
use final_designer.Cast.Sets.{is_sorted}
use final_designer.Define.{LogDefine, define_lt}
use final_designer.Define.Apart.{IsSound}
use final_designer.Define.Apply.{take_out_all, announce, on_change}
use final_designer.Define.SetUp.{is_known}
use final_designer.Define.Views.{
  View, view, define_of, Aim, unchanged, changed, taken_out, untouched,
}
use final_designer.Define.Equal.{is_unchanged-cases}
use final_designer.Define.Names.{define_of-name}
use final_designer.Level.{Level, info}
use final_designer.Logging.Invariant.{IsLogger, IsValid, Keeps, Keeps-IsValid, log_event_total}
use final_designer.Logging.Gate.{log_macro_gate}
use final_designer.Logging.Manager.{find_logger}
use final_designer.Logging.World.{Logger, World}
use final_designer.Prelude.{
  ℕ, ◌≡◌, refl, ◌∙◌, sym, ap, true, false, List, Text, Option, some, all, text_eq, text_eq_iff,
  arith, Bool-cases, Option-cases, inl, inr, subst, get_elem?, pos, codes,
}
use final_designer.Define.Loops.{after_set_up, after_take_out, set_up_all_lem, take_out_all_lem}
use final_designer.Logging.Manager.{new_manager}
use final_designer.Logging.Managing.{new_manager-IsValid}
use final_designer.Logging.Logger.{add_appender, new_logger}
use final_designer.Logging.Sink.{Disk}
use final_designer.Prelude.{zero, suc, ◌⊎◌, ℤ}
use final_designer.Logging.Log.{log_macro}
use final_designer.Define.Apart.{IsApart}

pub Keeps-IsSound : {w w' : World} → Keeps w w' → IsSound w → IsSound w'
Keeps-IsSound {w} {w'} k s = record {
  valid = Keeps-IsValid k s.valid;
  named = λ n i h.
      let (l, e, q) =
        s.named n i (ap (λ (t : List (Text × ℕ)). find_logger t n) (sym k.table) ∙ h) in
      (l, ap (λ (ls : List Logger). get_elem? ls i) k.loggers ∙ e, q);
  apart = λ i j l m e f.
      s.apart i j l m (ap (λ (ls : List Logger). get_elem? ls i) (sym k.loggers) ∙ e)
        (ap (λ (ls : List Logger). get_elem? ls j) (sym k.loggers) ∙ f);
}

-- The store that the manager's constructor builds is such a store.
pub new_manager-IsSound : (d : Disk) → IsSound (new_manager d)
unfolding new_manager add_appender new_logger find_logger
new_manager-IsSound d = record {
  valid = new_manager-IsValid d;
  named = λ n i h. named n i (Bool-cases (text_eq (codes "root") n)) h;
  apart = apart;
}
  where
    named :
        (n : Text) (i : ℕ)
        → (text_eq (codes "root") n ≡ true) ⊎ (text_eq (codes "root") n ≡ false)
        → find_logger (new_manager d).table n ≡ some i
        → (l : Logger) × IsLogger (new_manager d) i l × (l.name ≡ n)
    named n i (inl q) h =
        let zero_ : 0 ≡ i = ground (arith, q, h) in
        subst (λ (k : ℕ). (l : Logger) × IsLogger (new_manager d) k l × (l.name ≡ n)) zero_
          (_, refl, (text_eq_iff (codes "root") n).0 q)
    named n i (inr q) h = absurd (ground (arith, q, h))

    apart : IsApart (new_manager d)
    apart zero zero l m e f ne j h = absurd (ne refl)
    apart zero (suc k) l m e f ne j h = cc
    apart (suc i) k l m e f ne j h = cc

module _ (local_time : Text → ℕ → Text) (file : Text) (thread fiber now : ℕ) where
  -- A log entry of the main logger.
  pub main-Keeps :
      (w : World) (level : Level) (line : ℤ) (text : Text)
      → IsValid w
      → (w' : World) × (log_macro local_time w w.main level file line thread fiber now text
          ≡ some w')
        × Keeps w w'
  main-Keeps w level line text v =
      let (l, e, top) = v.headed in
      let (w', q, k) = log_event_total local_time w w.main l level _ v e in
      (w', log_macro_gate local_time w w.main l e level file line thread fiber now text ∙ q, k)

  announce-Keeps :
      (w : World)
      → IsValid w
      → (w' : World) × (announce local_time file thread fiber now w ≡ some w') × Keeps w w'
  unfolding announce
  announce-Keeps w v = main-Keeps w info (pos 786) (codes "on_logger_conf_changed") v

  -- The two loops together.
  both-Aim :
      (old new : List LogDefine) (n : Text) (before : Option View)
      → Aim old new n before (after_take_out new old n (after_set_up old new n before))
  both-Aim old new n before = elim (Option-cases (define_of new n)) [
    | inr (d, e) ↦
        let name : d.name ≡ n = define_of-name new n d e in
        elim (is_unchanged-cases old d) [
          | inl (same, q) ↦
              rw (e, after_take_out, after_set_up)
                (rw same (unchanged d e (sym (ap (define_of old) name) ∙ q)))
          | inr (other, q) ↦
              rw (e, after_take_out, after_set_up)
                (rw other (changed d e (λ h. q (ap (define_of old) name ∙ h))))
        ]
    | inl e ↦ elim (Option-cases (define_of old n)) [
      | inr (d, q) ↦ rw (e, q, after_take_out, after_set_up) (taken_out d e q)
      | inl q ↦ rw (e, q, after_take_out, after_set_up) (untouched e q)
    ]
  ]

  -- A change of the definitions. In a sound store, that is a valid one with one logger to a name and
  -- no appender that two loggers share, when both sets are in order and each new appender is of one
  -- of the two classes, the listener goes through no null pointer. Behind its log entry, each name
  -- stands for what the sets say, where two definitions are the same only if they agree in all
  -- members: a name whose definition is new or another has the definition's level, its pattern if
  -- that is well-formed and else the one from before, and exactly the definition's appenders, of
  -- their class and level, each with its own pattern if that is well-formed and else the logger's; a
  -- name whose definition is gone has the level 100 and no appender; every other name stands for what
  -- it did. The store is as sound as before.
  pub on_change-Aim :
      (w : World) (old new : List LogDefine) (n : Text)
      → IsSound w
      → is_sorted define_lt old ≡ true
      → is_sorted define_lt new ≡ true
      → all (λ d. all is_known d.appenders) new ≡ true
      → (w1 : World) × (w' : World) × (announce local_time file thread fiber now w ≡ some w1)
        × (on_change local_time file thread fiber now w old new ≡ some w')
        × Keeps w w1
        × IsSound w'
        × Aim old new n (view w1 n) (view w' n)
  unfolding on_change
  on_change-Aim w old new n s h k known =
      let (w1, a, kept) = announce-Keeps w s.valid in
      let (w2, b, s2, seen) = set_up_all_lem old new w1 (Keeps-IsSound kept s) k known in
      let (s3, seen') = take_out_all_lem new old w2 s2 h in
      (
        w1,
        take_out_all w2 new old,
        a,
        rw (a, on_change) (rw b refl),
        kept,
        s3,
        subst (Aim old new n (view w1 n)) (sym (seen' n ∙ ap (after_take_out new old n) (seen n)))
            (both-Aim old new n (view w1 n)),
      )
