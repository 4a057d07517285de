-- ===== src/Define/Configured.antt =====
-- The variable `logs` of nnysl/log.cpp, `g_log_defines`, with the listener of `LogIniter`: from the
-- text of a configuration to the loggers.
use final_designer.Cast.Containers.{from_set}
use final_designer.Cast.Sets.{is_sorted}
use final_designer.Config.Var.{
  Listener, Outcome, returns, throws, Var, from_string, set_value, call_listeners,
}
use final_designer.Define.{LogDefine, define_eq, define_lt}
use final_designer.Define.Applied.{Keeps-IsSound, on_change-Aim, main-Keeps}
use final_designer.Define.Equal.{define_eq-true, define_eq_refl}
use final_designer.Level.{info}
use final_designer.Logging.Log.{log_macro}
use final_designer.Define.Apart.{IsSound}
use final_designer.Define.Apply.{announce, on_change}
use final_designer.Define.Known.{from_set-read_define}
use final_designer.Define.Read.{read_define}
use final_designer.Define.Views.{view, Aim}
use final_designer.Logging.Invariant.{Keeps}
use final_designer.Logging.World.{World, print}
use final_designer.Prelude.{
  ℕ, ◌≡◌, ◌⊎◌, inl, inr, refl, ap, ◌∙◌, Bool, true, false, List, [], ◌∷◌, Text, Option, none, some,
  ◌&&◌, Bool-cases, ◌≢◌, ap₂, &&-eq-true, arith, pos, codes, ◌++◌,
}
use final_designer.Yaml.{Api}

-- `operator==` of the sets.
unfoldable pub defines_eq : List LogDefine → List LogDefine → Bool
defines_eq [] [] = true
defines_eq (d ∷ ds) (e ∷ es) = define_eq d e && defines_eq ds es
defines_eq _ _ = false

-- `FromStr` of the variable, without what it prints.
abbrev convert : Api → Text → Outcome (List LogDefine)
convert api text = (from_set api define_lt (read_define api) text).1

module _ {T W : Type 0} (eq : T → T → Bool) (from_str : Text → Outcome T) (note : Text → W → W)
    (var : Var T W) (s : Text) (w : W) where
  from_string-throws :
      (e : Text)
      → from_str s ≡ throws e
      → from_string eq from_str note var s w ≡ (var, note e w, false)
  unfolding from_string
  from_string-throws e h = rw (h, from_string) refl

  shown : Var T W × W × Outcome (Unit {0}) → Var T W × W × Bool
  shown (var', w', returns x) = (var', w', true)
  shown (var', w', throws e) = (var', note e w', false)

  from_string-returns :
      (v : T) (var' : Var T W) (w' : W)
      → from_str s ≡ returns v
      → set_value eq var v w ≡ (var', w', returns tt)
      → from_string eq from_str note var s w ≡ (var', w', true)
  unfolding from_string shown
  from_string-returns v var' w' h q =
      rw (h, from_string) (ap (λ (p : Var T W × W × Outcome (Unit {0})). shown p) q)

  set_value-equal : (v : T) → eq v var.val ≡ true → set_value eq var v w ≡ (var, w, returns tt)
  unfolding set_value
  set_value-equal v h = rw (h, set_value) refl

  -- One listener that returns.
  passed : W × Outcome (Unit {0}) → W × Outcome (Unit {0})
  passed (w', returns x) = (w', returns tt)
  passed (w', throws e) = (w', throws e)

  stored : T → W × Outcome (Unit {0}) → Var T W × W × Outcome (Unit {0})
  stored v (w', returns x) = (record var { val = v }, w', returns tt)
  stored v (w', throws e) = (var, w', throws e)

  set_value-one :
      (v : T) (k : ℕ) (cb : Listener T W) (w' : W)
      → eq v var.val ≡ false
      → var.cbs ≡ (k, cb) ∷ []
      → cb var.val v w ≡ (w', returns tt)
      → set_value eq var v w ≡ (record var { val = v }, w', returns tt)
  unfolding set_value call_listeners passed stored
  set_value-one v k cb w' h c q =
      let called : call_listeners var.cbs var.val v w ≡ (w', returns tt) =
        ap (λ cbs. call_listeners cbs var.val v w) c ∙ ap passed q in
      rw (h, set_value) (ap (stored v) called)

-- Equal sets have the same definitions.
defines_eq-cases :
    (ds es : List LogDefine)
    → ((defines_eq ds es ≡ true) × (ds ≡ es)) ⊎ ((defines_eq ds es ≡ false) × (ds ≢ es))
unfolding defines_eq
defines_eq-cases ds es = elim (Bool-cases (defines_eq ds es)) [
  | inl same ↦ inl (same, true_lem ds es same)
  | inr other ↦ inr (other, λ q. ground (arith, other, ap (defines_eq ds) q, refl_lem ds))
]
  where
    true_lem : (ds es : List LogDefine) → defines_eq ds es ≡ true → ds ≡ es
    true_lem [] [] h = refl
    true_lem [] (e ∷ es) h = cc
    true_lem (d ∷ ds) [] h = cc
    true_lem (d ∷ ds) (e ∷ es) h =
        let (x, y) = &&-eq-true (define_eq d e) _ h in
        ap₂ (◌∷◌) (define_eq-true d e x) (true_lem ds es y)

    refl_lem : (ds : List LogDefine) → defines_eq ds ds ≡ true
    refl_lem [] = refl
    refl_lem (d ∷ ds) = ground (arith, define_eq_refl d, refl_lem ds)

-- `file` and `header` are the names of nnysl/log.cpp and nnysl/config.h that `__FILE__` gives, and
-- `type_name` is what `typeid` gives for the set of definitions.
module _ (api : Api) (local_time : Text → ℕ → Text) (file header type_name : Text)
    (thread fiber now : ℕ) where
  -- The handler of `fromString` logs the exception by the main logger.
  unfoldable pub note : Text → Option World → Option World
  note e none = none
  note e (some w) = log_macro local_time w w.main info header (pos 309) thread fiber now (
      codes "ConfigVar::fromString exception"
      ++ (e ++ (codes " convert : string to " ++ type_name)))

  -- The listener, on a store that is `none` once a null pointer has been called through.
  abbrev pub listener : Listener (List LogDefine) (Option World)
  listener old new none = (none, returns tt)
  listener old new (some w) = (on_change local_time file thread fiber now w old new, returns tt)

  -- `fromString` of the variable: the conversion prints, then the value is set.
  unfoldable pub load_logs :
      Var (List LogDefine) (Option World)
      → Text
      → World
      → Var (List LogDefine) (Option World) × Option World × Bool
  unfolding defines_eq note
  load_logs var text w =
      from_string defines_eq (convert api) note var text
        (some (print w (from_set api define_lt (read_define api) text).0))

  print-IsSound : (w : World) (t : Text) → IsSound w → IsSound (print w t)
  print-IsSound w t s =
      Keeps-IsSound {w = w} (record { loggers = refl; table = refl; main = refl; ready = λ j r. r })
        s

  outcome-cases :
      {A : Type 0} (p : Text × Outcome A)
      → ((e : Text) × (p.1 ≡ throws e)) ⊎ ((a : A) × (p.1 ≡ returns a) × (p ≡ (p.0, returns a)))
  outcome-cases (o, throws e) = inl (e, refl)
  outcome-cases (o, returns a) = inr (a, refl, refl)

  module _ (var : Var (List LogDefine) (Option World)) (text : Text) (w : World) where
    abbrev printed : World
    printed = print w (from_set api define_lt (read_define api) text).0

    abbrev read : Outcome (List LogDefine)
    read = (from_set api define_lt (read_define api) text).1

    load_logs-throws :
        (e : Text) → read ≡ throws e → load_logs var text w ≡ (var, note e (some printed), false)
    unfolding load_logs
    load_logs-throws e h =
        from_string-throws defines_eq (convert api) note var text (some printed) e h

    load_logs-same :
        (new : List LogDefine)
        → read ≡ returns new
        → defines_eq new var.val ≡ true
        → load_logs var text w ≡ (var, some printed, true)
    unfolding load_logs
    load_logs-same new h q =
        from_string-returns defines_eq (convert api) note var text (some printed) new var
          (some printed) h
          (set_value-equal defines_eq (convert api) note var text (some printed) new q)

    load_logs-other :
        (k : ℕ) (new : List LogDefine) (w' : World)
        → var.cbs ≡ (k, listener) ∷ []
        → read ≡ returns new
        → defines_eq new var.val ≡ false
        → on_change local_time file thread fiber now printed var.val new ≡ some w'
        → load_logs var text w ≡ (record var { val = new }, some w', true)
    unfolding load_logs
    load_logs-other k new w' c h q e =
        from_string-returns defines_eq (convert api) note var text (some printed) new _ (some w') h
          (set_value-one defines_eq (convert api) note var text (some printed) new k listener
            (some w') q c (ap (λ (o : Option World). (o, returns tt)) e))

    -- What has come of a text: an exception, which is logged, the old set again, or a new set, whose
    -- effect on a name is as the sets say.
    abbrev pub IsLoaded : Text → Type 0
    IsLoaded n =
        ((e : Text) × (w1 : World) × (read ≡ throws e)
          × (note e (some printed) ≡ some w1)
          × (load_logs var text w ≡ (var, some w1, false))
          × Keeps printed w1)
        ⊎ (((new : List LogDefine) × (read ≡ returns new)
              × (new ≡ var.val)
              × (load_logs var text w ≡ (var, some printed, true)))
            ⊎ ((new : List LogDefine) × (w1 : World) × (w' : World) × (read ≡ returns new)
                × (new ≢ var.val)
                × (announce local_time file thread fiber now printed ≡ some w1)
                × (load_logs var text w ≡ (record var { val = new }, some w', true))
                × Keeps printed w1
                × IsSound w'
                × (is_sorted define_lt new ≡ true)
                × Aim var.val new n (view w1 n) (view w' n)))

    -- Whatever text a configuration gives for `logs`, when the store is sound, that is valid with
    -- one logger to a name and no appender that two loggers share, when the old set is in order, and
    -- when the listener is the only one of the variable: no null pointer is called through. A text
    -- that does not convert leaves the value, the loggers and the manager's map, and its exception
    -- is logged; a set with the definitions of the old one is taken as no change; any other set
    -- becomes the value, is in order, leaves a sound store, and behind the listener's log entry each
    -- name stands for what the two sets say of it.
    pub load_logs-cases :
        (n : Text) (k : ℕ)
        → IsSound w
        → is_sorted define_lt var.val ≡ true
        → var.cbs ≡ (k, listener) ∷ []
        → IsLoaded n
    unfolding note
    load_logs-cases n k s h c =
        elim (outcome-cases (from_set api define_lt (read_define api) text)) [
          | inl (e, q) ↦
              let (w1, p, kept) =
                main-Keeps local_time header thread fiber now printed info (pos 309) _
                  (print-IsSound w _ s).valid in
              inl (
                e,
                w1,
                q,
                p,
                load_logs-throws e q ∙ ap (λ (o : Option World). (var, o, false)) p,
                kept,
              )
          | inr (new, q, p) ↦ elim (defines_eq-cases new var.val) [
            | inl (same, equal) ↦ inr (inl (new, q, equal, load_logs-same new q same))
            | inr (other, differs) ↦
                let (sorted, known) = from_set-read_define api text _ new p in
                let (w1, w', a, b, kept, sound, seen) =
                  on_change-Aim local_time file thread fiber now printed var.val new n
                    (print-IsSound w _ s) h sorted known in
                inr (
                  inr (
                    new,
                    w1,
                    w',
                    q,
                    differs,
                    a,
                    load_logs-other k new w' c q other b,
                    kept,
                    sound,
                    sorted,
                    seen,
                  ))
          ]
        ]
