-- ===== src/Util/Assert.antt =====
-- nnysl/macro.h: the assertions.
use final_designer.Level.{error}
use final_designer.Logging.Gate.{log_macro_gate}
use final_designer.Logging.Invariant.{IsValid, Keeps, log_event_total}
use final_designer.Logging.Log.{log_macro}
use final_designer.Logging.World.{World}
use final_designer.Prelude.{
  ℕ, ℤ, ◌≡◌, ap, Bool, false, List, ◌++◌, ◌∙◌, Text, codes, Option, none, some, if◌then◌else◌,
}
use final_designer.Util.{backtrace_to_string}

-- How `assert(x)` is reached: with a true condition, or with a false one, which ends the program
-- unless `assert` is switched off.
pub data Verdict : Type 0 where
  holds : Verdict
  fails : Verdict

-- The place of the macro, the thread that runs it, the time, and the names of the thread's frames.
module _ (local_time : Text → ℕ → Text) (file : Text) (line : ℤ) (thread fiber now : ℕ)
    (symbols : Option (List Text)) where
  report : Text → World → Option World
  report text w = log_macro local_time w w.main error file line thread fiber now text

  -- `NNYSL_ASSERT(x)`, whose argument is spelled `source`
  unfoldable pub nnysl_assert : Bool → Text → World → Option (World × Verdict)
  unfolding report
  nnysl_assert x source w =
      if x
      then some (w, holds)
      else elim (report
          (codes "ASSERTION: "
            ++ (source
                ++ (codes "\nbacktrace:\n" ++ backtrace_to_string 100 symbols 2 (codes "    "))))
          w) [ none ↦ none | some w' ↦ some (w', fails) ]

  -- `NNYSL_ASSERT2(x, w)`
  unfoldable pub nnysl_assert2 : Bool → Text → Text → World → Option (World × Verdict)
  unfolding report
  nnysl_assert2 x source message w =
      if x
      then some (w, holds)
      else elim (report
          (codes "ASSERTION: "
            ++ (source
                ++ (codes "\n"
                    ++ (message
                        ++ (codes "\nbacktrace:\n"
                            ++ backtrace_to_string 100 symbols 2 (codes "    "))))))
          w) [ none ↦ none | some w' ↦ some (w', fails) ]

  report-Keeps :
      (text : Text) (w : World) → IsValid w → (w' : World) × (report text w ≡ some w') × Keeps w w'
  unfolding report
  report-Keeps text w v =
      let (l, e, top) = v.headed in
      let (w', q, k) = log_event_total local_time w w.main l error _ v e in
      (w', log_macro_gate local_time w w.main l e error file line thread fiber now text ∙ q, k)

  -- In a valid store an assertion that fails is logged through no null pointer.
  pub nnysl_assert_fails :
      (source : Text) (w : World)
      → IsValid w
      → (w' : World) × (nnysl_assert false source w ≡ some (w', fails)) × Keeps w w'
  unfolding nnysl_assert
  nnysl_assert_fails source w v =
      let (w', e, k) =
        report-Keeps
          (codes "ASSERTION: "
            ++ (source
                ++ (codes "\nbacktrace:\n" ++ backtrace_to_string 100 symbols 2 (codes "    "))))
          w v in
      (w', ap (λ (r : Option World). elim r [ none ↦ none | some u ↦ some (u, fails) ]) e, k)
