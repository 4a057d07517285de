-- ===== src/Define/Frame.antt =====
-- What the operations on one logger leave alone.
use final_designer.Formatter.Scan.{Formatter, new_formatter, init_output}
use final_designer.Level.{Level}
use final_designer.Logging.Invariant.{IsLogger}
use final_designer.Logging.Logger.{
  clear_appenders, set_level, refresh, set_formatter, set_pattern, on_logger, on_appender,
}
use final_designer.Logging.World.{Logger, World, put_appender, put_logger, print}
use final_designer.Prelude.{
  ℕ, ◌≡◌, ◌≢◌, ◌≤◌, ◌<◌, refl, ◌∙◌, sym, ap, Bool, true, false, List, [], ◌∷◌, Text, Option, some,
  any, length, length-set, get_elem?, get_elem?-set_hit, get_elem?-set_ne, arith, if◌then◌else◌,
  Bool-cases, Option-cases, inl, inr, ◌==◌,
}

abbrev pub holds : List ℕ → ℕ → Bool
holds js j = any (λ k. k == j) js

-- Only the logger at an address has changed, and of the appenders that were there only some listed.
pub record Frame (w w' : World) (i : ℕ) (js : List ℕ) : Type 0 where
  pub table : w'.table ≡ w.table
  pub main : w'.main ≡ w.main
  pub others : (k : ℕ) → k ≢ i → get_elem? w'.loggers k ≡ get_elem? w.loggers k
  pub appenders :
      (j : ℕ)
      → j < length w.appenders
      → holds js j ≡ false
      → get_elem? w'.appenders j ≡ get_elem? w.appenders j
  pub longer : length w.appenders ≤ length w'.appenders

pub Frame-refl : (w : World) (i : ℕ) (js : List ℕ) → Frame w w i js
Frame-refl w i js = record {
  table = refl;
  main = refl;
  others = λ k h. refl;
  appenders = λ j h k. refl;
  longer = omega arith;
}

pub Frame-trans :
    {u v w : World} {i : ℕ} {js : List ℕ} → Frame u v i js → Frame v w i js → Frame u w i js
Frame-trans f g = record {
  table = g.table ∙ f.table;
  main = g.main ∙ f.main;
  others = λ k h. g.others k h ∙ f.others k h;
  appenders = λ j h k. g.appenders j (omega (arith, f.longer, h)) k ∙ f.appenders j h k;
  longer = omega (arith, f.longer, g.longer);
}

put_logger-Frame : (w : World) (i : ℕ) (l : Logger) (js : List ℕ) → Frame w (put_logger w i l) i js
put_logger-Frame w i l js = record {
  table = refl;
  main = refl;
  others = λ k h. get_elem?-set_ne w.loggers l (λ e. h (sym e));
  appenders = λ j h k. refl;
  longer = omega arith;
}

put_logger-IsLogger :
    (w : World) (i : ℕ) (l l' : Logger) → IsLogger w i l → IsLogger (put_logger w i l') i l'
put_logger-IsLogger w i l l' e = get_elem?-set_hit w.loggers i l' l e

-- `setLevel` and `clearAppenders`
pub set_level_lem :
    (w : World) (i : ℕ) (l : Logger) (level : Level) (js : List ℕ)
    → IsLogger w i l
    → Frame w (set_level w i level) i js
      × IsLogger (set_level w i level) i (record l { level = level })
unfolding set_level
set_level_lem w i l level js e =
    rw (e, on_logger) (put_logger-Frame w i _ js, put_logger-IsLogger w i l _ e)

pub clear_appenders_lem :
    (w : World) (i : ℕ) (l : Logger) (js : List ℕ)
    → IsLogger w i l
    → Frame w (clear_appenders w i) i js
      × IsLogger (clear_appenders w i) i (record l { appenders = [] })
unfolding clear_appenders
clear_appenders_lem w i l js e =
    rw (e, on_logger) (put_logger-Frame w i _ js, put_logger-IsLogger w i l _ e)

-- The loop over the appenders of a logger.
record Refreshed (w w' : World) (js : List ℕ) : Type 0 where
  loggers : w'.loggers ≡ w.loggers
  table : w'.table ≡ w.table
  main : w'.main ≡ w.main
  appenders : (j : ℕ) → holds js j ≡ false → get_elem? w'.appenders j ≡ get_elem? w.appenders j
  long : length w'.appenders ≡ length w.appenders

-- One round.
refresh_one : World → Option Formatter → ℕ → World
refresh_one w f j =
    on_appender w j
      λ a. if a.have_formatter then w else put_appender w j (record a { formatter = f })

refresh_one-Refreshed :
    (w : World) (f : Option Formatter) (j : ℕ) → Refreshed w (refresh_one w f j) (j ∷ [])
unfolding refresh_one
refresh_one-Refreshed w f j = elim (Option-cases (get_elem? w.appenders j)) [
  | inl e ↦ rw (e, on_appender) same
  | inr (a, e) ↦
      rw (e, on_appender)
        (elim (Bool-cases a.have_formatter) [
          | inl own ↦ rw own same
          | inr none_ ↦ rw none_ (record {
            loggers = refl;
            table = refl;
            main = refl;
            appenders = λ k h. get_elem?-set_ne w.appenders _ (λ e. ground (arith, h, e));
            long = length-set w.appenders j _;
          })
        ])
]
  where
    same : Refreshed w w (j ∷ [])
    same = record {
      loggers = refl;
      table = refl;
      main = refl;
      appenders = λ k h. refl;
      long = refl;
    }

refresh-Refreshed :
    (js : List ℕ) (w : World) (f : Option Formatter) → Refreshed w (refresh w f js) js
unfolding refresh refresh_one
refresh-Refreshed [] w f = record {
  loggers = refl;
  table = refl;
  main = refl;
  appenders = λ k h. refl;
  long = refl;
}
refresh-Refreshed (j ∷ js) w f =
    let one = refresh_one-Refreshed w f j in
    let more = refresh-Refreshed js (refresh_one w f j) f in
    record {
      loggers = more.loggers ∙ one.loggers;
      table = more.table ∙ one.table;
      main = more.main ∙ one.main;
      appenders = λ k h. more.appenders k (ground (arith, h)) ∙ one.appenders k (ground (arith, h));
      long = more.long ∙ one.long;
    }

set_formatter_lem :
    (w : World) (i : ℕ) (l : Logger) (f : Option Formatter)
    → IsLogger w i l
    → Frame w (set_formatter w i f) i l.appenders
      × IsLogger (set_formatter w i f) i (record l { formatter = f })
unfolding set_formatter
set_formatter_lem w i l f e =
    let l' : Logger = record l { formatter = f } in
    let r = refresh-Refreshed l.appenders (put_logger w i l') f in
    rw (e, on_logger)
      (
        record {
          table = r.table;
          main = r.main;
          others = λ k h.
              ap (λ (ls : List Logger). get_elem? ls k) r.loggers
              ∙ get_elem?-set_ne w.loggers l' (λ q. h (sym q));
          appenders = λ j h k. r.appenders j k;
          longer = omega (arith, r.long);
        },
        ap (λ (ls : List Logger). get_elem? ls i) r.loggers ∙ put_logger-IsLogger w i l l' e,
      )

-- The formatter that a pattern leaves a logger with.
abbrev pub refitted : Text → Option Formatter → Option Formatter
refitted val f = if (new_formatter val).is_error then f else some (new_formatter val)

-- A change of the formatter of a logger.
abbrev Fitted : World → World → ℕ → Logger → Option Formatter → Type 0
Fitted w w' i l f = Frame w w' i l.appenders × IsLogger w' i (record l { formatter = f })

if-Fitted :
    (w : World) (i : ℕ) (l : Logger) (b : Bool) (x y : World) (f g : Option Formatter)
    → Fitted w x i l f
    → Fitted w y i l g
    → Fitted w (if b then x else y) i l (if b then f else g)
if-Fitted w i l true x y f g h k = h
if-Fitted w i l false x y f g h k = k

print-Fitted :
    (w : World) (i : ℕ) (l : Logger) (t : Text)
    → IsLogger w i l
    → Fitted w (print w t) i l l.formatter
print-Fitted w i l t e = (
  record {
    table = refl;
    main = refl;
    others = λ k h. refl;
    appenders = λ j h k. refl;
    longer = omega arith;
  },
  e,
)

pub set_pattern_lem :
    (w : World) (i : ℕ) (l : Logger) (val : Text)
    → IsLogger w i l
    → Frame w (set_pattern w i val) i l.appenders
      × IsLogger (set_pattern w i val) i (record l { formatter = refitted val l.formatter })
unfolding set_pattern
set_pattern_lem w i l val e =
    rw (e, on_logger)
      (if-Fitted w i l (new_formatter val).is_error _ _ _ _
        (let (f, h) = print-Fitted w i l (init_output val) e in
          let (g, k) = print-Fitted (print w (init_output val)) i l _ h in (Frame-trans f g, k))
        (let (f, h) = print-Fitted w i l (init_output val) e in
          let (g, k) =
            set_formatter_lem (print w (init_output val)) i l (some (new_formatter val)) h in
          (Frame-trans f g, k)))
