-- ===== src/Locks/Alone/OfLoggers.antt =====
-- The operations that change a logger, run alone.
use final_designer.Formatter.Scan.{Formatter, new_formatter, init_output}
use final_designer.Level.{Level}
use final_designer.Locks.Access.{read_logger}
use final_designer.Locks.Alone.{
  alone-read_logger, alone-read_appender, alone-write_logger, alone-write_appender,
}
use final_designer.Locks.Appenders
use final_designer.Locks.Code.{Code, act, alone, take, release, appender, logger, exclusive}
use final_designer.Locks.Loggers
use final_designer.Locks.Loggers.{inherit_formatter, push_appender, use_pattern}
use final_designer.Locks.Store.{IsAppender}
use final_designer.Logging.Invariant.{IsLogger, AreReady}
use final_designer.Logging.Logger.{
  add_appender, del_appender, set_level, refresh, set_formatter, set_pattern, on_logger,
  on_appender, inherit,
}
use final_designer.Logging.World.{Appender, Logger, World, put_appender, put_logger, print}
use final_designer.Prelude.{
  ℕ, ◌≡◌, refl, sym, ap, ◌∙◌, Bool, true, false, List, [], ◌∷◌, ◌++◌, Text, Option, none, some,
  codes, if◌then◌else◌, get_elem?-set_hit, set_same, get_elem?-set-some,
}

-- An access through a pointer that leads to an object.
pub on_logger-some :
    (w : World) (i : ℕ) (l : Logger) (g : Logger → World) → IsLogger w i l → on_logger w i g ≡ g l
on_logger-some w i l g e = ap (λ (o : Option Logger). elim o [ none ↦ w | some x ↦ g x ]) e

pub on_appender-some :
    (w : World) (j : ℕ) (a : Appender) (g : Appender → World)
    → IsAppender w j a
    → on_appender w j g ≡ g a
on_appender-some w j a g e = ap (λ (o : Option Appender). elim o [ none ↦ w | some x ↦ g x ]) e

module _ (w : World) (i : ℕ) (l : Logger) (e : IsLogger w i l) where
  pub alone-set_level :
      (level : Level) (k : Code World)
      → alone (Loggers.set_level i level k) w ≡ alone k (set_level w i level)
  unfolding Loggers.set_level set_level
  alone-set_level level k =
      alone-write_logger w i l _ k e ∙ ap (alone k) (sym (on_logger-some w i l _ e))

  pub alone-del_appender :
      (j : ℕ) (k : Code World) → alone (Loggers.del_appender i j k) w ≡ alone k (del_appender w i j)
  unfolding Loggers.del_appender del_appender alone
  alone-del_appender j k =
      alone-write_logger w i l _ (release (logger i) k) e
      ∙ ap (alone k) (sym (on_logger-some w i l _ e))

  pub alone-add_appender :
      (j : ℕ) (a : Appender) (k : Code World)
      → IsAppender w j a
      → alone (Loggers.add_appender i j k) w ≡ alone k (add_appender w i j)
  unfolding Loggers.add_appender add_appender Appenders.get_formatter alone
  alone-add_appender j a k f =
      alone-read_appender w j a _ f
      ∙ adding a.formatter refl
      ∙ ap (alone k) (sym (on_logger-some w i l _ e ∙ on_appender-some w j a _ f))
    where
      pushed : World → World
      pushed u = put_logger u i (record l { appenders = l.appenders ++ j ∷ [] })

      adding :
          (o : Option Formatter)
          → a.formatter ≡ o
          → alone
              (elim o [
                | none ↦ take (appender j) exclusive (
                    inherit_formatter i j
                      (release (appender j) (push_appender i j (release (logger i) k))))
                | some g ↦ push_appender i j (release (logger i) k)
              ])
              w
            ≡ alone k (pushed (put_appender w j (inherit l.formatter a)))
      adding none q =
          alone-read_logger w i l _ e
          ∙ alone-write_appender w j a _ _ f
          ∙ alone-write_logger (put_appender w j (record a { formatter = l.formatter })) i l _ _ e
          ∙ ap
              (λ (o : Option Formatter). alone k (
                pushed (
                  put_appender w j
                    (elim o [ none ↦ record a { formatter = l.formatter } | some g ↦ a ]))))
              (sym q)
      adding (some g) q =
          alone-write_logger w i l _ _ e
          ∙ ap (λ (xs : List Appender). alone k (pushed (record w { appenders = xs })))
              (sym (set_same w.appenders j a f))
          ∙ ap
              (λ (o : Option Formatter). alone k (
                pushed (
                  put_appender w j
                    (elim o [ none ↦ record a { formatter = l.formatter } | some x ↦ a ]))))
              (sym q)

-- Pointers that lead to appenders.
abbrev AreThere : World → List ℕ → Type 0
AreThere w [] = Unit
AreThere w (j ∷ js) = ((a : Appender) × IsAppender w j a) × AreThere w js

AreThere-put :
    (w : World) (js : List ℕ) (i : ℕ) (b : Appender)
    → AreThere w js
    → AreThere (put_appender w i b) js
AreThere-put w [] i b r = tt
AreThere-put w (j ∷ js) i b ((a, e), rs) =
    let (x, f, u) =
      get_elem?-set-some (λ (y : Appender). Unit {0}) w.appenders i j b (a, e, tt) (λ q. tt) in
    ((x, f), AreThere-put w js i b rs)

AreReady-there : (w : World) (js : List ℕ) → AreReady w js → AreThere w js
AreReady-there w [] r = tt
AreReady-there w (j ∷ js) ((a, f, e, q), rs) = ((a, e), AreReady-there w js rs)

-- The loop of `setFormatter`, in which the logger's formatter is read again for each appender.
module _ (i : ℕ) (l : Logger) where
  one_refreshed :
      (w : World) (j : ℕ) (a : Appender) (k : Code World) (b : Bool)
      → IsLogger w i l
      → IsAppender w j a
      → alone (if b then k else inherit_formatter i j k) w
        ≡ alone k (if b then w else put_appender w j (record a { formatter = l.formatter }))
  one_refreshed w j a k true e f = refl
  one_refreshed w j a k false e f = alone-read_logger w i l _ e ∙ alone-write_appender w j a _ k f

  there_still :
      (w : World) (j : ℕ) (a : Appender) (js : List ℕ) (b : Bool)
      → AreThere w js
      → AreThere (if b then w else put_appender w j a) js
  there_still w j a js true r = r
  there_still w j a js false r = AreThere-put w js j a r

  logger_still :
      (w : World) (j : ℕ) (a : Appender) (b : Bool)
      → IsLogger w i l
      → IsLogger (if b then w else put_appender w j a) i l
  logger_still w j a true e = e
  logger_still w j a false e = e

  alone-refresh :
      (js : List ℕ) (w : World) (k : Code World)
      → IsLogger w i l
      → AreThere w js
      → alone (Loggers.refresh i js k) w ≡ alone k (refresh w l.formatter js)
  unfolding Loggers.refresh refresh alone
  alone-refresh [] w k e r = refl
  alone-refresh (j ∷ js) w k e ((a, f), rs) =
      let b : Appender = record a { formatter = l.formatter } in
      alone-read_appender w j a _ f
      ∙ one_refreshed w j a (release (appender j) (Loggers.refresh i js k)) a.have_formatter e f
      ∙ alone-refresh js _ k (logger_still w j b a.have_formatter e)
          (there_still w j b js a.have_formatter rs)
      ∙ ap (λ (u : World). alone k (refresh u l.formatter js)) (sym (on_appender-some w j a _ f))

module _ (w : World) (i : ℕ) (l : Logger) (e : IsLogger w i l) (r : AreReady w l.appenders) where
  pub alone-set_formatter :
      (f : Option Formatter) (k : Code World)
      → alone (Loggers.set_formatter i f k) w ≡ alone k (set_formatter w i f)
  unfolding Loggers.set_formatter set_formatter alone
  alone-set_formatter f k =
      let m : Logger = record l { formatter = f } in
      let there : IsLogger (put_logger w i m) i m = get_elem?-set_hit w.loggers i m l e in
      alone-write_logger w i l _ _ e
      ∙ alone-read_logger (put_logger w i m) i m _ there
      ∙ alone-refresh i m l.appenders (put_logger w i m) (release (logger i) k) there
          (moved l.appenders (AreReady-there w l.appenders r))
      ∙ ap (alone k) (sym (on_logger-some w i l _ e))
    where
      moved :
          (js : List ℕ) → AreThere w js → AreThere (put_logger w i (record l { formatter = f })) js
      moved [] r = tt
      moved (j ∷ js) (r, rs) = (r, moved js rs)

  -- What the operation makes of a formatter whose constructor has printed.
  alone-use_pattern :
      (val : Text) (f : Formatter) (k : Code World)
      → alone (use_pattern i val f k) w
        ≡ alone k (
            if f.is_error
            then print w (
                codes "Logger setFormatter name="
                ++ (l.name ++ (codes "value=" ++ (val ++ codes " invalid formatter"))))
            else set_formatter w i (some f))
  unfolding alone
  alone-use_pattern val f k = tried f.is_error
    where
      told : Logger → World
      told m = print w (
          codes "Logger setFormatter name="
          ++ (m.name ++ (codes "value=" ++ (val ++ codes " invalid formatter"))))

      tried :
          (b : Bool)
          → alone
              (if b
                then read_logger i (λ m.
                  act
                    (λ u. print u (
                      codes "Logger setFormatter name="
                      ++ (m.name ++ (codes "value=" ++ (val ++ codes " invalid formatter")))))
                    (λ u. k))
                else Loggers.set_formatter i (some f) k)
              w
            ≡ alone k (if b then told l else set_formatter w i (some f))
      tried true = alone-read_logger w i l _ e
      tried false = alone-set_formatter (some f) k

pub alone-set_pattern :
    (w : World) (i : ℕ) (l : Logger)
    → IsLogger w i l
    → AreReady w l.appenders
    → (val : Text) (k : Code World)
    → alone (Loggers.set_pattern i val k) w ≡ alone k (set_pattern w i val)
unfolding Loggers.set_pattern set_pattern alone
alone-set_pattern w i l e r val k =
    alone-use_pattern (print w (init_output val)) i l e (moved l.appenders r) val
      (new_formatter val) k
    ∙ ap (alone k) (sym (on_logger-some w i l _ e))
  where
    moved : (js : List ℕ) → AreReady w js → AreReady (print w (init_output val)) js
    moved [] r = tt
    moved (j ∷ js) (r, rs) = (r, moved js rs)
