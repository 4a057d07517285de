-- ===== src/Define/Changes.antt =====
-- One logger that is set up by a definition, or taken out.
use final_designer.Define.{LogDefine}
use final_designer.Define.Apart.{IsSound, Reset, Reset-IsSound, Reset-view}
use final_designer.Define.Apply.{set_up, set_up_appenders, take_out, removed_level}
use final_designer.Define.Fetch.{Fetched, get_logger-Fetched}
use final_designer.Define.Frame.{
  Frame, Frame-trans, set_level_lem, clear_appenders_lem, set_pattern_lem, refitted,
}
use final_designer.Define.SetUp.{all-leb, is_known, set_up_appenders-Made}
use final_designer.Define.Views.{View, view, view_of, formatter_after, configured, removed, built}
use final_designer.Formatter.Scan.{Formatter}
use final_designer.Level.{Level}
use final_designer.Logging.Invariant.{IsLogger, IsValid}
use final_designer.Logging.Logger.{clear_appenders, set_level, set_pattern}
use final_designer.Logging.Manager.{find_logger}
use final_designer.Logging.Preserve.{
  clear_appenders-IsValid, set_level-IsValid, set_pattern-IsValid,
}
use final_designer.Logging.World.{Appender, Logger, World}
use final_designer.Prelude.{
  ℕ, ◌≡◌, refl, ◌∙◌, ap, Bool, true, false, List, [], Text, Option, some, all, map, is_empty,
  get_elem?, text_eq, if◌then◌else◌, length,
}

-- A store in which a name stands for something else, and every other name for what it did.
pub record Changed (w w' : World) (a : Text) (v : View) : Type 0 where
  pub sound : IsSound w'
  pub seen : (n : Text) → view w' n ≡ (if text_eq a n then some v else view w n)

-- The change of one logger, behind `getLogger`.
Reset-Changed :
    {w w1 w' : World} {i : ℕ} {a : Text} (f : Fetched w w1 i a) {l' : Logger} (v : View)
    → Reset w1 w' i f.logger l'
    → view_of w' l' ≡ v
    → Changed w w' a v
Reset-Changed {w} {w1} {w'} {i} {a} f {l'} v r e = record {
  sound = Reset-IsSound w1 w' i f.logger l' f.sound f.at r;
  seen = λ n.
      Reset-view w1 w' i f.logger l' f.sound f.at r (ap (find_logger w1.table) f.name ∙ f.found) n
      ∙ ap (λ (t : Text). if text_eq t n then some (view_of w' l') else view w1 n) f.name
      ∙ agree n (text_eq a n) refl;
}
  where
    agree :
        (n : Text) (b : Bool)
        → text_eq a n ≡ b
        → (if text_eq a n then some (view_of w' l') else view w1 n)
          ≡ (if text_eq a n then some v else view w n)
    agree n true q = rw q (ap some e)
    agree n false q = rw q (f.others n q)

module _ (w : World) (i : ℕ) (l : Logger) (v : IsValid w) (e : IsLogger w i l) where
  -- What the first calls leave behind: a logger with a level, a formatter and no appender.
  cleared :
      (w' : World) (l' : Logger)
      → IsValid w'
      → Frame w w' i l.appenders
      → IsLogger w' i l'
      → IsValid (clear_appenders w' i)
        × Frame w (clear_appenders w' i) i l.appenders
        × IsLogger (clear_appenders w' i) i (record l' { appenders = [] })
  cleared w' l' v' f h =
      let (g, k) = clear_appenders_lem w' i l' l.appenders h in
      (clear_appenders-IsValid w' i v', Frame-trans f g, k)

  take_out-Reset :
      Reset w
        (clear_appenders (set_level w i removed_level) i)
        i
        l
        (record l { level = removed_level; appenders = [] })
  take_out-Reset =
      let (f, k) = set_level_lem w i l removed_level l.appenders e in
      let (v', g, h) = cleared _ _ (set_level-IsValid w i v removed_level) f k in
      record { valid = v'; frame = g; logger = h; name = refl; new = refl }

  -- The logger that a definition has been applied to, before its appenders are made.
  bare : LogDefine → Logger
  bare d = record l { level = d.level; formatter = formatter_after d l.formatter; appenders = [] }

  bare_world : LogDefine → World
  bare_world d =
      let w2 : World = set_level w i d.level in
      clear_appenders (if is_empty d.formatter then w2 else set_pattern w2 i d.formatter) i

  bare_lem :
      (d : LogDefine)
      → IsValid (bare_world d)
        × Frame w (bare_world d) i l.appenders
        × IsLogger (bare_world d) i (bare d)
  unfolding bare bare_world
  bare_lem d =
      let (f, k) = set_level_lem w i l d.level l.appenders e in
      let (v', g, h) = fitted (is_empty d.formatter) f k in cleared _ _ v' g h
    where
      fitted :
          (b : Bool)
          → Frame w (set_level w i d.level) i l.appenders
          → IsLogger (set_level w i d.level) i (record l { level = d.level })
          → IsValid (
              if b
              then set_level w i d.level
              else set_pattern (set_level w i d.level) i d.formatter)
            × Frame w
                (if b
                  then set_level w i d.level
                  else set_pattern (set_level w i d.level) i d.formatter)
                i
                l.appenders
            × IsLogger
                (if b
                  then set_level w i d.level
                  else set_pattern (set_level w i d.level) i d.formatter)
                i
                (record l {
                  level = d.level;
                  formatter = if b then l.formatter else refitted d.formatter l.formatter;
                })
      fitted true f k = (set_level-IsValid w i v d.level, f, k)
      fitted false f k =
          let (g, h) =
            set_pattern_lem (set_level w i d.level) i (record l { level = d.level }) d.formatter
              k in
          (
            set_pattern-IsValid _ i d.formatter (set_level-IsValid w i v d.level),
            Frame-trans f g,
            h,
          )

  -- The whole of it.
  set_up-Reset :
      (d : LogDefine)
      → all is_known d.appenders ≡ true
      → (w' : World) × (js : List ℕ) × (set_up_appenders (bare_world d) i d.appenders ≡ some w')
        × Reset w w' i l (record (bare d) { appenders = js })
        × (map (λ j. get_elem? w'.appenders j) js
            ≡ map (λ a. some (built (formatter_after d l.formatter) a)) d.appenders)
  unfolding bare
  set_up-Reset d h =
      let (v', f, k) = bare_lem d in
      let (w', q, m) = set_up_appenders-Made d.appenders (bare_world d) i (bare d) v' k h in
      (
        w',
        m.fresh,
        q,
        record {
          valid = m.valid;
          frame = Frame-trans f (m.frame l.appenders);
          logger = m.logger;
          name = refl;
          new =
              all-leb (length w.appenders) (length (bare_world d).appenders) m.fresh f.longer m.new;
        },
        m.made,
      )

-- Taking out a name, as the listener does for a definition that is gone.
pub take_out-Changed :
    (w : World) (d : LogDefine)
    → IsSound w
    → Changed w (take_out w d) d.name (removed (view w d.name))
unfolding take_out
take_out-Changed w d s =
    let f = get_logger-Fetched w d.name s in
    Reset-Changed f _ (take_out-Reset _ _ f.logger f.sound.valid f.at)
      (ap (λ (g : Option Formatter). viewed removed_level g []) f.formatter)
  where
    viewed : Level → Option Formatter → List (Option Appender) → View
    viewed level g found = record { level = level; formatter = g; appenders = found }

-- Setting up the logger of a definition.
pub set_up-Changed :
    (w : World) (d : LogDefine)
    → IsSound w
    → all is_known d.appenders ≡ true
    → (w' : World) × (set_up w d ≡ some w') × Changed w w' d.name (configured d (view w d.name))
unfolding set_up bare_world bare
set_up-Changed w d s h =
    let f = get_logger-Fetched w d.name s in
    let (w', js, q, r, m) = set_up-Reset _ _ f.logger f.sound.valid f.at d h in
    (
      w',
      q,
      Reset-Changed f _ r (
          ap (viewed d.level (formatter_after d f.logger.formatter)) m
          ∙ ap
              (λ (g : Option Formatter).
                viewed d.level (formatter_after d g)
                  (map (λ a. some (built (formatter_after d g) a)) d.appenders))
              f.formatter),
    )
  where
    viewed : Level → Option Formatter → List (Option Appender) → View
    viewed level g found = record { level = level; formatter = g; appenders = found }
