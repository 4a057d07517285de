-- ===== src/Locks/Alone/OfLogging.antt =====
-- A call of `log`, run alone.
use final_designer.Formatter.Event.{Event, new_event, stream}
use final_designer.Level.{Level}
use final_designer.Locks.Access.{follow, read_logger}
use final_designer.Locks.Alone.{and_then, alone-read_logger}
use final_designer.Locks.Alone.OfAppenders.{alone-log_to_console, alone-log_to_file}
use final_designer.Locks.Appenders
use final_designer.Locks.Appenders.{log_by}
use final_designer.Locks.Code.{Code, alone, take, release, logger, exclusive}
use final_designer.Locks.Loggers
use final_designer.Locks.Loggers.{log_chain}
use final_designer.Logging.Log.{log_all, log, log_event, log_macro, drop_wrap}
use final_designer.Logging.World.{
  Appender, Sort, console, file, Logger, World, appender_log, log_sort,
}
use final_designer.Prelude.{
  ℕ, ℤ, zero, suc, ◌≡◌, refl, ◌∙◌, Bool, true, false, List, [], ◌∷◌, Text, Option, none, some,
  get_elem?, leb, is_empty, if◌then◌else◌,
}

if-alone :
    (b : Bool) (x y : Code World) (u v : Option World) (k : World → Option World) (w : World)
    → alone x w ≡ and_then u k
    → alone y w ≡ and_then v k
    → alone (if b then x else y) w ≡ and_then (if b then u else v) k
if-alone true x y u v k w p q = p
if-alone false x y u v k w p q = q

module _ (local_time : Text → ℕ → Text) (level : Level) (event : Event) where
  alone-log_by :
      (s : Sort) (w : World) (j : ℕ) (a : Appender) (k : Code World)
      → get_elem? w.appenders j ≡ some a
      → a.sort ≡ s
      → alone (log_by local_time s j level event k) w
        ≡ and_then (log_sort local_time s w j a level event) (alone k)
  unfolding log_sort
  alone-log_by console w j a k e q = alone-log_to_console local_time level event w j a k e
  alone-log_by (file name s) w j a k e q =
      alone-log_to_file local_time level event w j a name s e q k

  alone-appender_log :
      (w : World) (j : ℕ) (k : Code World)
      → alone (Appenders.log local_time j level event k) w
        ≡ and_then (appender_log local_time w j level event) (alone k)
  unfolding Appenders.log appender_log alone
  alone-appender_log w j k = by_pointer (get_elem? w.appenders j) refl
    where
      by_pointer :
          (o : Option Appender)
          → get_elem? w.appenders j ≡ o
          → alone
              (follow o
                λ a. if leb a.level level then log_by local_time a.sort j level event k else k)
              w
            ≡ and_then
                (elim o [
                  | none ↦ none
                  | some a ↦
                      if leb a.level level
                      then log_sort local_time a.sort w j a level event
                      else some w
                ])
                (alone k)
      by_pointer none e = refl
      by_pointer (some a) e =
          if-alone (leb a.level level) _ k _ (some w) (alone k) w
            (alone-log_by a.sort w j a k e refl) refl

  alone-log_all :
      (js : List ℕ) (w : World) (k : Code World)
      → alone (Loggers.log_all local_time js level event k) w
        ≡ and_then (log_all local_time w js level event) (alone k)
  unfolding Loggers.log_all log_all
  alone-log_all [] w k = refl
  alone-log_all (j ∷ js) w k =
      alone-appender_log w j (Loggers.log_all local_time js level event k)
      ∙ rest (appender_log local_time w j level event) (λ w'. alone-log_all js w' k)
    where
      rest :
          (o : Option World)
          → ((w' : World)
              → alone (Loggers.log_all local_time js level event k) w'
                ≡ and_then (log_all local_time w' js level event) (alone k))
          → and_then o (alone (Loggers.log_all local_time js level event k))
            ≡ and_then
                (elim o [ none ↦ none | some w' ↦ log_all local_time w' js level event ])
                (alone k)
      rest none h = refl
      rest (some w') h = h w'

  -- One logger's turn.
  alone-log_chain :
      (fuel : ℕ) (w : World) (i : ℕ) (k : Code World)
      → alone (log_chain local_time fuel i level event k) w
        ≡ and_then (log local_time fuel w i level event) (alone k)
  unfolding log_chain log alone
  alone-log_chain zero w i k = refl
  alone-log_chain (suc fuel) w i k =
      by_pointer (get_elem? w.loggers i) refl (λ r k'. alone-log_chain fuel w r k')
    where
      up : Option ℕ → Option World
      up o = elim o [ none ↦ some w | some r ↦ log local_time fuel w r level event ]

      go_up : Option ℕ → Code World
      go_up o = elim o [
        | none ↦ release (logger i) k
        | some r ↦ log_chain local_time fuel r level event (release (logger i) k)
      ]

      rising :
          (o : Option ℕ)
          → ((r : ℕ) (k' : Code World)
              → alone (log_chain local_time fuel r level event k') w
                ≡ and_then (log local_time fuel w r level event) (alone k'))
          → alone (go_up o) w ≡ and_then (up o) (alone k)
      rising none h = refl
      rising (some r) h = h r (release (logger i) k)

      emptied :
          (b : Bool) (x y : Code World) (u v : Option World)
          → alone x w ≡ and_then u (alone k)
          → alone y w ≡ and_then v (alone k)
          → alone (if b then x else y) w ≡ and_then (if b then u else v) (alone k)
      emptied b x y u v p q = if-alone b x y u v (alone k) w p q

      by_pointer :
          (o : Option Logger)
          → get_elem? w.loggers i ≡ o
          → ((r : ℕ) (k' : Code World)
              → alone (log_chain local_time fuel r level event k') w
                ≡ and_then (log local_time fuel w r level event) (alone k'))
          → alone
              (follow o λ l.
                if leb l.level level
                then take (logger i) exclusive (
                    read_logger i λ m.
                      (let next_ : Code World = go_up m.root in
                        if is_empty m.appenders
                        then next_
                        else Loggers.log_all local_time m.appenders level event
                            (release (logger i) k)))
                else k)
              w
            ≡ and_then
                (elim o [
                  | none ↦ none
                  | some l ↦
                      let up_ : Option World = up l.root in
                      if leb l.level level
                      then if is_empty l.appenders
                        then up_
                        else log_all local_time w l.appenders level event
                      else some w
                ])
                (alone k)
      by_pointer none e h = refl
      by_pointer (some l) e h =
          emptied (leb l.level level) _ k _ (some w)
            (alone-read_logger w i l _ e
              ∙ emptied (is_empty l.appenders) _ _ _ _ (rising l.root h)
                  (alone-log_all l.appenders w (release (logger i) k)))
            refl

module _ (local_time : Text → ℕ → Text) where
  pub alone-log_macro :
      (w : World) (i : ℕ) (level : Level) (source : Text) (line : ℤ) (thread fiber now : ℕ)
      (text : Text) (k : Code World)
      → alone (Loggers.log_macro local_time i level source line thread fiber now text k) w
        ≡ and_then (log_macro local_time w i level source line thread fiber now text) (alone k)
  unfolding Loggers.log_macro log_macro drop_wrap log_event new_event alone
  alone-log_macro w i level source line thread fiber now text k = by_pointer (get_elem? w.loggers i)
    where
      event : Event
      event = stream (new_event i level source line 0 thread fiber now) text

      by_pointer :
          (o : Option Logger)
          → alone
              (follow o
                λ l. if leb l.level level then log_chain local_time 2 i level event k else k)
              w
            ≡ and_then
                (elim o [
                  | none ↦ none
                  | some l ↦ if leb l.level level then log local_time 2 w i level event else some w
                ])
                (alone k)
      by_pointer none = refl
      by_pointer (some l) =
          if-alone (leb l.level level) _ k _ (some w) (alone k) w
            (alone-log_chain local_time level event 2 w i k) refl
