-- ===== src/Logging/Log.antt =====
-- `Logger::log`, and the macros that reach it through a `LogEventWrap`.
use final_designer.Formatter.Event.{Event, new_event, stream}
use final_designer.Level.{Level, debug, info, warn, error, fatal}
use final_designer.Logging.World.{World, appender_log}
use final_designer.Prelude.{
  ℕ, ℤ, zero, suc, List, [], ◌∷◌, Text, Option, none, some, is_empty, get_elem?, leb, if◌then◌else◌,
}

module _ (local_time : Text → ℕ → Text) where
  -- The loop of `Logger::log` over the appenders.
  unfoldable pub log_all : World → List ℕ → Level → Event → Option World
  log_all w [] level event = some w
  log_all w (j ∷ js) level event = elim (appender_log local_time w j level event) [
    | none ↦ none
    | some w' ↦ log_all w' js level event
  ]

  -- `Logger::log`. The fuel bounds the chain of roots; `none` stands for a call through a null
  -- pointer or a chain without an end.
  unfoldable pub log : ℕ → World → ℕ → Level → Event → Option World
  unfolding log_all
  log zero w i level event = none
  log (suc fuel) w i level event = elim (get_elem? w.loggers i) [
    | none ↦ none
    | some l ↦
        let up : Option World = elim l.root [ none ↦ some w | some r ↦ log fuel w r level event ] in
        if leb l.level level
        then if is_empty l.appenders then up else log_all w l.appenders level event
        else some w
  ]

  -- A logger made by the manager hands on to the main logger, and that to none.
  unfoldable pub log_event : World → ℕ → Level → Event → Option World
  unfolding log
  log_event = log 2

  -- `Logger::debug` and the others
  unfoldable pub log_debug : World → ℕ → Event → Option World
  unfolding log_event
  log_debug w i event = log_event w i debug event

  unfoldable pub log_info : World → ℕ → Event → Option World
  unfolding log_event
  log_info w i event = log_event w i info event

  unfoldable pub log_warn : World → ℕ → Event → Option World
  unfolding log_event
  log_warn w i event = log_event w i warn event

  unfoldable pub log_error : World → ℕ → Event → Option World
  unfolding log_event
  log_error w i event = log_event w i error event

  unfoldable pub log_fatal : World → ℕ → Event → Option World
  unfolding log_event
  log_fatal w i event = log_event w i fatal event

  -- `~LogEventWrap`
  unfoldable pub drop_wrap : World → Event → Option World
  unfolding log_event
  drop_wrap w event = log_event w event.logger event.level event

  -- `NNYSL_LOG_LEVEL(logger, level) << text`, at a place in the program, by a thread, at a time.
  unfoldable pub log_macro : World → ℕ → Level → Text → ℤ → ℕ → ℕ → ℕ → Text → Option World
  unfolding drop_wrap new_event
  log_macro w i level file line thread fiber now text = elim (get_elem? w.loggers i) [
    | none ↦ none
    | some l ↦
        if leb l.level level
        then drop_wrap w (stream (new_event i level file line 0 thread fiber now) text)
        else some w
  ]
