-- ===== src/Logging/Gate.antt =====
-- Which calls of `log` write, and through whom.
use final_designer.Formatter.Event.{Event, new_event, stream}
use final_designer.Level.{Level}
use final_designer.Logging.Invariant.{IsLogger}
use final_designer.Logging.Log.{log, log_event, drop_wrap, log_macro}
use final_designer.Logging.World.{Logger, World}
use final_designer.Prelude.{ℕ, ℤ, ◌≤◌, ◌<◌, ◌≡◌, [], Text, none, some, arith}

module _ (local_time : Text → ℕ → Text) (w : World) (i : ℕ) (l : Logger) (e : IsLogger w i l) where
  -- A call below the logger's level does nothing.
  log_event_below :
      (level : Level) (event : Event)
      → level < l.level
      → log_event local_time w i level event ≡ some w
  unfolding log_event log
  log_event_below level event h = ground (arith, e)

  -- A logger with no appender hands a call that reaches its level on to its root, the event with
  -- its own logger's name included; the root's own level then decides.
  pub log_event-root :
      (level : Level) (event : Event) (r : ℕ) (k : Logger)
      → l.level ≤ level
      → l.appenders ≡ []
      → l.root ≡ some r
      → IsLogger w r k
      → k.root ≡ none
      → log_event local_time w i level event ≡ log_event local_time w r level event
  unfolding log_event log
  log_event-root level event r k h q s t u = ground (arith, e)

  -- The test in the macros changes nothing: a statement that logs does what it would do without
  -- the test, which is to log the streamed event at its own level.
  pub log_macro_gate :
      (level : Level) (file : Text) (line : ℤ) (thread fiber now : ℕ) (text : Text)
      → log_macro local_time w i level file line thread fiber now text
        ≡ log_event local_time w i level
            (stream (new_event i level file line 0 thread fiber now) text)
  unfolding log_macro drop_wrap log_event log new_event
  log_macro_gate level file line thread fiber now text = ground (arith, e)
