-- ===== src/Logging/Output.antt =====
-- What a logger with console appenders prints.
use final_designer.Formatter.Event.{Event}
use final_designer.Formatter.Scan.{Formatter, format}
use final_designer.Level.{Level}
use final_designer.Logging.Invariant.{IsLogger}
use final_designer.Logging.Log.{log_all, log, log_event}
use final_designer.Logging.World.{
  Appender, console, Logger, World, print, env, appender_log, log_sort, log_console,
}
use final_designer.Prelude.{
  ℕ, ◌≤◌, ◌≡◌, ◌∙◌, sym, ap, false, List, [], ◌∷◌, ◌++◌, Text, some, get_elem?, leb, arith,
  if◌then◌else◌, append-nil, append_assoc, is_empty, Bool-cases, inl, inr,
}

-- An appender to the console, with its formatter.
abbrev pub IsConsole : World → ℕ → Appender → Formatter → Type 0
IsConsole w j a f = (get_elem? w.appenders j ≡ some a) × (a.sort ≡ console) × (a.formatter ≡ some f)

-- The appenders of a list, each with what `appender_log` needs of it.
pub data AreConsoles (w : World) : List ℕ → List (Level × Formatter) → Type 0 where
  none_left : AreConsoles w [] []
  console_at :
      {js : List ℕ} {fs : List (Level × Formatter)} (j : ℕ) (a : Appender) (f : Formatter)
      → IsConsole w j a f
      → AreConsoles w js fs
      → AreConsoles w (j ∷ js) ((a.level, f) ∷ fs)

module _ (local_time : Text → ℕ → Text) where
  -- Each appender whose level the call reaches gives the event in its own format, in their order.
  abbrev pub lines : World → List (Level × Formatter) → Level → Event → Text
  lines w [] level event = []
  lines w ((least, f) ∷ fs) level event =
      (if leb least level then format (env local_time w) f level event else [])
      ++ lines w fs level event

  appender_log_console :
      (w : World) (j : ℕ) (a : Appender) (f : Formatter) (level : Level) (event : Event)
      → IsConsole w j a f
      → appender_log local_time w j level event
        ≡ some (if leb a.level level then print w (format (env local_time w) f level event) else w)
  unfolding appender_log log_sort log_console
  appender_log_console w j a f level event (e, s, q) = ground (arith, e, s, q)

  log_all-consoles :
      (w : World) {js : List ℕ} {fs : List (Level × Formatter)} (out : Text)
      → AreConsoles w js fs
      → (level : Level) (event : Event)
      → log_all local_time (record w { out = out }) js level event
        ≡ some (record w { out = out ++ lines w fs level event })
  unfolding log_all
  log_all-consoles w out none_left level event =
      ap (λ (t : Text). some (record w { out = t })) (sym (append-nil out))
  log_all-consoles w out (console_at {js} {fs} j a f c cs) level event =
      let v : World = record w { out = out } in
      let text : Text = format (env local_time w) f level event in
      rw (appender_log_console v j a f level event c, log_all)
        (elim (Bool-cases (leb a.level level)) [
          | inl on ↦ rw on (
              log_all-consoles w (out ++ text) cs level event
              ∙ ap (λ (t : Text). some (record w { out = t }))
                  (append_assoc out text (lines w fs level event)))
          | inr off ↦ rw off (log_all-consoles w out cs level event)
        ])

  -- A logger whose appenders all go to the console prints, for an event that reaches its level,
  -- the event once for each appender whose own level the event reaches, in the appenders' order
  -- and formats, and nothing else of the store changes.
  pub log_event-consoles :
      {js : List ℕ} {fs : List (Level × Formatter)} (w : World) (i : ℕ) (l : Logger) (level : Level)
      (event : Event)
      → IsLogger w i l
      → l.appenders ≡ js
      → is_empty js ≡ false
      → l.level ≤ level
      → AreConsoles w js fs
      → log_event local_time w i level event ≡ some (print w (lines w fs level event))
  unfolding log_event log
  log_event-consoles {js} w i l level event e q some_ h cs =
      ground (arith, e, q, log_all-consoles w w.out cs level event)
