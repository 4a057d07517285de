-- ===== src/Locks/Alone/OfPrograms.antt =====
-- A sequence of calls, run alone, against the operations of `Logging` and `Define`.
use final_designer.Config.Var.{Outcome}
use final_designer.Define.Describe.{logger_to_yaml_string, manager_to_yaml_string}
use final_designer.Formatter.Scan.{Formatter}
use final_designer.Level.{Level}
use final_designer.Locks.Alone.{alone-IsSafe, and_then, alone-read_logger, alone-write_appender}
use final_designer.Locks.Alone.OfLoggers.{
  alone-set_level, alone-del_appender, alone-add_appender, alone-set_formatter, alone-set_pattern,
}
use final_designer.Locks.Alone.OfLogging.{alone-log_macro}
use final_designer.Locks.Alone.OfManagers.{
  told, alone-get_logger, alone-logger_to_yaml_string, alone-manager_to_yaml_string,
}
use final_designer.Locks.Appenders
use final_designer.Locks.Appenders.{make_appender}
use final_designer.Locks.Code.{Code, alone, done, release, logger}
use final_designer.Locks.Loggers
use final_designer.Locks.Managers.{get_root}
use final_designer.Locks.Program.{
  Call, log_to, log_to_root, add_console, add_file, add_dressed, del, level_of, formatter_of,
  pattern_of, formatter_asked, describe, describe_all, files, call, program,
}
use final_designer.Locks.Safety.OfPrograms.{program-IsSafe}
use final_designer.Locks.Store.{Inv, Later-refl, store_rules}
use final_designer.Logging.Invariant.{IsLogger}
use final_designer.Logging.Log.{log_macro}
use final_designer.Logging.Logger.{
  add_appender, del_appender, set_level, set_formatter, set_pattern,
}
use final_designer.Logging.Manager.{get_logger}
use final_designer.Logging.Managing.{get_logger-IsNamed, get_logger-IsValid}
use final_designer.Logging.World.{
  Appender, new_console, new_file, Logger, World, appender_set_formatter,
}
use final_designer.Prelude.{
  ℕ, ◌≡◌, refl, sym, ap, ◌∙◌, List, [], ◌∷◌, ◌++◌, Text, Option, none, some, length,
  get_elem?-append_last, set-append_last,
}
use final_designer.Yaml.{Api}

-- `logger->addAppender(appender)` for a new appender.
abbrev add_new : World → ℕ → Appender → World
add_new w i a = add_appender (record w { appenders = w.appenders ++ a ∷ [] }) i (length w.appenders)

-- A new appender for a file, with a level and a formatter of its own.
abbrev dress : Text → Level → Formatter → Appender
dress filename level f =
    appender_set_formatter (record (new_file filename) { level = level }) (some f)

module _ (local_time : Text → ℕ → Text) (api : Api) where
  -- The calls, one after another.
  unfoldable pub run_call : Call → World → Option World
  run_call (log_to name level source line thread fiber now text) w =
      let (w', i) = get_logger w name in
      log_macro local_time w' i level source line thread fiber now text
  run_call (log_to_root level source line thread fiber now text) w =
      log_macro local_time w w.main level source line thread fiber now text
  run_call (add_console name) w = let (w', i) = get_logger w name in some (add_new w' i new_console)
  run_call (add_file name filename) w =
      let (w', i) = get_logger w name in some (add_new w' i (new_file filename))
  run_call (add_dressed name filename level f) w =
      let (w', i) = get_logger w name in some (add_new w' i (dress filename level f))
  run_call (del name j) w = let (w', i) = get_logger w name in some (del_appender w' i j)
  run_call (level_of name level) w = let (w', i) = get_logger w name in some (set_level w' i level)
  run_call (formatter_of name f) w =
      let (w', i) = get_logger w name in some (set_formatter w' i (some f))
  run_call (pattern_of name val) w = let (w', i) = get_logger w name in some (set_pattern w' i val)
  run_call (formatter_asked name) w = some (get_logger w name).0
  run_call (describe name) w =
      let (w', i) = get_logger w name in told (logger_to_yaml_string api w' i) λ o. some w'
  run_call describe_all w = told (manager_to_yaml_string api w) λ o. some w
  run_call (files d) w = some (record w { disk = d })

  unfoldable pub run_calls : List Call → World → Option World
  unfolding run_call
  run_calls [] w = some w
  run_calls (c ∷ cs) w = elim (run_call c w) [ none ↦ none | some w' ↦ run_calls cs w' ]

and_then-some : (o : Option World) → and_then o some ≡ o
and_then-some none = refl
and_then-some (some w) = refl

told-some :
    {A : Type 0} (o : Option (Outcome A)) (w : World) (k : World → Option World)
    → told o (λ x. k w) ≡ and_then (told o λ x. some w) k
told-some none w k = refl
told-some (some x) w k = refl

module _ (local_time : Text → ℕ → Text) (api : Api) (top : ℕ) where
  -- A new appender is put on the list of a logger that is there.
  alone-add_new :
      (w : World) (i : ℕ) (l : Logger) (a : Appender) (k : Code World)
      → IsLogger w i l
      → alone (make_appender a λ j. Loggers.add_appender i j k) w ≡ alone k (add_new w i a)
  unfolding make_appender alone
  alone-add_new w i l a k e =
      alone-add_appender (record w { appenders = w.appenders ++ a ∷ [] }) i l e (length w.appenders)
        a k (get_elem?-append_last w.appenders a)

  alone-add_dressed :
      (w : World) (i : ℕ) (l : Logger) (filename : Text) (level : Level) (f : Formatter)
      (k : Code World)
      → IsLogger w i l
      → alone
          (make_appender (new_file filename) λ j.
            Appenders.set_level j level
              (Appenders.set_formatter j (some f) (Loggers.add_appender i j k)))
          w
        ≡ alone k (add_new w i (dress filename level f))
  unfolding make_appender Appenders.set_level Appenders.set_formatter alone
  alone-add_dressed w i l filename level f k e =
      let a : Appender = new_file filename in
      let b : Appender = record a { level = level } in
      let at_end = get_elem?-append_last w.appenders in
      let n : ℕ = length w.appenders in
      alone-write_appender (record w { appenders = w.appenders ++ a ∷ [] }) n a _ _ (at_end a)
      ∙ ap
          (λ (xs : List Appender).
            alone (Appenders.set_formatter n (some f) (Loggers.add_appender i n k))
              (record w { appenders = xs }))
          (set-append_last w.appenders a b)
      ∙ alone-write_appender (record w { appenders = w.appenders ++ b ∷ [] }) n b _ _ (at_end b)
      ∙ ap
          (λ (xs : List Appender). alone (Loggers.add_appender i n k) (record w { appenders = xs }))
          (set-append_last w.appenders b (dress filename level f))
      ∙ alone-add_appender (record w { appenders = w.appenders ++ dress filename level f ∷ [] }) i l
          e n (dress filename level f) k (at_end (dress filename level f))

  alone-call :
      (c : Call) (w : World) (k : Code World)
      → Inv top w
      → alone (call local_time api c k) w ≡ and_then (run_call local_time api c w) (alone k)
  unfolding call run_call get_root alone Loggers.get_logger_formatter
  alone-call (log_to name level source line thread fiber now text) w k v =
      alone-get_logger w name _
      ∙ alone-log_macro local_time _ _ level source line thread fiber now text k
  alone-call (log_to_root level source line thread fiber now text) w k v =
      alone-log_macro local_time w w.main level source line thread fiber now text k
  alone-call (add_console name) w k v =
      let (named, (l, e, n)) = get_logger-IsNamed w name v.named in
      alone-get_logger w name _ ∙ alone-add_new _ _ l new_console k e
  alone-call (add_file name filename) w k v =
      let (named, (l, e, n)) = get_logger-IsNamed w name v.named in
      alone-get_logger w name _ ∙ alone-add_new _ _ l (new_file filename) k e
  alone-call (add_dressed name filename level f) w k v =
      let (named, (l, e, n)) = get_logger-IsNamed w name v.named in
      alone-get_logger w name _ ∙ alone-add_dressed _ _ l filename level f k e
  alone-call (del name j) w k v =
      let (named, (l, e, n)) = get_logger-IsNamed w name v.named in
      alone-get_logger w name _ ∙ alone-del_appender _ _ l e j k
  alone-call (level_of name level) w k v =
      let (named, (l, e, n)) = get_logger-IsNamed w name v.named in
      alone-get_logger w name _ ∙ alone-set_level _ _ l e level k
  alone-call (formatter_of name f) w k v =
      let (named, (l, e, n)) = get_logger-IsNamed w name v.named in
      alone-get_logger w name _
      ∙ alone-set_formatter _ _ l e ((get_logger-IsValid w name v.valid).ready _ l e) (some f) k
  alone-call (pattern_of name val) w k v =
      let (named, (l, e, n)) = get_logger-IsNamed w name v.named in
      alone-get_logger w name _
      ∙ alone-set_pattern _ _ l e ((get_logger-IsValid w name v.valid).ready _ l e) val k
  alone-call (formatter_asked name) w k v =
      let (named, (l, e, n)) = get_logger-IsNamed w name v.named in
      alone-get_logger w name _
      ∙ alone-read_logger (get_logger w name).0 (get_logger w name).1 l
          (λ x. release (logger (get_logger w name).1) k) e
  alone-call (describe name) w k v =
      alone-get_logger w name _
      ∙ alone-logger_to_yaml_string api (get_logger w name).0 (get_logger w name).1 _
      ∙ told-some (logger_to_yaml_string api (get_logger w name).0 (get_logger w name).1)
          (get_logger w name).0 (alone k)
  alone-call describe_all w k v =
      alone-manager_to_yaml_string api w _ ∙ told-some (manager_to_yaml_string api w) w (alone k)
  alone-call (files d) w k v = refl

  -- With the locks left out, a thread's calls make of a valid store the one that the operations make
  -- one after another, with no call through a null pointer.
  pub alone-program :
      (cs : List Call) (w : World)
      → Inv top w
      → (w' : World) × (alone (program local_time api cs) w ≡ some w')
        × (run_calls local_time api cs w ≡ some w')
        × Inv top w'
  unfolding program run_calls alone
  alone-program [] w v = (w, refl, refl, v)
  alone-program (c ∷ cs) w v =
      let (w1, e1, v1) =
        alone-IsSafe (store_rules top) (program local_time api (c ∷ [])) [] w
          (program-IsSafe local_time api top (c ∷ []) w w (Later-refl w) v) v in
      let ran : run_call local_time api c w ≡ some w1 =
        sym (and_then-some (run_call local_time api c w)) ∙ sym (alone-call c w done v) ∙ e1 in
      let (w2, e2, r2, v2) = alone-program cs w1 v1 in
      (
        w2,
        alone-call c w (program local_time api cs) v
            ∙ ap (λ (o : Option World). and_then o (alone (program local_time api cs))) ran
            ∙ e2,
        ap (λ (o : Option World). elim o [ none ↦ none | some u ↦ run_calls local_time api cs u ])
              ran
            ∙ r2,
        v2,
      )
