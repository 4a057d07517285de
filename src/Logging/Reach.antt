-- ===== src/Logging/Reach.antt =====
-- The stores that a program can reach from the manager's constructor by calls of the log system,
-- in any order, while the file system changes by itself.
use final_designer.Formatter.Event.{Event}
use final_designer.Formatter.Scan.{Formatter}
use final_designer.Level.{Level}
use final_designer.Logging.Invariant.{
  IsLogger, IsValid, Keeps, Keeps-IsValid, Keeps-put, Keeps-refl, AreReady-Keeps, log_event_total,
}
use final_designer.Logging.Log.{log_event}
use final_designer.Logging.Logger.{
  add_appender, del_appender, clear_appenders, set_level, set_formatter, set_pattern, new_logger,
}
use final_designer.Logging.Manager.{get_logger, new_manager}
use final_designer.Logging.Managing.{get_logger-IsValid, new_logger-formatted, new_manager-IsValid}
use final_designer.Logging.Preserve.{
  add_appender-IsValid, del_appender-IsValid, clear_appenders-IsValid, set_level-IsValid,
  set_formatter-IsValid, set_pattern-IsValid,
}
use final_designer.Logging.Sink.{Disk}
use final_designer.Logging.World.{
  Appender, new_console, new_file, Logger, World, put_appender, appender_set_formatter,
}
use final_designer.Prelude.{
  ℕ, ◌≡◌, refl, ◌∙◌, sym, [], ◌∷◌, ◌++◌, Text, some, get_elem?, subst, some-injective,
  get_elem?-append, get_elem?-append_cases, get_elem?-set_hit, get_elem?-set_ne, set, ap, none,
  Bool-cases, inl, inr, ◌==◌, ==_iff, arith,
}

abbrev make_appender : World → Appender → World
make_appender w a = record w { appenders = w.appenders ++ a ∷ [] }

-- A logger that a program makes by itself: the manager does not have it, and it has no root.
abbrev own_logger : World → Text → World
own_logger w name = record w { loggers = w.loggers ++ new_logger name ∷ [] }

-- A pointer that is passed to a call leads to an object, and a formatter that is set is not null.
pub data Step (local_time : Text → ℕ → Text) (w : World) : World → Type 0 where
  make_console : Step local_time w (make_appender w new_console)
  make_file : (name : Text) → Step local_time w (make_appender w (new_file name))
  add :
      (i j : ℕ) (a : Appender)
      → get_elem? w.appenders j ≡ some a
      → Step local_time w (add_appender w i j)
  del : (i j : ℕ) → Step local_time w (del_appender w i j)
  clear : (i : ℕ) → Step local_time w (clear_appenders w i)
  level_of : (i : ℕ) (level : Level) → Step local_time w (set_level w i level)
  formatter_of : (i : ℕ) (f : Formatter) → Step local_time w (set_formatter w i (some f))
  pattern_of : (i : ℕ) (val : Text) → Step local_time w (set_pattern w i val)
  appender_formatter :
      (j : ℕ) (a : Appender) (f : Formatter)
      → get_elem? w.appenders j ≡ some a
      → Step local_time w (put_appender w j (appender_set_formatter a (some f)))
  appender_level :
      (j : ℕ) (a : Appender) (level : Level)
      → get_elem? w.appenders j ≡ some a
      → Step local_time w (put_appender w j (record a { level = level }))
  make_own : (name : Text) → Step local_time w (own_logger w name)
  get : (name : Text) → Step local_time w (get_logger w name).0
  logged :
      {w' : World} (i : ℕ) (l : Logger) (level : Level) (event : Event)
      → IsLogger w i l
      → log_event local_time w i level event ≡ some w'
      → Step local_time w w'
  files : (d : Disk) → Step local_time w (record w { disk = d })

pub data Reach (local_time : Text → ℕ → Text) (d : Disk) : World → Type 0 where
  start : Reach local_time d (new_manager d)
  next : {w w' : World} → Reach local_time d w → Step local_time w w' → Reach local_time d w'

make_appender-Keeps : (w : World) (a : Appender) → Keeps w (make_appender w a)
make_appender-Keeps w a = record {
  loggers = refl;
  table = refl;
  main = refl;
  ready = λ j (b, f, e, q). (b, f, get_elem?-append w.appenders (a ∷ []) j b e, q);
}

-- A change of the level of an appender leaves its formatter.
levelled-Keeps :
    (w : World) (j : ℕ) (a : Appender) (level : Level)
    → get_elem? w.appenders j ≡ some a
    → Keeps w (put_appender w j (record a { level = level }))
levelled-Keeps w j a level e = record {
  loggers = refl;
  table = refl;
  main = refl;
  ready = λ k (c, f, q, p). elim (Bool-cases (j == k)) [
    | inl same ↦
        let here : get_elem? w.appenders k ≡ some a =
          ap (get_elem? w.appenders) (sym ((==_iff j k).0 same)) ∙ e in
        let formed : a.formatter ≡ some f =
          ap (λ (x : Appender). x.formatter) (some-injective _ _ (sym here ∙ q)) ∙ p in
        (
          record a { level = level },
          f,
          ap (get_elem? (set w.appenders j (record a { level = level })))
                (sym ((==_iff j k).0 same))
              ∙ get_elem?-set_hit w.appenders j _ a e,
          formed,
        )
    | inr other ↦
        (c, f, get_elem?-set_ne w.appenders _ (λ h. ground (arith, other, (==_iff j k).1 h)) ∙ q, p)
  ];
}

own_logger-IsValid : (w : World) (name : Text) → IsValid w → IsValid (own_logger w name)
unfolding new_logger
own_logger-IsValid w name v = record {
  ready = λ i l h. elim (get_elem?-append_cases w.loggers _ i l h) [
    | inl old ↦ AreReady-Keeps l.appenders same (v.ready i l old)
    | inr new ↦ rw new tt
  ];
  formatted = λ i l h. elim (get_elem?-append_cases w.loggers _ i l h) [
    | inl old ↦ v.formatted i l old
    | inr new ↦ rw new (new_logger-formatted name)
  ];
  rooted = λ i l r h q. elim (get_elem?-append_cases w.loggers _ i l h) [
    | inl old ↦ more r (v.rooted i l r old q)
    | inr new ↦ absurd (ground (arith, new, q))
  ];
  headed = more w.main v.headed;
}
  where
    same : Keeps w w
    same = Keeps-refl w

    more :
        (r : ℕ)
        → ((k : Logger) × IsLogger w r k × (k.root ≡ none))
        → (k : Logger) × IsLogger (own_logger w name) r k × (k.root ≡ none)
    more r (k, e, q) = (k, get_elem?-append w.loggers _ r k e, q)

Step-IsValid : {lt : Text → ℕ → Text} {w w' : World} → Step lt w w' → IsValid w → IsValid w'
unfolding appender_set_formatter
Step-IsValid {w} make_console v = Keeps-IsValid (make_appender-Keeps w new_console) v
Step-IsValid {w} (make_file name) v = Keeps-IsValid (make_appender-Keeps w (new_file name)) v
Step-IsValid {w} (add i j a e) v = add_appender-IsValid w i v j a e
Step-IsValid {w} (del i j) v = del_appender-IsValid w i v j
Step-IsValid {w} (clear i) v = clear_appenders-IsValid w i v
Step-IsValid {w} (level_of i level) v = set_level-IsValid w i v level
Step-IsValid {w} (formatter_of i f) v = set_formatter-IsValid w i f v
Step-IsValid {w} (pattern_of i val) v = set_pattern-IsValid w i val v
Step-IsValid {w} (appender_formatter j a f e) v =
    Keeps-IsValid
      (Keeps-put w _ j (appender_set_formatter a (some f)) f refl refl (refl, refl, refl)) v
Step-IsValid {w} (appender_level j a level e) v = Keeps-IsValid (levelled-Keeps w j a level e) v
Step-IsValid {w} (make_own name) v = own_logger-IsValid w name v
Step-IsValid {w} (get name) v = get_logger-IsValid w name v
Step-IsValid {lt} {w} {w'} (logged i l level event e q) v =
    let (u, r, k) = log_event_total lt w i l level event v e in
    subst IsValid (some-injective _ _ (sym r ∙ q)) (Keeps-IsValid k v)
Step-IsValid {w} (files d) v =
    Keeps-IsValid (record { loggers = refl; table = refl; main = refl; ready = λ j r. r }) v

Reach-IsValid : {lt : Text → ℕ → Text} {d : Disk} {w : World} → Reach lt d w → IsValid w
Reach-IsValid {d} start = new_manager-IsValid d
Reach-IsValid (next r s) = Step-IsValid s (Reach-IsValid r)

-- In every store that a program can reach from the manager's constructor, where loggers and
-- appenders are made, and appenders added, deleted and cleared, levels, patterns and formatters that
-- are not null set for loggers and appenders, loggers asked for and events logged: a call of `log` on a logger comes to an end, with no call
-- through a null pointer, and leaves the loggers and the manager's map as they were.
pub Reach-log_event :
    {lt : Text → ℕ → Text} {d : Disk} {w : World} (i : ℕ) (l : Logger) (level : Level)
    (event : Event)
    → Reach lt d w
    → IsLogger w i l
    → (w' : World) × (log_event lt w i level event ≡ some w')
      × (w'.loggers ≡ w.loggers)
      × (w'.table ≡ w.table)
Reach-log_event {lt} {w} i l level event r e =
    let (w', q, k) = log_event_total lt w i l level event (Reach-IsValid r) e in
    (w', q, k.loggers, k.table)
