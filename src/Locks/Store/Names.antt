-- ===== src/Locks/Store/Names.antt =====
-- The two writes of `LoggerManager::getLogger`: a new logger, and its entry in the manager's map.
use final_designer.Locks.Code.{Lock, registry, variable, manager, logger, appender, Hold, owns}
use final_designer.Locks.Store.{Inv, AreLoggers, AreLoggers-Later, Later, Guard}
use final_designer.Locks.Store.Writes.{Allowed}
use final_designer.Logging.Invariant.{AreReady, IsLogger, IsValid}
use final_designer.Logging.Logger.{new_logger}
use final_designer.Logging.Managing.{get_logger-IsValid}
use final_designer.Logging.Manager.{find_logger, get_logger}
use final_designer.Logging.World.{Logger, World}
use final_designer.Prelude.{
  ℕ, ◌≡◌, refl, sym, ap, ◌∙◌, true, false, List, [], ◌∷◌, ◌++◌, Text, none, some, get_elem?, arith,
  subst, inl, inr, get_elem?-append, get_elem?-append_cases, Bool-cases, text_eq, text_eq_iff,
}

AreReady-table :
    (t : List (Text × ℕ)) (w : World) (js : List ℕ)
    → AreReady w js
    → AreReady (record w { table = t }) js
AreReady-table t w [] r = tt
AreReady-table t w (j ∷ js) (r, rs) = (r, AreReady-table t w js rs)

-- The manager's map is of no account for a valid store.
IsValid-table : (t : List (Text × ℕ)) (w : World) → IsValid w → IsValid (record w { table = t })
IsValid-table t w v = record {
  ready = λ i l e. AreReady-table t w l.appenders (v.ready i l e);
  formatted = v.formatted;
  rooted = v.rooted;
  headed = v.headed;
}

-- `new Logger(name)`, with the main logger for its root.
abbrev pub made : World → Text → Logger
made w name = record (new_logger name) { root = some w.main }

abbrev pub make_logger : World → Text → World
make_logger w name = record w { loggers = w.loggers ++ made w name ∷ [] }

-- `m_loggers[name] = logger`, for a name that is not there.
abbrev pub enter : World → Text → ℕ → World
enter w name a = record w { table = (name, a) ∷ w.table }

module _ (top : ℕ) (held : List Hold) (w : World) (v : Inv top w) (name : Text) where
  make-valid : IsValid (make_logger w name)
  unfolding get_logger find_logger
  make-valid =
      IsValid-table w.table _
        (get_logger-IsValid (record w { table = [] }) name (IsValid-table [] w v.valid))

  -- No lock is needed for what no other thread can reach.
  pub make_logger-Allowed : Allowed top held w (make_logger w name)
  unfolding Guard new_logger
  make_logger-Allowed = record {
    inv = record {
      valid = make-valid;
      named = λ n i e. let (l, q, p) = v.named n i e in (l, there i l q, p);
      entries = entries w.table v.entries;
      main = v.main;
      under_main = λ i l r e q. elim (get_elem?-append_cases w.loggers (made w name) i l e) [
        | inl old ↦ v.under_main i l r old q
        | inr new ↦ ground (arith, v.main, new, q)
      ];
    };
    promise = record {
      later = record {
        loggers = λ i l e. (l, there i l e, refl, refl);
        appenders = λ j a e. (a, e);
        ready = λ j r. r;
        table = λ n i e. e;
      };
      guard = λ l o. guard l;
    };
  }
    where
      there : (i : ℕ) (l : Logger) → IsLogger w i l → IsLogger (make_logger w name) i l
      there i l e = get_elem?-append w.loggers (made w name ∷ []) i l e

      entries : (ts : List (Text × ℕ)) → AreLoggers w ts → AreLoggers (make_logger w name) ts
      entries [] r = tt
      entries ((n, i) ∷ ts) ((l, e), rs) = ((l, there i l e), entries ts rs)

      guard : (l : Lock) → Guard l w (make_logger w name)
      guard registry = tt
      guard (variable i) = tt
      guard manager = refl
      guard (logger i) = λ l e. (l, there i l e, refl, refl)
      guard (appender j) = λ a e. (a, e, refl, refl)

  -- The manager's lock is needed for the map.
  pub enter-Allowed :
      (a : ℕ) (l : Logger)
      → owns held manager ≡ true
      → find_logger w.table name ≡ none
      → IsLogger w a l
      → l.name ≡ name
      → Allowed top held w (enter w name a)
  unfolding Guard find_logger
  enter-Allowed a l own free e q = record {
    inv = record {
      valid = IsValid-table _ w v.valid;
      named = λ n i h. elim (Bool-cases (text_eq name n)) [
        | inl same ↦
            let p : a ≡ i = ground (arith, same, h) in
            (l, ap (get_elem? w.loggers) (sym p) ∙ e, q ∙ (text_eq_iff name n).0 same)
        | inr other ↦ v.named n i (ground (arith, other, h))
      ];
      entries = ((l, e), AreLoggers-Later w _ w.table later v.entries);
      main = v.main;
      under_main = v.under_main;
    };
    promise = record { later = later; guard = guard };
  }
    where
      guard : (x : Lock) → owns held x ≡ false → Guard x w (enter w name a)
      guard registry o = tt
      guard (variable i) o = tt
      guard manager o = absurd (ground (arith, own, o))
      guard (logger i) o = λ m f. (m, f, refl, refl)
      guard (appender j) o = λ x f. (x, f, refl, refl)

      later : Later w (enter w name a)
      later = record {
        loggers = λ i m f. (m, f, refl, refl);
        appenders = λ j x f. (x, f);
        ready = λ j r. r;
        table = λ n i h. elim (Bool-cases (text_eq name n)) [
          | inl same ↦ absurd (
              ground (
                arith,
                h,
                free,
                subst (λ (x : Text). find_logger w.table x ≡ none) ((text_eq_iff name n).0 same)
                    free,
              ))
          | inr other ↦ ground (arith, other, h)
        ];
      }
