-- ===== src/Locks/Store/Writes.antt =====
-- The writes of the store that a thread may make, with the locks they need.
use final_designer.Locks.Code.{Lock, registry, variable, manager, logger, appender, Hold}
use final_designer.Locks.Safe.{Promise}
use final_designer.Locks.Store.{Inv, AreLoggers, IsAppender, Later, Guard, store_rules}
use final_designer.Logging.Invariant.{Keeps, Keeps-IsValid}
use final_designer.Logging.Manager.{find_logger}
use final_designer.Logging.World.{Appender, Logger, World}
use final_designer.Prelude.{
  ℕ, ◌≡◌, ◌≢◌, refl, sym, ap, ◌∙◌, List, [], ◌∷◌, Text, Option, some, get_elem?, set, arith, subst,
  inl, inr, get_elem?-set_hit, get_elem?-set_ne, some-injective, Bool-cases, ◌==◌, ==_iff,
}

-- A write that keeps the invariant and what the locks of others protect.
pub record Allowed (top : ℕ) (held : List Hold) (w w' : World) : Type 0 where
  pub inv : Inv top w'
  pub promise : Promise (store_rules top) held w w'

-- What changes at most in appenders, and there not in a formatter.
pub record Same (w w' : World) : Type 0 where
  pub loggers : w'.loggers ≡ w.loggers
  pub table : w'.table ≡ w.table
  pub main : w'.main ≡ w.main
  pub appenders :
      (j : ℕ) (a : Appender)
      → IsAppender w j a
      → (a' : Appender) × IsAppender w' j a'
        × (a'.formatter ≡ a.formatter)
        × (a'.have_formatter ≡ a.have_formatter)

abbrev pub at : ℕ → List Logger → Option Logger
at i ls = get_elem? ls i

module _ (top : ℕ) (held : List Hold) (w w' : World) (v : Inv top w) where
  -- The same loggers and map, with appenders that stay ready.
  pub Keeps-Inv : Keeps w w' → Inv top w'
  Keeps-Inv k = record {
    valid = Keeps-IsValid k v.valid;
    named = λ n i e.
        let (l, q, p) =
          v.named n i (subst (λ (t : List (Text × ℕ)). find_logger t n ≡ some i) k.table e) in
        (l, ap (at i) k.loggers ∙ q, p);
    entries = subst (AreLoggers w') (sym k.table) (moved w.table v.entries);
    main = k.main ∙ v.main;
    under_main = λ i l r e q. v.under_main i l r (ap (at i) (sym k.loggers) ∙ e) q;
  }
    where
      moved : (ts : List (Text × ℕ)) → AreLoggers w ts → AreLoggers w' ts
      moved [] r = tt
      moved ((n, i) ∷ ts) ((l, e), rs) = ((l, ap (at i) k.loggers ∙ e), moved ts rs)

  pub Keeps-Later :
      Keeps w w'
      → ((j : ℕ) (a : Appender) → IsAppender w j a → (a' : Appender) × IsAppender w' j a')
      → Later w w'
  Keeps-Later k h = record {
    loggers = λ i l e. (l, ap (at i) k.loggers ∙ e, refl, refl);
    appenders = h;
    ready = k.ready;
    table = λ n i e. subst (λ (t : List (Text × ℕ)). find_logger t n ≡ some i) (sym k.table) e;
  }

  -- No lock is needed.
  pub Same-Allowed : Same w w' → Allowed top held w w'
  unfolding Guard
  Same-Allowed s = record {
    inv = Keeps-Inv keeps;
    promise = record {
      later = Keeps-Later keeps (λ j a e. let (b, f, p, q) = s.appenders j a e in (b, f));
      guard = λ l o. same l;
    };
  }
    where
      keeps : Keeps w w'
      keeps = record {
        loggers = s.loggers;
        table = s.table;
        main = s.main;
        ready = λ j (a, f, e, q). let (b, g, p, r) = s.appenders j a e in (b, f, g, p ∙ q);
      }

      same : (l : Lock) → Guard l w w'
      same registry = tt
      same (variable i) = tt
      same manager = s.table
      same (logger i) = λ l e. (l, ap (at i) s.loggers ∙ e, refl, refl)
      same (appender j) = s.appenders j

pub Same-refl : (w : World) → Same w w
Same-refl w = record {
  loggers = refl;
  table = refl;
  main = refl;
  appenders = λ j a e. (a, e, refl, refl);
}

-- A write of an appender that leaves its formatter.
pub Same-put :
    (w w' : World) (j : ℕ) (a a' : Appender)
    → IsAppender w j a
    → w'.appenders ≡ set w.appenders j a'
    → (w'.loggers ≡ w.loggers) × (w'.table ≡ w.table) × (w'.main ≡ w.main)
    → (a'.formatter ≡ a.formatter) × (a'.have_formatter ≡ a.have_formatter)
    → Same w w'
Same-put w w' j a a' e q (ls, t, m) (f, h) = record {
  loggers = ls;
  table = t;
  main = m;
  appenders = λ k b g. elim (Bool-cases (j == k)) [
    | inl same ↦
        let p : j ≡ k = (==_iff j k).0 same in
        let r : b ≡ a = some-injective _ _ (sym g ∙ ap (get_elem? w.appenders) (sym p) ∙ e) in
        (
          a',
          ap (λ (xs : List Appender). get_elem? xs k) q
              ∙ subst (λ (x : ℕ). get_elem? (set w.appenders j a') x ≡ some a') p
                  (get_elem?-set_hit w.appenders j a' a e),
          f ∙ ap (λ (x : Appender). x.formatter) (sym r),
          h ∙ ap (λ (x : Appender). x.have_formatter) (sym r),
        )
    | inr other ↦
        let ne : j ≢ k = λ p. ground (arith, (==_iff j k).1 p, other) in
        (
          b,
          ap (λ (xs : List Appender). get_elem? xs k) q ∙ get_elem?-set_ne w.appenders a' ne ∙ g,
          refl,
          refl,
        )
  ];
}
