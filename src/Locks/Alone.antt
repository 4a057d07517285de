-- ===== src/Locks/Alone.antt =====
-- A thread that has the log system to itself does what the other modules say of the operations.
pub mod OfAppenders
pub mod OfLogging
pub mod OfLoggers
pub mod OfManagers
pub mod OfPrograms
use final_designer.Locks.Access.{
  follow, read_logger, read_appender, write_logger, write_appender, attempt, kept,
}
use final_designer.Locks.Code.{Code, done, crash, act, take, release, Hold, alone}
use final_designer.Locks.Safe.{Rules, IsSafe, Rely-refl}
use final_designer.Logging.Logger.{on_logger, on_appender}
use final_designer.Logging.World.{Appender, Logger, World, put_appender, put_logger}
use final_designer.Prelude.{ℕ, ◌≡◌, List, refl, ap, Option, none, some, get_elem?}

abbrev pub and_then : Option World → (World → Option World) → Option World
and_then none k = none
and_then (some w) k = k w

pub alone-read_logger :
    (w : World) (i : ℕ) (l : Logger) (f : Logger → Code World)
    → get_elem? w.loggers i ≡ some l
    → alone (read_logger i f) w ≡ alone (f l) w
unfolding alone
alone-read_logger w i l f e = ap (λ (o : Option Logger). alone (follow o f) w) e

pub alone-read_appender :
    (w : World) (j : ℕ) (a : Appender) (f : Appender → Code World)
    → get_elem? w.appenders j ≡ some a
    → alone (read_appender j f) w ≡ alone (f a) w
unfolding alone
alone-read_appender w j a f e = ap (λ (o : Option Appender). alone (follow o f) w) e

pub alone-write_logger :
    (w : World) (i : ℕ) (l : Logger) (g : Logger → Logger) (k : Code World)
    → get_elem? w.loggers i ≡ some l
    → alone (write_logger i g k) w ≡ alone k (put_logger w i (g l))
unfolding alone
alone-write_logger w i l g k e =
    ap
      (λ (o : Option Logger).
        alone (follow o λ x. k) (elim o [ none ↦ w | some x ↦ put_logger w i (g x) ]))
      e

pub alone-write_appender :
    (w : World) (j : ℕ) (a : Appender) (g : Appender → Appender) (k : Code World)
    → get_elem? w.appenders j ≡ some a
    → alone (write_appender j g k) w ≡ alone k (put_appender w j (g a))
unfolding alone
alone-write_appender w j a g k e =
    ap
      (λ (o : Option Appender).
        alone (follow o λ x. k) (elim o [ none ↦ w | some x ↦ put_appender w j (g x) ]))
      e

pub alone-attempt :
    (w : World) (g : World → Option World) (k : Code World)
    → alone (attempt g k) w ≡ and_then (g w) (alone k)
unfolding alone
alone-attempt w g k = attempted (g w)
  where
    attempted : (o : Option World) → alone (follow o (λ w'. k)) (kept w o) ≡ and_then o (alone k)
    attempted none = refl
    attempted (some w') = refl

-- Safe code, run alone, comes to an end without following a null pointer, and keeps the invariant.
pub alone-IsSafe :
    {W : Type 0} (rules : Rules W) (c : Code W) (held : List Hold) (w : W)
    → IsSafe rules w held c
    → rules.Inv w
    → (w' : W) × (alone c w ≡ some w') × rules.Inv w'
unfolding alone IsSafe
alone-IsSafe rules done held w s v = (w, refl, v)
alone-IsSafe rules crash held w s v = absurd s
alone-IsSafe rules (act g k) held w s v =
    let (inv, p, rest) = s w (Rely-refl rules held w) v in
    alone-IsSafe rules (k w) held (g w) rest inv
alone-IsSafe rules (take l m k) held w s v =
    alone-IsSafe rules k _ w (s.1 w (Rely-refl rules held w) v) v
alone-IsSafe rules (release l k) held w (m, hs, e, s) v = alone-IsSafe rules k hs w s v
