-- ===== src/Locks/Access.antt =====
-- Accesses of the objects of the log system, one at a time.
use final_designer.Locks.Code.{Code, crash, act}
use final_designer.Logging.Logger.{on_logger, on_appender}
use final_designer.Logging.World.{Appender, Logger, World, put_appender, put_logger}
use final_designer.Prelude.{ℕ, Option, none, some, get_elem?}

-- A pointer that is followed: null or dangling, the program is lost.
abbrev pub follow : {A : Type 0} → Option A → (A → Code World) → Code World
follow none k = crash
follow (some a) k = k a

-- Reading, at one moment.
abbrev pub read : (World → Code World) → Code World
read k = act (λ w. w) k

abbrev pub read_logger : ℕ → (Logger → Code World) → Code World
read_logger i k = read λ w. follow (get_elem? w.loggers i) k

abbrev pub read_appender : ℕ → (Appender → Code World) → Code World
read_appender j k = read λ w. follow (get_elem? w.appenders j) k

-- Writing a member.
abbrev pub write_logger : ℕ → (Logger → Logger) → Code World → Code World
write_logger i g k =
    act (λ w. on_logger w i λ l. put_logger w i (g l)) (λ w. follow (get_elem? w.loggers i) λ l. k)

abbrev pub write_appender : ℕ → (Appender → Appender) → Code World → Code World
write_appender j g k =
    act (λ w. on_appender w j λ a. put_appender w j (g a))
      (λ w. follow (get_elem? w.appenders j) λ a. k)

-- A call that may go through a null pointer.
abbrev pub kept : World → Option World → World
kept w none = w
kept w (some w') = w'

abbrev pub attempt : (World → Option World) → Code World → Code World
attempt g k = act (λ w. kept w (g w)) (λ w. follow (g w) λ w'. k)
