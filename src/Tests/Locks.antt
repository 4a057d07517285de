-- ===== src/Tests/Locks.antt =====
-- Threads that share the log system, on a concrete schedule.
use final_designer.Level.{info}
use final_designer.Locks.Alone.OfPrograms.{run_calls}
use final_designer.Locks.Single.OfPrograms.{launch-program}
use final_designer.Locks.Code.{
  logger, manager, Mode, shared, exclusive, done, crash, is_exclusive, Thread, System, holds, turn,
  advance, Reach, start, next, IsGrant,
}
use final_designer.Locks.Program.{
  Call, log_to, log_to_root, add_file, pattern_of, describe_all, call, program, launch,
}
use final_designer.Locks.Loggers.{log_macro, clear_appenders}
use final_designer.Locks.Managers.{get_root, get_logger}
use final_designer.Locks.Progress.{is_done}
use final_designer.Locks.Safety.OfPrograms.{new_manager-Inv}
use final_designer.Locks.Store.{Inv}
use final_designer.Locks.Together.{started, Reach-progress, Reach-no_crash, Reach-kept, Reach-named}
use final_designer.Logging.Invariant.{IsLogger, IsValid}
use final_designer.Logging.Logger.{new_logger}
use final_designer.Logging.Manager.{find_logger, new_manager}
use final_designer.Logging.Managing.{IsNamed}
use final_designer.Logging.Sink.{Disk}
use final_designer.Logging.World.{Logger, World}
use final_designer.Prelude.{
  ℕ, ◌≡◌, ◌≢◌, ◌⊎◌, pos, refl, Bool, true, false, not, text_eq, List, [], ◌∷◌, Text, codes, Option,
  none, some, all, any, is_empty, get_elem?, map, arith,
}
use final_designer.Tests.Document.{documents}

-- A lock that readers share and a writer has alone.
unfoldable pub plain : List Mode → Mode → Bool
plain ms shared = not (any is_exclusive ms)
plain ms exclusive = is_empty ms

pub plain-IsGrant : IsGrant plain
unfolding plain
plain-IsGrant = record { free = free; alone = by_itself; beside = λ ms e. ground (arith, e) }
  where
    free : (m : Mode) → plain [] m ≡ true
    free shared = refl
    free exclusive = refl

    by_itself : (ms : List Mode) → plain ms exclusive ≡ true → ms ≡ []
    by_itself [] e = refl
    by_itself (m ∷ ms) e = cc

empty_disk : Disk
empty_disk = record { names = []; bodies = []; openable = λ n. true }

abbrev no_time : Text → ℕ → Text
no_time f t = []

abbrev hello : Call
hello = log_to_root info (codes "main.cpp") (pos 1) 7 0 0 (codes "hello")

abbrev bye : Call
bye = log_to (codes "system") info (codes "main.cpp") (pos 2) 8 0 0 (codes "bye")

-- Two threads, of which one logs by the main logger, and the other by one of its own.
abbrev two : System World
two = started no_time documents plain plain-IsGrant empty_disk ((hello ∷ []) ∷ (bye ∷ []) ∷ [])

record Run : Type 0 where
  last : System World
  open last use *
  reach : Reach plain two last

go : (r : Run) (i : ℕ) (o : Option (System World)) → turn plain r.last i ≡ o → Run
go r i none e = r
go r i (some s) e = record { last = s; reach = next i r.reach e }

play : Run → List ℕ → Run
unfolding go turn
play r [] = r
play r (i ∷ is) = play (go r i (turn plain r.last i) refl) is

-- Thread 0 has taken the lock of the main logger, and thread 1 that of the manager.
abbrev busy : Run
busy = play (record { last = two; reach = start }) (0 ∷ 0 ∷ 0 ∷ 0 ∷ 1 ∷ [])

-- Thread 1 is back from `getLogger`.
abbrev entered : Run
entered = play (record { last = two; reach = start }) (1 ∷ 1 ∷ 1 ∷ 1 ∷ 1 ∷ 0 ∷ [])

abbrev idle : Thread World
idle = record { code = crash; held = [] }

-- The thread at a place, and where its step leads.
abbrev thread_of : Run → ℕ → Thread World
thread_of r i = elim (get_elem? r.threads i) [ none ↦ idle | some t ↦ t ]

abbrev after : Run → ℕ → System World
after r i = elim (turn plain r.last i) [ none ↦ r.last | some s ↦ s ]

abbrev main_logger : Run → Logger
main_logger r = elim (get_elem? r.world.loggers 0) [ none ↦ new_logger [] | some l ↦ l ]

Reach-progress_example :
    (all is_done busy.threads ≡ true)
    ⊎ ((i : ℕ) × (t : System World) × (turn plain busy.last i ≡ some t))
Reach-progress_example =
    Reach-progress no_time documents plain plain-IsGrant empty_disk ((hello ∷ []) ∷ (bye ∷ []) ∷ [])
      busy.reach

-- Thread 0 holds the lock of the main logger, and thread 1 that of the manager.
busy_runs :
    (holds (thread_of busy 0).held (logger 0) ≡ true)
    × (holds (thread_of busy 1).held manager ≡ true)
unfolding play turn advance program call plain get_root log_macro new_manager get_logger holds
busy_runs = (refl, refl)

Reach-no_crash_example : IsValid busy.world × IsNamed busy.world × ((thread_of busy 0).code ≢ crash)
unfolding play turn advance program call plain get_root log_macro new_manager get_logger
Reach-no_crash_example =
    Reach-no_crash no_time documents plain plain-IsGrant empty_disk ((hello ∷ []) ∷ (bye ∷ []) ∷ [])
      0 (thread_of busy 0) busy.reach refl

Reach-kept_example :
    (l : Logger) × IsLogger (after busy 1).world 0 l
    × (l.appenders ≡ (main_logger busy).appenders)
    × (l.formatter ≡ (main_logger busy).formatter)
unfolding play turn advance program call plain get_root log_macro new_manager get_logger holds
Reach-kept_example =
    Reach-kept no_time documents plain plain-IsGrant empty_disk ((hello ∷ []) ∷ (bye ∷ []) ∷ []) 0 1
      0 (thread_of busy 0) (main_logger busy) busy.reach refl refl (omega arith) refl refl

Reach-named_example :
    (find_logger entered.world.table (codes "system") ≡ some 1)
    × ((l : Logger) × IsLogger entered.world 1 l × (l.name ≡ codes "system"))
unfolding play turn advance program call plain get_root log_macro new_manager get_logger find_logger
    text_eq
Reach-named_example =
    Reach-named no_time documents plain plain-IsGrant empty_disk ((hello ∷ []) ∷ (bye ∷ []) ∷ [])
      (codes "system") 1 entered.reach start refl

-- One thread that adds a file appender, sets a pattern, logs and prints all loggers.
abbrev chores : List Call
chores =
    add_file (codes "system") (codes "log.txt")
    ∷ pattern_of (codes "system") (codes "%m%n")
    ∷ bye
    ∷ describe_all
    ∷ []

launch-program_example :
    (s : System World) × Reach plain
      (launch (new_manager empty_disk) (program no_time documents chores ∷ []))
      s
    × (all is_done s.threads ≡ true)
    × (run_calls no_time documents chores (new_manager empty_disk) ≡ some s.world)
    × Inv 0 s.world
launch-program_example =
    launch-program no_time documents plain 0 chores (new_manager empty_disk) plain-IsGrant
      (new_manager-Inv empty_disk) Reach.start

-- `clearAppenders` takes no lock: it empties the list of the main logger while thread 0 holds the
-- lock of that logger.
abbrev clearing : System World
clearing =
    launch (new_manager empty_disk)
      (program no_time documents (hello ∷ []) ∷ clear_appenders 0 done ∷ [])

abbrev half : System World → List ℕ → System World
half s [] = s
half s (i ∷ is) = half (elim (turn plain s i) [ none ↦ s | some t ↦ t ]) is

abbrev halfway : System World
halfway = half clearing (0 ∷ 0 ∷ 0 ∷ 0 ∷ [])

clear_races :
    (map (λ t. holds t.held (logger 0)) halfway.threads ≡ true ∷ false ∷ [])
    × (map (λ l. l.appenders) halfway.world.loggers ≡ (0 ∷ []) ∷ [])
    × (map (λ l. l.appenders) (half halfway (1 ∷ [])).world.loggers ≡ [] ∷ [])
unfolding turn advance program call plain get_root log_macro new_manager holds clear_appenders
clear_races = (refl, refl, refl)
