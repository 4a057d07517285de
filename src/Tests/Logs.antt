-- ===== src/Tests/Logs.antt =====
-- Loggers, appenders and their manager: nnysl/log.cpp.
use final_designer.Formatter.Event.{Event}
use final_designer.Formatter.Item.{format_item, find_item, new_date_time}
use final_designer.Formatter.Scan.{new_formatter, format, outer_step}
use final_designer.Level.{debug, info, to_string}
use final_designer.Logging.Files.{after, failed_stream, emit_file_first}
use final_designer.Logging.Invariant.{IsLogger}
use final_designer.Logging.Log.{log_all, log_event}
use final_designer.Logging.Logger.{new_logger, default_pattern}
use final_designer.Logging.Manager.{find_logger, get_logger, new_manager}
use final_designer.Logging.Managing.{IsNamed, get_logger_lem}
use final_designer.Logging.Output.{lines, AreConsoles, none_left, console_at, log_event-consoles}
use final_designer.Logging.Reach.{Step, Reach, Reach-log_event}
use final_designer.Logging.Sink.{Disk, file_at, new_stream}
use final_designer.Logging.World.{
  Logger, World, new_console, new_file, print, emit_file, appender_log, log_sort, log_console,
}
use final_designer.Prelude.{
  ℕ, ◌≡◌, refl, arith, pos, [], ◌∷◌, ◌++◌, Text, codes, some, true, decimal, decimal_signed,
  text_eq, isalpha, substr, Bool-cases, inl, inr, text_eq_iff, if◌then◌else◌,
}

abbrev local_time : Text → ℕ → Text
local_time format time = codes "2023-04-26 09:13:35"

abbrev disk : Disk
disk = record {
  names = (codes "system_log.txt", 0) ∷ [];
  bodies = codes "old\n" ∷ [];
  openable = λ name. true;
}

abbrev start : World
start = new_manager disk

-- The manager with the loggers `root` and `system`.
abbrev two_loggers : World
two_loggers = (get_logger start (codes "system")).0

abbrev event : Event
event = record {
  file = codes "main.cpp";
  line = pos 7;
  elapse = 0;
  thread_id = 12;
  fiber_id = 0;
  time = 1682500415;
  content = codes "hello";
  logger = 1;
  level = info;
}

-- `system` has no appender: the main logger prints, under the name `system`.
log_event_runs :
    log_event local_time two_loggers 1 info event
    ≡ some (
        print two_loggers
          (codes "2023-04-26 09:13:35\t12\t0\t[INFO]\t[system]\tmain.cpp:7\thello\n"))
unfolding log_event log_all appender_log log_sort log_console get_logger new_manager new_formatter
    outer_step find_item new_date_time text_eq isalpha substr format format_item decimal
    decimal_signed to_string
log_event_runs = refl

-- The loggers of `two_loggers`.
abbrev system : Logger
system = record (new_logger (codes "system")) { root = some 0 }

two_loggers-system : IsLogger two_loggers 1 system
unfolding get_logger new_manager text_eq
two_loggers-system = refl

two_loggers-Reach : Reach local_time disk two_loggers
two_loggers-Reach = Reach.next Reach.start (Step.get (codes "system"))

Reach-log_event_example :
    (w' : World) × (log_event local_time two_loggers 1 info event ≡ some w')
    × (w'.loggers ≡ two_loggers.loggers)
    × (w'.table ≡ two_loggers.table)
Reach-log_event_example = Reach-log_event 1 system info event two_loggers-Reach two_loggers-system

start-AreConsoles : AreConsoles start (0 ∷ []) ((debug, new_formatter default_pattern) ∷ [])
unfolding new_manager
start-AreConsoles =
    console_at 0 (record new_console { formatter = some (new_formatter default_pattern) }) _
      (refl, refl, refl) none_left

log_event-consoles_example :
    log_event local_time start 0 info event
    ≡ some (
        print start
          (lines local_time start ((debug, new_formatter default_pattern) ∷ []) info event))
unfolding new_manager
log_event-consoles_example =
    log_event-consoles local_time start 0
      (record (new_logger (codes "root")) { appenders = 0 ∷ [] }) info event refl refl refl
      (omega arith) start-AreConsoles

abbrev log_name : Text
log_name = codes "system_log.txt"

emit_file_first_example :
    emit_file start 0 (new_file log_name) log_name new_stream (codes "hello")
    ≡ after start 0
        (new_file log_name)
        log_name
        start.disk
        failed_stream
        (start.out ++ codes "error\n")
unfolding new_manager file_at text_eq
emit_file_first_example =
    emit_file_first start 0 (new_file log_name) log_name (codes "hello") refl 0 refl

get_logger_lem_example :
    (find_logger (get_logger start (codes "system")).0.table (codes "root") ≡ (
      if text_eq (codes "system") (codes "root")
      then some (get_logger start (codes "system")).1
      else find_logger start.table (codes "root")))
    × (get_logger (get_logger start (codes "system")).0 (codes "system")
        ≡ get_logger start (codes "system"))
get_logger_lem_example = get_logger_lem start (codes "system") (codes "root")

start-IsNamed : IsNamed start
unfolding new_manager find_logger
start-IsNamed n i e = elim (Bool-cases (text_eq (codes "root") n)) [
  | inl same ↦
      let at_zero : 0 ≡ i = ground (arith, same, e) in
      (
        record (new_logger (codes "root")) { appenders = 0 ∷ [] },
        rw (← at_zero) refl,
        (text_eq_iff (codes "root") n).0 same,
      )
  | inr other ↦ absurd (ground (arith, other, e))
]
