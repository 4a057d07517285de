-- ===== src/Locks/Loggers.antt =====
-- The operations of `Logger`, with the locks that they take, and the macros that reach `log`.
use final_designer.Config.Var.{Outcome, returns, throws}
use final_designer.Define.Describe.{logger_node}
use final_designer.Formatter.Event.{Event, new_event, stream}
use final_designer.Formatter.Scan.{Formatter, new_formatter, init_output}
use final_designer.Level.{Level}
use final_designer.Locks.Access.{read_logger, read_appender, write_logger, write_appender}
use final_designer.Locks.Appenders.{to_yaml_string, get_formatter, log}
use final_designer.Locks.Code.{Code, crash, act, take, release, scoped, logger, appender, exclusive}
use final_designer.Logging.Logger.{erase_first}
use final_designer.Logging.World.{World, print}
use final_designer.Prelude.{
  ℕ, ℤ, zero, suc, List, [], ◌∷◌, ◌++◌, Text, codes, Option, none, some, is_empty, leb,
  if◌then◌else◌,
}
use final_designer.Yaml.{Api}

-- `Logger::addAppender`
abbrev pub push_appender : ℕ → ℕ → Code World → Code World
push_appender i j = write_logger i λ l. record l { appenders = l.appenders ++ j ∷ [] }

-- The appender takes over the formatter of the logger.
abbrev pub inherit_formatter : ℕ → ℕ → Code World → Code World
inherit_formatter i j k =
    read_logger i λ l. write_appender j (λ a. record a { formatter = l.formatter }) k

abbrev pub adding : ℕ → ℕ → Code World → Code World
adding i j k = get_formatter j λ f. elim f [
  | none ↦ scoped (appender j) exclusive (inherit_formatter i j) (push_appender i j k)
  | some g ↦ push_appender i j k
]

unfoldable pub add_appender : ℕ → ℕ → Code World → Code World
unfolding get_formatter
add_appender i j = scoped (logger i) exclusive (adding i j)

-- `Logger::delAppender`
abbrev pub erasing : ℕ → ℕ → Code World → Code World
erasing i j = write_logger i λ l. record l { appenders = erase_first j l.appenders }

unfoldable pub del_appender : ℕ → ℕ → Code World → Code World
unfolding erase_first
del_appender i j = scoped (logger i) exclusive (erasing i j)

-- `Logger::clearAppenders` takes no lock.
unfoldable pub clear_appenders : ℕ → Code World → Code World
clear_appenders i = write_logger i λ l. record l { appenders = [] }

-- `Logger::setLevel` takes none either.
unfoldable pub set_level : ℕ → Level → Code World → Code World
set_level i level = write_logger i λ l. record l { level = level }

-- The loop of `Logger::setFormatter(LogFormatter::ptr)`.
unfoldable pub refresh : ℕ → List ℕ → Code World → Code World
refresh i [] k = k
refresh i (j ∷ js) k =
    scoped (appender j) exclusive
      (λ k'. read_appender j λ a. if a.have_formatter then k' else inherit_formatter i j k')
      (refresh i js k)

-- `Logger::setFormatter(LogFormatter::ptr)`
abbrev pub setting : ℕ → Option Formatter → Code World → Code World
setting i f k =
    write_logger i (λ l. record l { formatter = f }) (read_logger i λ l. refresh i l.appenders k)

unfoldable pub set_formatter : ℕ → Option Formatter → Code World → Code World
unfolding refresh
set_formatter i f = scoped (logger i) exclusive (setting i f)

-- A formatter is taken over, or an error is printed.
abbrev pub use_pattern : ℕ → Text → Formatter → Code World → Code World
use_pattern i val f k =
    if f.is_error
    then read_logger i (λ l.
      act
        (λ w. print w (
          codes "Logger setFormatter name="
          ++ (l.name ++ (codes "value=" ++ (val ++ codes " invalid formatter")))))
        (λ w. k))
    else set_formatter i (some f) k

-- `Logger::setFormatter(const std::string&)`; the formatter's constructor prints by itself.
unfoldable pub set_pattern : ℕ → Text → Code World → Code World
unfolding set_formatter
set_pattern i val k =
    act (λ w. print w (init_output val)) λ w. use_pattern i val (new_formatter val) k

-- `Logger::getFormatter`
unfoldable pub get_logger_formatter : ℕ → (Option Formatter → Code World) → Code World
get_logger_formatter i k =
    take (logger i) exclusive (read_logger i λ l. release (logger i) (k l.formatter))

-- `Logger::log`. A logger's list is read once: while the lock is held, it stays as it is. The
-- fuel bounds the chain of roots.
module _ (local_time : Text → ℕ → Text) where
  unfoldable pub log_all : List ℕ → Level → Event → Code World → Code World
  log_all [] level event k = k
  log_all (j ∷ js) level event k = log local_time j level event (log_all js level event k)

  unfoldable pub log_chain : ℕ → ℕ → Level → Event → Code World → Code World
  unfolding log_all
  log_chain zero i level event k = crash
  log_chain (suc fuel) i level event k = read_logger i λ l.
      if leb l.level level
      then scoped (logger i) exclusive
          (λ k'. read_logger i λ m.
            let up : Code World = elim m.root [
              | none ↦ k'
              | some r ↦ log_chain fuel r level event k'
            ] in
            if is_empty m.appenders then up else log_all m.appenders level event k')
          k
      else k

  -- `NNYSL_LOG_LEVEL(logger, level) << text`
  unfoldable pub log_macro : ℕ → Level → Text → ℤ → ℕ → ℕ → ℕ → Text → Code World → Code World
  unfolding log_chain new_event
  log_macro i level file line thread fiber now text k =
      let event : Event = stream (new_event i level file line 0 thread fiber now) text in
      read_logger i
        λ l. if leb l.level level then log_chain 2 event.logger event.level event k else k

-- `Logger::toYamlString`; an exception leaves through the destructor of the scoped lock.
module _ (api : Api) where
  open api use {Node, load, dump, push_at}

  unfoldable pub push_described : List ℕ → Node → (Outcome Node → Code World) → Code World
  unfolding to_yaml_string
  push_described [] node k = k (returns node)
  push_described (j ∷ js) node k = to_yaml_string api j λ text. elim (load text) [
    | throws e ↦ k (throws e)
    | returns n ↦ push_described js (push_at node (codes "appenders") n) k
  ]

  abbrev pub dumped : Outcome Node → Outcome Text
  dumped (throws e) = throws e
  dumped (returns n) = returns (dump n)

  unfoldable pub logger_to_yaml_string : ℕ → (Outcome Text → Code World) → Code World
  unfolding push_described logger_node
  logger_to_yaml_string i k = take (logger i) exclusive (
      read_logger i λ l.
        push_described l.appenders (logger_node api l) λ out. release (logger i) (k (dumped out)))
