-- ===== src/Logging/World.antt =====
-- The objects that the log system shares by pointer, and what they write to.
use final_designer.Formatter.Event.{Event}
use final_designer.Formatter.Item.{Env}
use final_designer.Formatter.Scan.{Formatter, format}
use final_designer.Level.{Level, debug}
use final_designer.Logging.Sink.{
  Disk, Stream, new_stream, exists, open_stream, close_stream, write_stream,
}
use final_designer.Prelude.{
  ℕ, Bool, true, false, not, List, [], ◌++◌, Text, codes, Option, none, some, get_elem?, set, leb,
  if◌then◌else◌,
}

-- The classes of appender, with the members of the subclass. `m_lasttime` is never used.
pub data Sort : Type 0 where
  console : Sort
  file : Text → Stream → Sort

pub record Appender : Type 0 where
  pub sort : Sort
  pub level : Level
  pub formatter : Option Formatter
  pub have_formatter : Bool

abbrev new_appender : Sort → Appender
new_appender s = record { sort = s; level = debug; formatter = none; have_formatter = false }

-- `new StdoutLogAppender`
abbrev pub new_console : Appender
new_console = new_appender console

-- `new FileLogAppender(filename)`
abbrev pub new_file : Text → Appender
new_file filename = new_appender (file filename new_stream)

-- `appenders` and `root` are addresses; `none` is a null pointer.
pub record Logger : Type 0 where
  pub name : Text
  pub level : Level
  pub appenders : List ℕ
  pub formatter : Option Formatter
  pub root : Option ℕ

-- `table` is the map of the `LoggerManager`, `main` its `m_root`.
pub record World : Type 0 where
  pub appenders : List Appender
  pub loggers : List Logger
  pub table : List (Text × ℕ)
  pub main : ℕ
  pub out : Text
  pub disk : Disk

abbrev pub print : World → Text → World
print w s = record w { out = w.out ++ s }

abbrev pub put_appender : World → ℕ → Appender → World
put_appender w i a = record w { appenders = set w.appenders i a }

abbrev pub put_logger : World → ℕ → Logger → World
put_logger w i l = record w { loggers = set w.loggers i l }

-- What formatting needs of the world; `local_time` is the C library's.
abbrev pub env : (Text → ℕ → Text) → World → Env
env local_time w = record {
  local_time = local_time;
  name_of = λ i. elim (get_elem? w.loggers i) [ none ↦ [] | some l ↦ l.name ];
}

-- `LogAppender::setFormatter`
unfoldable pub appender_set_formatter : Appender → Option Formatter → Appender
appender_set_formatter a none = record a { formatter = none; have_formatter = false }
appender_set_formatter a (some f) = record a { formatter = some f; have_formatter = true }

-- `FileLogAppender::reopen`
unfoldable pub reopen : Disk → Text → Stream → Disk × Stream × Bool
reopen d name s =
    let closed = if s.failed then s else close_stream s in
    let (d', s') = open_stream d closed name in (d', s', not s'.failed)

-- The part of `FileLogAppender::log` in front of the write.
unfoldable pub prepare : Disk → Text → Stream → Disk × Stream
prepare d name s =
    let (d1, s1) = if s.failed then open_stream d s name else (d, s) in
    if exists d1 name then (d1, s1) else (let (d2, s2, ok_) = reopen d1 name s1 in (d2, s2))

-- What `FileLogAppender::log` does with the formatted text.
unfoldable pub emit_file : World → ℕ → Appender → Text → Stream → Text → World
emit_file w i a name s text =
    let (d1, s1) = prepare w.disk name s in
    let (d2, s2) = write_stream d1 s1 text in
    let w' : World = put_appender (record w { disk = d2 }) i (record a { sort = file name s2 }) in
    if s2.failed then print w' (codes "error\n") else w'

-- `log` of the two classes of appender, at the address `i`; `none` stands for a call through a null
-- pointer.
module _ (local_time : Text → ℕ → Text) where
  unfoldable pub log_console : World → ℕ → Appender → Level → Event → Option World
  log_console w i a level event = elim a.formatter [
    | none ↦ none
    | some f ↦ some (print w (format (env local_time w) f level event))
  ]

  unfoldable pub log_file : World → ℕ → Appender → Text → Stream → Level → Event → Option World
  log_file w i a name s level event = elim a.formatter [
    | none ↦ none
    | some f ↦ some (emit_file w i a name s (format (env local_time w) f level event))
  ]

  unfoldable pub log_sort : Sort → World → ℕ → Appender → Level → Event → Option World
  unfolding log_console log_file
  log_sort console w i a level event = log_console w i a level event
  log_sort (file name s) w i a level event = log_file w i a name s level event

  unfoldable pub appender_log : World → ℕ → Level → Event → Option World
  unfolding log_sort
  appender_log w i level event = elim (get_elem? w.appenders i) [
    | none ↦ none
    | some a ↦ if leb a.level level then log_sort a.sort w i a level event else some w
  ]
