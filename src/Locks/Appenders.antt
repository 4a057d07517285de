-- ===== src/Locks/Appenders.antt =====
-- The operations of `LogAppender` and its classes, with the locks that they take.
use final_designer.Formatter.Event.{Event}
use final_designer.Formatter.Scan.{Formatter, format}
use final_designer.Define.Describe.{appender_to_yaml_string}
use final_designer.Level.{Level}
use final_designer.Locks.Access.{read_appender, write_appender, attempt}
use final_designer.Locks.Code.{Code, act, take, release, scoped, appender, exclusive}
use final_designer.Logging.Logger.{on_appender}
use final_designer.Logging.Sink.{exists, open_stream, write_stream}
use final_designer.Logging.World.{
  Appender, Sort, console, file, World, appender_set_formatter, env, log_console, print,
  put_appender, reopen,
}
use final_designer.Prelude.{
  ℕ, Bool, false, ◌++◌, ◌∷◌, [], Text, codes, Option, none, some, length, get_elem?, leb,
  if◌then◌else◌,
}
use final_designer.Yaml.{Api}

-- `new` of a class of appender, which no other thread knows of yet.
unfoldable pub make_appender : Appender → (ℕ → Code World) → Code World
make_appender a k =
    act (λ w. record w { appenders = w.appenders ++ a ∷ [] }) (λ w. k (length w.appenders))

-- `LogAppender::setFormatter`
unfoldable pub set_formatter : ℕ → Option Formatter → Code World → Code World
unfolding appender_set_formatter
set_formatter j f = scoped (appender j) exclusive (write_appender j λ a. appender_set_formatter a f)

-- `LogAppender::setLevel` takes no lock.
unfoldable pub set_level : ℕ → Level → Code World → Code World
set_level j level = write_appender j λ a. record a { level = level }

-- `LogAppender::getFormatter`: the result is copied before the lock is released.
unfoldable pub get_formatter : ℕ → (Option Formatter → Code World) → Code World
get_formatter j k =
    take (appender j) exclusive (read_appender j λ a. release (appender j) (k a.formatter))

-- `if (!m_filestream) m_filestream.open(m_filename, std::ios::app)`, for a file appender.
abbrev pub opened : World → ℕ → Appender → Sort → World
opened w j a console = w
opened w j a (file name s) =
    let (d, s') = if s.failed then open_stream w.disk s name else (w.disk, s) in
    put_appender (record w { disk = d }) j (record a { sort = file name s' })

-- `if (!exists(m_filename)) reopen()`
abbrev pub reopened : World → ℕ → Appender → Sort → World
reopened w j a console = w
reopened w j a (file name s) =
    let (d, s', ok_) = if exists w.disk name then (w.disk, s, false) else reopen w.disk name s in
    put_appender (record w { disk = d }) j (record a { sort = file name s' })

-- `m_filestream << text`
abbrev pub written : World → ℕ → Appender → Sort → Text → World
written w j a console text = w
written w j a (file name s) text =
    let (d, s') = write_stream w.disk s text in
    put_appender (record w { disk = d }) j (record a { sort = file name s' })

-- `!m_filestream`
abbrev pub stream_failed : Sort → Bool
stream_failed console = false
stream_failed (file name s) = s.failed

module _ (local_time : Text → ℕ → Text) where
  abbrev pub console_written : ℕ → Level → Event → World → Option World
  console_written j level event w = elim (get_elem? w.appenders j) [
    | none ↦ none
    | some a ↦ log_console local_time w j a level event
  ]

  -- `StdoutLogAppender::log` behind the test of the level.
  unfoldable pub log_to_console : ℕ → Level → Event → Code World → Code World
  log_to_console j level event =
      scoped (appender j) exclusive (attempt (console_written j level event))

  -- The formatted text, written to the stream.
  abbrev pub write_formatted : World → ℕ → Appender → Level → Event → Option World
  write_formatted w j a level event = elim a.formatter [
    | none ↦ none
    | some f ↦ some (written w j a a.sort (format (env local_time w) f level event))
  ]

  abbrev pub file_written : ℕ → Level → Event → World → Option World
  file_written j level event w = elim (get_elem? w.appenders j) [
    | none ↦ none
    | some a ↦ write_formatted w j a level event
  ]

  -- `FileLogAppender::log` behind the test of the level: the stream is opened before the lock is
  -- taken.
  unfoldable pub log_to_file : ℕ → Level → Event → Code World → Code World
  log_to_file j level event k =
      act (λ w. on_appender w j λ a. opened w j a a.sort)
        λ w0.
          act (λ w. on_appender w j λ a. reopened w j a a.sort)
            λ w1.
              scoped (appender j) exclusive
                (λ k'. attempt (file_written j level event) (
                  read_appender j λ a.
                    if stream_failed a.sort
                    then act (λ w. print w (codes "error\n")) (λ w. k')
                    else k'))
                k

  abbrev pub log_by : Sort → ℕ → Level → Event → Code World → Code World
  log_by console = log_to_console
  log_by (file name s) = log_to_file

  -- `log` of the two classes.
  unfoldable pub log : ℕ → Level → Event → Code World → Code World
  unfolding log_to_console log_to_file
  log j level event k =
      read_appender j λ a. if leb a.level level then log_by a.sort j level event k else k

-- `toYamlString` of the two classes.
module _ (api : Api) where
  unfoldable pub to_yaml_string : ℕ → (Text → Code World) → Code World
  unfolding appender_to_yaml_string
  to_yaml_string j k =
      take (appender j) exclusive
        (read_appender j λ a. release (appender j) (k (appender_to_yaml_string api a)))
