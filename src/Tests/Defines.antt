-- ===== src/Tests/Defines.antt =====
-- The configuration of the loggers: nnysl/log.cpp.
use final_designer.Cast.{◌>>=◌, read_sequence, read_items, set_insert}
use final_designer.Cast.Containers.{from_set}
use final_designer.Cast.Sets.{is_sorted}
use final_designer.Config.Var.{returns, Var}
use final_designer.Define.{AppenderDefine, LogDefine, define_lt}
use final_designer.Define.Appenders.{complaints, survivors}
use final_designer.Define.Applied.{new_manager-IsSound, on_change-Aim}
use final_designer.Define.Apart.{IsSound}
use final_designer.Define.Apply.{announce, on_change}
use final_designer.Define.Configured.{listener, IsLoaded, load_logs-cases}
use final_designer.Define.Fetch.{get_logger-Fetched}
use final_designer.Define.Known.{from_set-read_define}
use final_designer.Define.Read.{read_define}
use final_designer.Define.RoundTrip.{read_define-write_define}
use final_designer.Define.SetUp.{is_known}
use final_designer.Define.Views.{view, Aim}
use final_designer.Define.Write.{write_define, write_node}
use final_designer.Level.{debug, info, warn, from_string}
use final_designer.Logging.Invariant.{Keeps}
use final_designer.Formatter.Scan.{new_formatter}
use final_designer.Logging.Logger.{default_pattern}
use final_designer.Logging.Manager.{get_logger, new_manager}
use final_designer.Logging.Sink.{Disk}
use final_designer.Logging.World.{Appender, new_console, Logger, World}
use final_designer.Prelude.{
  ℕ, ◌≡◌, refl, ap, true, List, [], ◌∷◌, ◌++◌, Text, codes, all, Option, some, none, text_eq,
  toupper,
}
use final_designer.Prelude.Order.{text_lt}
use final_designer.Tests.Document.{
  documents, documents-IsMap, documents-IsSequential, fields, items, parse-print_doc, print_doc,
}

abbrev to_file : AppenderDefine
to_file = record { type = 1; level = warn; formatter = codes "%m%n"; file = codes "a.txt" }

abbrev to_console : AppenderDefine
to_console = record { type = 2; level = info; formatter = codes "%p %m%n"; file = [] }

abbrev system : LogDefine
system = record {
  name = codes "system";
  level = info;
  formatter = codes "%d%m%n";
  appenders = to_file ∷ to_console ∷ [];
}

-- The file appender and the pattern are gone.
read_define-write_define_example : (write_define documents system >>= read_define documents) ≡ (
  complaints documents (to_file ∷ to_console ∷ []),
  returns (record {
    name = codes "system";
    level = info;
    formatter = [];
    appenders = survivors documents [] (to_file ∷ to_console ∷ []);
  }),
)
read_define-write_define_example =
    read_define-write_define documents documents-IsMap system documents-IsSequential
      (ap returns (parse-print_doc (write_node documents system)))

abbrev disk : Disk
disk = record { names = []; bodies = []; openable = λ name. true }

abbrev start : World
start = new_manager disk

abbrev main_logger : Logger
main_logger = record {
  name = codes "root";
  level = debug;
  appenders = 0 ∷ [];
  formatter = some (new_formatter default_pattern);
  root = none;
}

abbrev main_appender : Appender
main_appender = record new_console { formatter = some (new_formatter default_pattern) }

-- The text of a definition with a name alone, as an item of a sequence.
abbrev named : Text → Text
named name = print_doc (fields ((codes "name", 2 ∷ name) ∷ []))

abbrev two_names : Text
two_names = print_doc (items (named (codes "system") ∷ named (codes "net") ∷ []))

abbrev plain_define : Text → LogDefine
plain_define name = record { name = name; level = 0; formatter = []; appenders = [] }

two_names_read : from_set documents define_lt (read_define documents) two_names ≡ (
  named (codes "system") ++ named (codes "net"),
  returns (plain_define (codes "net") ∷ plain_define (codes "system") ∷ []),
)
unfolding from_set read_sequence read_items set_insert text_eq read_define text_lt from_string
    toupper
two_names_read = refl

from_set-read_define_example :
    (is_sorted define_lt (plain_define (codes "net") ∷ plain_define (codes "system") ∷ []) ≡ true)
    × (all
          (λ d. all is_known d.appenders)
          (plain_define (codes "net") ∷ plain_define (codes "system") ∷ [])
        ≡ true)
from_set-read_define_example =
    from_set-read_define documents two_names (named (codes "system") ++ named (codes "net"))
      (plain_define (codes "net") ∷ plain_define (codes "system") ∷ []) two_names_read

-- A store with the loggers `root` and `system`, and two sets of definitions.
abbrev two_loggers : World
two_loggers = (get_logger start (codes "system")).0

two_loggers-IsSound : IsSound two_loggers
two_loggers-IsSound = (get_logger-Fetched start (codes "system") (new_manager-IsSound disk)).sound

abbrev old : List LogDefine
old = plain_define (codes "net") ∷ plain_define (codes "system") ∷ []

abbrev new : List LogDefine
new = plain_define (codes "disk") ∷ system ∷ []

abbrev local_time : Text → ℕ → Text
local_time format time = codes "2023-04-26 09:13:35"

on_change-Aim_example :
    (w1 : World) × (w' : World) × (announce local_time (codes "log.cpp") 12 0 1682500415 two_loggers
      ≡ some w1)
    × (on_change local_time (codes "log.cpp") 12 0 1682500415 two_loggers old new ≡ some w')
    × Keeps two_loggers w1
    × IsSound w'
    × Aim old new (codes "system") (view w1 (codes "system")) (view w' (codes "system"))
unfolding text_lt
on_change-Aim_example =
    on_change-Aim local_time (codes "log.cpp") 12 0 1682500415 two_loggers old new (codes "system")
      two_loggers-IsSound refl refl refl

-- The variable `logs` as the program sets it up.
abbrev logs : Var (List LogDefine) (Option World)
logs = record {
  name = codes "logs";
  description = codes "logs config";
  val = [];
  cbs =
      (
        7,
        listener documents local_time (codes "log.cpp") (codes "config.h") (codes "St3set") 12 0
            1682500415,
      )
      ∷ [];
}

load_logs-cases_example :
    IsLoaded documents local_time
      (codes "log.cpp")
      (codes "config.h")
      (codes "St3set")
      12
      0
      1682500415
      logs
      two_names
      two_loggers
      (codes "system")
load_logs-cases_example =
    load_logs-cases documents local_time (codes "log.cpp") (codes "config.h") (codes "St3set") 12 0
      1682500415 logs two_names two_loggers (codes "system") 7 two_loggers-IsSound refl refl
