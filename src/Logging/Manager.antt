-- ===== src/Logging/Manager.antt =====
-- `LoggerManager`, without its map's order.
use final_designer.Logging.Logger.{new_logger, add_appender}
use final_designer.Logging.Sink.{Disk}
use final_designer.Logging.World.{World, new_console}
use final_designer.Prelude.{
  ℕ, List, [], ◌∷◌, ◌++◌, Text, codes, text_eq, Option, none, some, length, if◌then◌else◌,
}

-- `m_loggers.find(name)`
unfoldable pub find_logger : List (Text × ℕ) → Text → Option ℕ
find_logger [] name = none
find_logger ((n, i) ∷ rest) name = if text_eq n name then some i else find_logger rest name

-- `LoggerManager::getLogger`
unfoldable pub get_logger : World → Text → World × ℕ
unfolding find_logger new_logger
get_logger w name = elim (find_logger w.table name) [
  | some i ↦ (w, i)
  | none ↦ (
    record w {
      loggers = w.loggers ++ record (new_logger name) { root = some w.main } ∷ [];
      table = (name, length w.loggers) ∷ w.table;
    },
    length w.loggers,
  )
]

-- `LoggerManager::LoggerManager`
unfoldable pub new_manager : Disk → World
unfolding add_appender new_logger
new_manager d =
    let bare : World = record {
      appenders = new_console ∷ [];
      loggers = new_logger (codes "root") ∷ [];
      table = [];
      main = 0;
      out = [];
      disk = d;
    } in
    record (add_appender bare 0 0) { table = (codes "root", 0) ∷ [] }
