-- ===== src/Locks/Managers.antt =====
-- The operations of `LoggerManager`, with its lock.
use final_designer.Config.Var.{Outcome, returns, throws}
use final_designer.Define.Describe.{in_order}
use final_designer.Locks.Access.{read}
use final_designer.Locks.Code.{Code, act, take, release, manager, exclusive}
use final_designer.Locks.Loggers.{dumped, logger_to_yaml_string}
use final_designer.Locks.Store.Names.{make_logger, enter}
use final_designer.Logging.Manager.{find_logger}
use final_designer.Logging.World.{World}
use final_designer.Prelude.{ℕ, List, [], ◌∷◌, Text, none, some, length}
use final_designer.Yaml.{Api}

-- `LoggerManager::getRoot`, `NNYSL_LOG_ROOT`
unfoldable pub get_root : (ℕ → Code World) → Code World
get_root k = read λ w. k w.main

-- `LoggerManager::getLogger`, `NNYSL_LOG_NAME`
abbrev pub entering : Text → (ℕ → Code World) → Code World
entering name k =
    act (λ w. make_logger w name)
      λ w. act (λ w'. enter w' name (length w.loggers)) λ w'. release manager (k (length w.loggers))

abbrev pub finding : Text → (ℕ → Code World) → Code World
finding name k =
    read λ w. elim (find_logger w.table name) [
      | some i ↦ release manager (k i)
      | none ↦ entering name k
    ]

unfoldable pub get_logger : Text → (ℕ → Code World) → Code World
unfolding find_logger
get_logger name k = take manager exclusive (finding name k)

-- `LoggerManager::toYamlString`
module _ (api : Api) where
  open api use {Node, load, null, push}

  unfoldable pub push_loggers : List (Text × ℕ) → Node → (Outcome Node → Code World) → Code World
  unfolding logger_to_yaml_string
  push_loggers [] node k = k (returns node)
  push_loggers ((name, i) ∷ rest) node k = logger_to_yaml_string api i λ out. elim out [
    | throws e ↦ k (throws e)
    | returns text ↦ elim (load text) [
      | throws e ↦ k (throws e)
      | returns n ↦ push_loggers rest (push node n) k
    ]
  ]

  unfoldable pub manager_to_yaml_string : (Outcome Text → Code World) → Code World
  unfolding push_loggers
  manager_to_yaml_string k = take manager exclusive (
      read
        λ w. push_loggers (in_order api w.table) null λ out. release manager (k (dumped api out)))
