-- ===== src/Define/Describe.antt =====
-- `toYamlString` of the appenders, the loggers and their manager.
use final_designer.Cast.{set_insert}
use final_designer.Cast.Containers.{key_lt}
use final_designer.Config.Var.{Outcome, returns, throws}
use final_designer.Define.Write.{text_field}
use final_designer.Formatter.Scan.{Formatter}
use final_designer.Level.{Level, unknow, to_string}
use final_designer.Logging.World.{Appender, Sort, console, file, Logger, World}
use final_designer.Prelude.{
  ℕ, Bool, List, [], ◌∷◌, Text, codes, Option, none, some, get_elem?, ◌==◌, if◌then◌else◌,
}
use final_designer.Yaml.{Api}
use mathlib.Core.List.{foldl}

module _ (api : Api) where
  open api use {Node, load, dump, null, put, push, push_at}

  abbrev pub level_field : Level → Node → Node
  level_field level node =
      if level == unknow then node else text_field api node (codes "level") (to_string level)

  abbrev pub formatter_field : Bool → Option Formatter → Node → Node
  formatter_field have_formatter none node = node
  formatter_field have_formatter (some f) node =
      if have_formatter then text_field api node (codes "formatter") f.pattern_text else node

  -- The keys that tell the class.
  abbrev pub sort_node : Sort → Node
  sort_node console = text_field api null (codes "type") (codes "StdoutLogAppender")
  sort_node (file name s) =
      text_field api (text_field api null (codes "type") (codes "FileLogAppender")) (codes "file")
        name

  -- The node that `toYamlString` of the two classes of appender builds.
  unfoldable pub appender_node : Appender → Node
  appender_node a =
      formatter_field a.have_formatter a.formatter (level_field a.level (sort_node a.sort))

  -- `StdoutLogAppender::toYamlString` and `FileLogAppender::toYamlString`
  unfoldable pub appender_to_yaml_string : Appender → Text
  unfolding appender_node
  appender_to_yaml_string a = dump (appender_node a)

  -- The loop of `Logger::toYamlString`; `none` stands for a call through a null pointer.
  unfoldable pub push_described : World → List ℕ → Node → Option (Outcome Node)
  unfolding appender_to_yaml_string
  push_described w [] node = some (returns node)
  push_described w (j ∷ js) node = elim (get_elem? w.appenders j) [
    | none ↦ none
    | some a ↦ elim (load (appender_to_yaml_string a)) [
      | throws e ↦ some (throws e)
      | returns n ↦ push_described w js (push_at node (codes "appenders") n)
    ]
  ]

  -- The node in front of the appenders.
  unfoldable pub logger_node : Logger → Node
  logger_node l =
      let named : Node = text_field api null (codes "name") l.name in
      let levelled : Node = text_field api named (codes "level") (to_string l.level) in
      elim l.formatter [
        | none ↦ levelled
        | some f ↦ text_field api levelled (codes "forammter") f.pattern_text
      ]

  abbrev pub dumped : Option (Outcome Node) → Option (Outcome Text)
  dumped none = none
  dumped (some (throws e)) = some (throws e)
  dumped (some (returns n)) = some (returns (dump n))

  -- `Logger::toYamlString`
  unfoldable pub logger_to_yaml_string : World → ℕ → Option (Outcome Text)
  unfolding push_described logger_node
  logger_to_yaml_string w i = elim (get_elem? w.loggers i) [
    | none ↦ none
    | some l ↦ dumped (push_described w l.appenders (logger_node l))
  ]

  -- The loop of `LoggerManager::toYamlString`.
  unfoldable pub push_loggers : World → List (Text × ℕ) → Node → Option (Outcome Node)
  unfolding logger_to_yaml_string
  push_loggers w [] node = some (returns node)
  push_loggers w ((name, i) ∷ rest) node = elim (logger_to_yaml_string w i) [
    | none ↦ none
    | some (throws e) ↦ some (throws e)
    | some (returns text) ↦ elim (load text) [
      | throws e ↦ some (throws e)
      | returns n ↦ push_loggers w rest (push node n)
    ]
  ]

  -- The names of the manager's map in their order.
  abbrev pub in_order : List (Text × ℕ) → List (Text × ℕ)
  in_order table = foldl (set_insert key_lt) [] table

  -- `LoggerManager::toYamlString`
  unfoldable pub manager_to_yaml_string : World → Option (Outcome Text)
  unfolding push_loggers set_insert
  manager_to_yaml_string w = dumped (push_loggers w (in_order w.table) null)
