-- ===== src/Define/Read.antt =====
-- `LexicalCast<std::string, LogDefine>`.
use final_designer.Cast.{Cast, Printed, ◌>>=◌, ◌>>◌, pure, lift, say}
use final_designer.Config.Var.{returns}
use final_designer.Define.{AppenderDefine, LogDefine}
use final_designer.Level.{unknow, from_string}
use final_designer.Prelude.{
  ℕ, zero, suc, ◌+◌, List, [], ◌∷◌, ◌++◌, Text, codes, text_eq, Option, none, some, if◌then◌else◌,
}
use final_designer.Yaml.{Api}

abbrev pub file_name_of_type : Text
file_name_of_type = codes "FileLogAppender"

abbrev pub console_name_of_type : Text
console_name_of_type = codes "StdoutLogAppender"

abbrev pub invalid_type : Text
invalid_type = codes "log config error: appender type is invaild, \n"

abbrev pub null_file : Text
null_file = codes "log config error: fileappender file is null \n"

-- A message, and `continue`.
abbrev pub skip : Text → Printed (Option AppenderDefine)
skip text = (text, returns none)

abbrev pub push_some : List AppenderDefine → Option AppenderDefine → List AppenderDefine
push_some acc none = acc
push_some acc (some d) = acc ++ d ∷ []

module _ (api : Api) where
  open api use {Node, load, dump, size, at, child, as_string}

  abbrev pub null_type : Node → Text
  null_type appender =
      codes "log config error: appender type is null " ++ (dump appender ++ codes "\n")

  abbrev pub null_name : Node → Text
  null_name node = codes "log config error: name is null, " ++ (dump node ++ codes "\n")

  -- The text of a child, and an empty one if it is not defined.
  unfoldable pub optional_text : Node → Text → Printed Text
  optional_text node key = do
    found ← lift (child node key)
    elim found [ none ↦ pure [] | some n ↦ lift (as_string (some n)) ]

  -- The branches of the loop over the appenders; `none` is its `continue`.
  unfoldable pub read_file : Node → Printed (Option AppenderDefine)
  unfolding optional_text
  read_file appender = do
    found ← lift (child appender (codes "file"))
    elim found [
      | none ↦ skip null_file
      | some n ↦ do
        file ← lift (as_string (some n))
        formatter ← optional_text appender (codes "formatter")
        pure (some (record { type = 1; level = unknow; formatter = formatter; file = file }))
    ]

  unfoldable pub read_console : Node → Printed (Option AppenderDefine)
  unfolding optional_text
  read_console appender = do
    formatter ← optional_text appender (codes "formatter")
    pure (some (record { type = 2; level = unknow; formatter = formatter; file = [] }))

  unfoldable pub read_typed : Node → Text → Printed (Option AppenderDefine)
  unfolding read_file read_console
  read_typed appender type =
      if text_eq type file_name_of_type
      then read_file appender
      else if text_eq type console_name_of_type
      then read_console appender
      else skip invalid_type

  unfoldable pub read_appender : Node → Printed (Option AppenderDefine)
  unfolding read_typed
  read_appender appender = do
    found ← lift (child appender (codes "type"))
    elim found [
      | none ↦ skip (null_type appender)
      | some n ↦ do type ← lift (as_string (some n)); read_typed appender type
    ]

  unfoldable pub read_appenders : Node → ℕ → ℕ → List AppenderDefine → Printed (List AppenderDefine)
  unfolding read_appender
  read_appenders node i zero acc = pure acc
  read_appenders node i (suc left) acc = do
    d ← read_appender (at node i)
    read_appenders node (i + 1) left (push_some acc d)

  unfoldable pub read_found : Option Node → Printed (List AppenderDefine)
  unfolding read_appenders
  read_found none = pure []
  read_found (some list) = read_appenders list 0 (size list) []

  -- The message of a definition without a name.
  abbrev pub name_said : Node → Option Node → Printed (Unit {0})
  name_said node none = say (null_name node)
  name_said node (some n) = pure tt

  unfoldable pub read_define : Cast Text LogDefine
  unfolding optional_text read_found
  read_define v = do
    node ← lift (load v)
    named ← lift (child node (codes "name"))
    name_said node named
    name ← lift (as_string named)
    level ← optional_text node (codes "level")
    formatter ← optional_text node (codes "formatter")
    found ← lift (child node (codes "appenders"))
    appenders ← read_found found
    pure (record {
      name = name;
      level = (from_string level).0;
      formatter = formatter;
      appenders = appenders;
    })
