-- ===== src/Define/Write.antt =====
-- `LexicalCast<LogDefine, std::string>`.
use final_designer.Cast.{Cast, pure}
use final_designer.Define.{AppenderDefine, LogDefine}
use final_designer.Level.{to_string}
use final_designer.Prelude.{ℕ, List, [], ◌∷◌, Text, codes, is_empty, ◌==◌, if◌then◌else◌}
use final_designer.Yaml.{Api}

module _ (api : Api) where
  open api use {Node, dump, null, of_text, put, push_at}

  abbrev pub text_field : Node → Text → Text → Node
  text_field node key text = put node key (of_text text)

  -- The type of an appender, if it is one of the two.
  abbrev pub put_type : ℕ → Node → Node
  put_type type node =
      if type == 1
      then text_field node (codes "type") (codes "FileAppender")
      else if type == 2
      then text_field node (codes "type") (codes "StdoutLogAppender")
      else node

  -- A text, unless it is empty.
  abbrev pub put_unless_empty : Text → Text → Node → Node
  put_unless_empty key text node = if is_empty text then node else text_field node key text

  -- A text, only if it is empty.
  abbrev pub put_if_empty : Text → Text → Node → Node
  put_if_empty key text node = if is_empty text then text_field node key text else node

  unfoldable pub write_appender : AppenderDefine → Node
  write_appender d =
      put_unless_empty (codes "formatter") d.formatter
        (text_field (put_type d.type null) (codes "level") (to_string d.level))

  unfoldable pub push_appenders : List AppenderDefine → Node → Node
  unfolding write_appender
  push_appenders [] node = node
  push_appenders (d ∷ ds) node =
      push_appenders ds (push_at node (codes "appenders") (write_appender d))

  unfoldable pub write_node : LogDefine → Node
  unfolding push_appenders
  write_node d =
      let named : Node = text_field null (codes "name") d.name in
      let levelled : Node = text_field named (codes "level") (to_string d.level) in
      push_appenders d.appenders (put_if_empty (codes "formatter") d.formatter levelled)

  unfoldable pub write_define : Cast LogDefine Text
  unfolding write_node
  write_define d = pure (dump (write_node d))
