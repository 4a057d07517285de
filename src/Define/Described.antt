-- ===== src/Define/Described.antt =====
-- What the reader of definitions makes of the text that describes a logger.
use final_designer.Cast.{>>=-pure, pure, lift}
use final_designer.Config.Var.{returns}
use final_designer.Define.{AppenderDefine}
use final_designer.Define.Appenders.{read_appender-some, read_console-some}
use final_designer.Define.Describe.{level_field, formatter_field, sort_node, appender_node}
use final_designer.Define.Fields.{optional_text-some, optional_text-none, child_self, child-other}
use final_designer.Define.Read.{read_appender, read_typed, read_file, optional_text}
use final_designer.Define.Write.{text_field}
use final_designer.Formatter.Scan.{Formatter}
use final_designer.Level.{Level, unknow}
use final_designer.Logging.World.{Appender, Sort, console, file}
use final_designer.Prelude.{
  ◌≡◌, refl, ◌∙◌, ap, Bool, true, false, [], Text, codes, text_eq, Option, none, some,
  if◌then◌else◌, ◌==◌, Bool-cases, inl, inr,
}
use final_designer.Yaml.{Api, IsMap}

-- The pattern of an appender's own formatter.
abbrev pub own_pattern : Bool → Option Formatter → Text
own_pattern have_formatter none = []
own_pattern have_formatter (some f) = if have_formatter then f.pattern_text else []

-- A definition of a class of appender.
abbrev pub sort_define : Sort → Text → AppenderDefine
sort_define console formatter = record {
  type = 2;
  level = unknow;
  formatter = formatter;
  file = [];
}
sort_define (file name s) formatter = record {
  type = 1;
  level = unknow;
  formatter = formatter;
  file = name;
}

-- What is left of an appender.
abbrev pub described : Appender → AppenderDefine
described a = sort_define a.sort (own_pattern a.have_formatter a.formatter)

module _ (api : Api) (laws : IsMap api) where
  open api use {Node, load, dump, size, at, child, null, of_text, put, push, push_at}
  open laws use {IsMapped, null_mapped, put_mapped, child_null, as_string_of}

  level_field-mapped : (l : Level) (n : Node) → IsMapped n → IsMapped (level_field api l n)
  level_field-mapped l n m = elim (Bool-cases (l == unknow)) [
    | inl e ↦ rw e m
    | inr e ↦ rw e (put_mapped n _ _ m)
  ]

  child-level_field :
      (l : Level) (n : Node) (j : Text)
      → IsMapped n
      → text_eq (codes "level") j ≡ false
      → child (level_field api l n) j ≡ child n j
  child-level_field l n j m h = elim (Bool-cases (l == unknow)) [
    | inl e ↦ rw e refl
    | inr e ↦ rw e (child-other api laws n (codes "level") j _ m h)
  ]

  child-formatter_field :
      (b : Bool) (f : Option Formatter) (n : Node) (j : Text)
      → IsMapped n
      → text_eq (codes "formatter") j ≡ false
      → child (formatter_field api b f n) j ≡ child n j
  child-formatter_field b none n j m h = refl
  child-formatter_field true (some f) n j m h = child-other api laws n (codes "formatter") j _ m h
  child-formatter_field false (some f) n j m h = refl

  optional_text-formatter_field :
      (b : Bool) (f : Option Formatter) (n : Node)
      → IsMapped n
      → child n (codes "formatter") ≡ returns none
      → optional_text api (formatter_field api b f n) (codes "formatter") ≡ pure (own_pattern b f)
  optional_text-formatter_field b none n m h = optional_text-none api laws n _ h
  optional_text-formatter_field true (some f) n m h =
      optional_text-some api laws _ _ f.pattern_text (child_self api laws n _ _ m)
  optional_text-formatter_field false (some f) n m h = optional_text-none api laws n _ h

  -- A described appender, from its type and its file.
  module _ (a : Appender) (typed : Node) (m : IsMapped typed) where
    abbrev rest : Node
    rest = formatter_field api a.have_formatter a.formatter (level_field api a.level typed)

    child-rest :
        (j : Text)
        → text_eq (codes "formatter") j ≡ false
        → text_eq (codes "level") j ≡ false
        → child rest j ≡ child typed j
    child-rest j h k =
        child-formatter_field a.have_formatter a.formatter _ j (level_field-mapped a.level typed m)
          h
        ∙ child-level_field a.level typed j m k

    optional_text-rest :
        child typed (codes "formatter") ≡ returns none
        → optional_text api rest (codes "formatter")
          ≡ pure (own_pattern a.have_formatter a.formatter)
    unfolding text_eq
    optional_text-rest h =
        optional_text-formatter_field a.have_formatter a.formatter _
          (level_field-mapped a.level typed m)
          (child-level_field a.level typed (codes "formatter") m refl ∙ h)

  read_file-some :
      (n : Node) (name t : Text)
      → child n (codes "file") ≡ returns (some (of_text name))
      → optional_text api n (codes "formatter") ≡ pure t
      → read_typed api n (codes "FileLogAppender")
        ≡ pure (some (record { type = 1; level = unknow; formatter = t; file = name }))
  unfolding read_typed read_file text_eq
  read_file-some n name t h k =
      >>=-pure _ _ _ (ap lift h) ∙ >>=-pure _ _ _ (ap lift (as_string_of name)) ∙ >>=-pure _ _ _ k

  typed-mapped : (t : Text) → IsMapped (text_field api null (codes "type") t)
  typed-mapped t = put_mapped null _ _ null_mapped

  typed-none :
      (t j : Text)
      → text_eq (codes "type") j ≡ false
      → child (text_field api null (codes "type") t) j ≡ returns none
  typed-none t j h = child-other api laws null (codes "type") j t null_mapped h ∙ child_null j

  sort_node-mapped : (s : Sort) → IsMapped (sort_node api s)
  sort_node-mapped console = typed-mapped _
  sort_node-mapped (file name s) = put_mapped _ _ _ (typed-mapped _)

  read_sort :
      (s : Sort) (a : Appender)
      → read_appender api (rest a (sort_node api s) (sort_node-mapped s))
        ≡ pure (some (sort_define s (own_pattern a.have_formatter a.formatter)))
  unfolding text_eq
  read_sort console a =
      let m : IsMapped (sort_node api console) = sort_node-mapped console in
      read_appender-some api laws _ (codes "StdoutLogAppender") (
        child-rest a _ m (codes "type") refl refl
        ∙ child_self api laws null (codes "type") _ null_mapped)
      ∙ read_console-some api laws _ _ (
          optional_text-rest a _ m
            (typed-none (codes "StdoutLogAppender") (codes "formatter") refl))
  read_sort (file name s) a =
      let t : Text = codes "FileLogAppender" in
      let m : IsMapped (sort_node api (file name s)) = sort_node-mapped (file name s) in
      read_appender-some api laws _ t (
        child-rest a _ m (codes "type") refl refl
        ∙ child-other api laws _ (codes "file") (codes "type") name (typed-mapped t) refl
        ∙ child_self api laws null (codes "type") _ null_mapped)
      ∙ read_file-some _ name _
          (child-rest a _ m (codes "file") refl refl
            ∙ child_self api laws _ (codes "file") name (typed-mapped t))
          (optional_text-rest a _ m (
            child-other api laws _ (codes "file") (codes "formatter") name (typed-mapped t) refl
            ∙ typed-none t (codes "formatter") refl))

  -- An appender that has described itself is read as one of its class, with its own pattern and its
  -- file, and without its level.
  pub read_appender-appender_node :
      (a : Appender) → read_appender api (appender_node api a) ≡ pure (some (described a))
  unfolding appender_node
  read_appender-appender_node a = read_sort a.sort a
