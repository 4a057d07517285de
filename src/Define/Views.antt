-- ===== src/Define/Views.antt =====
-- The loggers as the configuration sees them: what each name stands for.
use final_designer.Define.{AppenderDefine, LogDefine}
use final_designer.Formatter.Scan.{Formatter, new_formatter}
use final_designer.Level.{Level}
use final_designer.Logging.Logger.{default_pattern}
use final_designer.Logging.Manager.{find_logger}
use final_designer.Logging.World.{Appender, Logger, World, file, console}
use final_designer.Logging.Sink.{new_stream}
use final_designer.Prelude.{
  ◌≡◌, ◌≢◌, false, true, ℕ, List, [], ◌∷◌, Text, Option, none, some, map, get_elem?, is_empty,
  text_eq, ◌==◌, if◌then◌else◌,
}

-- A logger by what its pointers lead to.
pub record View : Type 0 where
  pub level : Level
  pub formatter : Option Formatter
  pub appenders : List (Option Appender)

abbrev pub view_of : World → Logger → View
view_of w l = record {
  level = l.level;
  formatter = l.formatter;
  appenders = map (λ j. get_elem? w.appenders j) l.appenders;
}

abbrev pub view_at : World → ℕ → Option View
view_at w i = elim (get_elem? w.loggers i) [ none ↦ none | some l ↦ some (view_of w l) ]

-- The logger of a name, if the manager has one.
abbrev pub view : World → Text → Option View
view w n = elim (find_logger w.table n) [ none ↦ none | some i ↦ view_at w i ]

-- A name without a logger gets one with the default pattern.
abbrev pub formatter_before : Option View → Option Formatter
formatter_before none = some (new_formatter default_pattern)
formatter_before (some v) = v.formatter

-- The pattern of a definition, if there is one and it is well-formed.
abbrev pub formatter_after : LogDefine → Option Formatter → Option Formatter
formatter_after d f =
    if is_empty d.formatter
    then f
    else if (new_formatter d.formatter).is_error
    then f
    else some (new_formatter d.formatter)

-- The formatter of a definition's own pattern, if there is one and it is well-formed.
abbrev pub own_formatter : AppenderDefine → Option Formatter
own_formatter a =
    if is_empty a.formatter
    then none
    else if (new_formatter a.formatter).is_error
    then none
    else some (new_formatter a.formatter)

-- The appender of a definition, under a logger with a formatter: of the definition's class and
-- level, with the definition's formatter for its own, or else the logger's.
abbrev pub built : Option Formatter → AppenderDefine → Appender
built f a = record {
  sort = if a.type == 1 then file a.file new_stream else console;
  level = a.level;
  formatter = elim (own_formatter a) [ none ↦ f | some g ↦ some g ];
  have_formatter = elim (own_formatter a) [ none ↦ false | some g ↦ true ];
}

-- A logger as its definition says.
abbrev pub configured : LogDefine → Option View → View
configured d before =
    let f : Option Formatter = formatter_after d (formatter_before before) in
    record { level = d.level; formatter = f; appenders = map (λ a. some (built f a)) d.appenders }

-- A logger that has been taken out.
abbrev pub removed : Option View → View
removed before = record { level = 100; formatter = formatter_before before; appenders = [] }

-- The definition of a name.
abbrev pub define_of : List LogDefine → Text → Option LogDefine
define_of [] n = none
define_of (d ∷ ds) n = if text_eq d.name n then some d else define_of ds n

-- What a change of the definitions is to make of what a name stands for: nothing where the name has
-- the definition that it had, or none before and now; what the new definition says where that is not
-- the old one; and a logger taken out where there is a definition no more.
pub data Aim (old new : List LogDefine) (n : Text) (before : Option View)
    : Option View → Type 0 where
  unchanged :
      (d : LogDefine)
      → define_of new n ≡ some d
      → define_of old n ≡ some d
      → Aim old new n before before
  changed :
      (d : LogDefine)
      → define_of new n ≡ some d
      → define_of old n ≢ some d
      → Aim old new n before (some (configured d before))
  taken_out :
      (d : LogDefine)
      → define_of new n ≡ none
      → define_of old n ≡ some d
      → Aim old new n before (some (removed before))
  untouched : define_of new n ≡ none → define_of old n ≡ none → Aim old new n before before
