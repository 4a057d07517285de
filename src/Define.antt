-- ===== src/Define.antt =====
-- nnysl/log.cpp, the configuration of the loggers: `LogAppenderDefine` and `LogDefine`.
pub mod Read
pub mod Write
pub mod Fields
pub mod Describe
pub mod Described
pub mod LoggerNode
pub mod LoggerText
pub mod Apply
pub mod Views
pub mod Frame
pub mod SetUp
pub mod Apart
pub mod Fetch
pub mod Changes
pub mod Names
pub mod Equal
pub mod Loops
pub mod Applied
pub mod Known
pub mod Configured
pub mod Appenders
pub mod RoundTrip
use final_designer.Level.{Level, to_string}
use final_designer.Prelude.{
  ℕ, Bool, true, false, List, [], ◌∷◌, ◌++◌, Text, codes, text_eq, ◌==◌, ◌&&◌,
}
use final_designer.Prelude.Order.{text_lt}

-- `type` is 1 for a file and 2 for the console.
pub record AppenderDefine : Type 0 where
  pub type : ℕ
  pub level : Level
  pub formatter : Text
  pub file : Text

-- `LogAppenderDefine::operator==`
unfoldable pub appender_define_eq : AppenderDefine → AppenderDefine → Bool
appender_define_eq a b =
    a.type == b.type
    && a.level == b.level
    && text_eq a.formatter b.formatter
    && text_eq a.file b.file

pub record LogDefine : Type 0 where
  pub name : Text
  pub level : Level
  pub formatter : Text
  pub appenders : List AppenderDefine

-- `operator==` of the vectors.
unfoldable pub appenders_eq : List AppenderDefine → List AppenderDefine → Bool
unfolding appender_define_eq
appenders_eq [] [] = true
appenders_eq (a ∷ more) (b ∷ others) = appender_define_eq a b && appenders_eq more others
appenders_eq _ _ = false

-- `LogDefine::operator==`
unfoldable pub define_eq : LogDefine → LogDefine → Bool
unfolding appenders_eq
define_eq a b =
    text_eq a.name b.name
    && a.level == b.level
    && text_eq a.formatter b.formatter
    && appenders_eq a.appenders b.appenders

-- `LogDefine::operator<`
abbrev pub define_lt : LogDefine → LogDefine → Bool
define_lt a b = text_lt a.name b.name

-- `LogDefine::toString`
unfoldable pub define_to_string : LogDefine → Text
define_to_string d =
    codes "LogDefine[ name:"
    ++ (d.name
        ++ (codes " level:"
            ++ (to_string d.level ++ (codes " formatter:" ++ (d.formatter ++ codes " ] ")))))
