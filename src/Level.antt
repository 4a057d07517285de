-- ===== src/Level.antt =====
-- nnysl/log.h, nnysl/log.cpp: `LogLevel`. A level is the number of its enumerator, since the
-- program also stores the number 100, which no enumerator has.
pub mod Names
use final_designer.Prelude.{ℕ, Text, codes, map, toupper, text_eq, ◌==◌, if◌then◌else◌}

abbrev pub Level : Type 0
Level = ℕ

abbrev pub unknow : Level
unknow = 0

abbrev pub debug : Level
debug = 1

abbrev pub info : Level
info = 2

abbrev pub warn : Level
warn = 3

abbrev pub error : Level
error = 4

abbrev pub fatal : Level
fatal = 5

-- `LogLevel::toString`
unfoldable pub to_string : Level → Text
to_string level =
    if level == debug
    then codes "DEBUG"
    else if level == info
    then codes "INFO"
    else if level == warn
    then codes "WARN"
    else if level == error
    then codes "ERROR"
    else if level == fatal
    then codes "FATAL"
    else codes "UNKNOW"

-- One expansion of the macro `XX` in `LogLevel::fromString`: the argument is upper-cased in place,
-- then compared; `otherwise` is what follows.
abbrev test_name : Text → Level → (Text → Level × Text) → Text → Level × Text
test_name name result otherwise level =
    let upper : Text = map toupper level in
    if text_eq upper name then (result, upper) else otherwise upper

-- `LogLevel::fromString`: the level, and the value that its reference argument is left with.
unfoldable pub from_string : Text → Level × Text
from_string = test_name (codes "DEBUG") debug (
    test_name (codes "INFO") info (
      test_name (codes "WARN") warn (
        test_name (codes "ERROR") error
          (test_name (codes "FATAL") fatal (λ level. (unknow, level))))))
