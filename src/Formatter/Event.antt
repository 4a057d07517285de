-- ===== src/Formatter/Event.antt =====
-- `LogEvent`: its fields, its constructor with the conversions to the fields' widths, and the
-- getter that narrows.
use final_designer.Prelude.{
  ℕ, ℤ, pos, negsuc, ltb, if◌then◌else◌, ◌-◌, [], ◌%◌, ◌^◌, ◌++◌, Text, Option, none, some,
}
use final_designer.Level.{Level}

-- `logger` is the address of the logger in the store.
pub record Event : Type 0 where
  pub file : Text
  pub line : ℤ
  pub elapse : ℕ
  pub thread_id : ℕ
  pub fiber_id : ℕ
  pub time : ℕ
  pub content : Text
  pub logger : ℕ
  pub level : Level

-- The value of 32 bits in two's complement, and the conversion of an `int` to `int32_t`.
abbrev pub signed : ℕ → ℤ
signed m = if ltb m (2 ^ 31) then pos m else negsuc (2 ^ 32 - 1 - m)

abbrev pub to_int32 : ℤ → ℤ
to_int32 (pos n) = signed (n % 2 ^ 32)
to_int32 (negsuc n) = signed (2 ^ 32 - 1 - n % 2 ^ 32)

unfoldable pub new_event : ℕ → Level → Text → ℤ → ℕ → ℕ → ℕ → ℕ → Event
new_event logger level file line elapse thread_id fiber_id time = record {
  file = file;
  line = to_int32 line;
  elapse = elapse % 2 ^ 32;
  thread_id = thread_id % 2 ^ 32;
  fiber_id = fiber_id % 2 ^ 32;
  time = time % 2 ^ 64;
  content = [];
  logger = logger;
  level = level;
}

-- `getTime` returns `uint32_t`, and the field is `uint64_t`.
unfoldable pub get_time : Event → ℕ
get_time e = e.time % 2 ^ 32

-- `getSS() << s`
abbrev pub stream : Event → Text → Event
stream e s = record e { content = e.content ++ s }

-- `format(fmt, va_list)`: `printed` is what `vasprintf` makes, `none` where it returns -1.
unfoldable pub format_args : Event → Option Text → Event
format_args e none = e
format_args e (some printed) = stream e printed
