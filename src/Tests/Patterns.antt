-- ===== src/Tests/Patterns.antt =====
-- Levels and patterns: nnysl/log.cpp.
use final_designer.Formatter.Event.{to_int32, Event, new_event, get_time}
use final_designer.Formatter.Grammar.{Reads}
use final_designer.Formatter.Item.{Env, format_item, find_item}
use final_designer.Formatter.Meaning.{
  content, level, name, thread, fiber, file, line, newline, tab, date, Piece, text, field, write,
  IsWritable, show, format-write,
}
use final_designer.Formatter.Scan.{scan, outer, outer_step, outer_start, new_formatter, format}
use final_designer.Formatter.Total.{scan-Reads_iff, scan_ends}
use final_designer.Level.{info, to_string, from_string}
use final_designer.Logging.Logger.{default_pattern}
use final_designer.Prelude.{
  ◌^◌, arith, ◌≡◌, refl, pos, negsuc, ◌-◌, List, [], ◌∷◌, codes, false, decimal, text_eq, isalpha,
  substr, ◌+◌, toupper,
}

-- A time behind the year 2106, and a thread number beyond 32 bits.
abbrev late : Event
unfolding new_event
late = new_event 0 info (codes "main.cpp") (pos 7) 0 (2 ^ 32 + 5) 0 (2 ^ 32 + 9)

late_runs : (late.thread_id ≡ 5) × (late.time ≡ 2 ^ 32 + 9) × (get_time late ≡ 9)
unfolding late get_time
late_runs = (refl, refl, refl)

-- A line of 2 ^ 31 does not fit the field.
wrapped : to_int32 (pos (2 ^ 31)) ≡ negsuc (2 ^ 31 - 1)
wrapped = refl

from_string_runs : from_string (codes "info") ≡ (info, codes "INFO")
unfolding from_string text_eq toupper
from_string_runs = refl

-- The default pattern, from its pieces.
abbrev default_pieces : List Piece
default_pieces =
    field (date (codes "%Y-%m-%d %H:%M:%S"))
    ∷ field tab
    ∷ field thread
    ∷ field tab
    ∷ field fiber
    ∷ field tab
    ∷ text (codes "[")
    ∷ field level
    ∷ text (codes "]")
    ∷ field tab
    ∷ text (codes "[")
    ∷ field name
    ∷ text (codes "]")
    ∷ field tab
    ∷ field file
    ∷ text (codes ":")
    ∷ field line
    ∷ field tab
    ∷ field content
    ∷ field newline
    ∷ []

default_pieces-write : write default_pieces ≡ default_pattern
default_pieces-write = refl

default_pieces-IsWritable : IsWritable default_pieces
unfolding isalpha
default_pieces-IsWritable = ground arith

abbrev sample_env : Env
sample_env = record { local_time = λ f t. f; name_of = λ i. codes "root" }

abbrev sample : Event
sample = record {
  file = codes "test.cpp";
  line = pos 23;
  elapse = 0;
  thread_id = 4711;
  fiber_id = 0;
  time = 1682500415;
  content = codes "test";
  logger = 0;
  level = info;
}

format-write_example :
    (format sample_env (new_formatter (write default_pieces)) info sample
      ≡ show sample_env info sample default_pieces)
    × ((new_formatter (write default_pieces)).is_error ≡ false)
format-write_example = format-write sample_env info sample default_pieces default_pieces-IsWritable

format_runs :
    format sample_env (new_formatter (codes "%t [%p]%n")) info sample ≡ codes "4711 [INFO]\n"
unfolding format new_formatter outer_step format_item find_item text_eq isalpha substr decimal
    to_string
format_runs = refl

scan-Reads_iff_example : Reads (codes "%d{a}%m%%") [] (scan (codes "%d{a}%m%%")).vec false
unfolding scan outer_step isalpha substr
scan-Reads_iff_example =
    (scan-Reads_iff (codes "%d{a}%m%%") (scan (codes "%d{a}%m%%")).vec false).1 (refl, refl)

scan_ends_example :
    ((outer 4 (codes "%{%m") outer_start).i ≡ 4)
    × (outer (4 + 9) (codes "%{%m") outer_start ≡ outer 4 (codes "%{%m") outer_start)
scan_ends_example = scan_ends (codes "%{%m") 9
