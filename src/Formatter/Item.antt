-- ===== src/Formatter/Item.antt =====
-- The subclasses of `LogFormatter::FormatItem`, what each writes, and the table of `init`.
use final_designer.Formatter.Event.{Event, get_time}
use final_designer.Level
use final_designer.Level.{Level}
use final_designer.Prelude.{
  ℕ, List, [], ◌∷◌, Text, codes, text_eq, decimal, decimal_signed, Option, none, some, is_empty,
  if◌then◌else◌,
}

pub data Item : Type 0 where
  message level elapse name thread_id new_line fiber_id file_name line : Item
  date_time : Text → Item
  tab : Text → Item
  string : Text → Item

-- What formatting takes from outside: `local_time format time` is what the buffer of
-- `DateTimeFormatItem::format` holds after `localtime_r` and `strftime`.
pub record Env : Type 0 where
  pub local_time : Text → ℕ → Text
  -- `getName()` of the logger at an address
  pub name_of : ℕ → Text

-- The constructor of `DateTimeFormatItem`.
unfoldable pub new_date_time : Text → Item
new_date_time format = date_time (if is_empty format then codes "%Y-%m-%d %H:%M:%S" else format)

-- The overrides of `FormatItem::format`: what they write to the stream.
unfoldable pub format_item : Env → Level → Event → Item → Text
unfolding get_time
format_item env lvl event Item.message = event.content
format_item env lvl event Item.level = Level.to_string lvl
format_item env lvl event Item.elapse = decimal event.elapse
format_item env lvl event Item.name = env.name_of event.logger
format_item env lvl event Item.thread_id = decimal event.thread_id
format_item env lvl event Item.new_line = b'\n' ∷ []
format_item env lvl event Item.fiber_id = decimal event.fiber_id
format_item env lvl event (Item.date_time format) = env.local_time format (get_time event)
format_item env lvl event Item.file_name = event.file
format_item env lvl event Item.line = decimal_signed event.line
format_item env lvl event (Item.string s) = s
format_item env lvl event (Item.tab s) = b'\t' ∷ []

-- `s_format_items`: a letter and the constructor that it calls.
abbrev pub items_table : List (Text × (Text → Item))
items_table =
    (codes "m", λ fmt. Item.message)
    ∷ (codes "p", λ fmt. Item.level)
    ∷ (codes "r", λ fmt. Item.elapse)
    ∷ (codes "c", λ fmt. Item.name)
    ∷ (codes "t", λ fmt. Item.thread_id)
    ∷ (codes "n", λ fmt. Item.new_line)
    ∷ (codes "d", λ fmt. new_date_time fmt)
    ∷ (codes "f", λ fmt. Item.file_name)
    ∷ (codes "l", λ fmt. Item.line)
    ∷ (codes "T", λ fmt. Item.tab fmt)
    ∷ (codes "F", λ fmt. Item.fiber_id)
    ∷ []

find_in : List (Text × (Text → Item)) → Text → Option (Text → Item)
find_in [] key = none
find_in ((k, make) ∷ rest) key = if text_eq k key then some make else find_in rest key

-- `s_format_items.find(key)`
unfoldable pub find_item : Text → Option (Text → Item)
unfolding find_in
find_item = find_in items_table
