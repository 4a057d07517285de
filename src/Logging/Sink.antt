-- ===== src/Logging/Sink.antt =====
-- The `std::ofstream` of a file appender, over the files that the system keeps.
use final_designer.Prelude.{
  ℕ, Bool, true, false, List, [], ◌∷◌, ◌++◌, Text, text_eq, Option, none, some, is_empty, length,
  get_elem?, set, if◌then◌else◌, ◌||◌,
}

-- A name leads to a file by its number, `bodies` holds what has been written to each file, buffered
-- text included, and `openable` tells of the names that can be opened or created for writing.
pub record Disk : Type 0 where
  pub names : List (Text × ℕ)
  pub bodies : List Text
  pub openable : Text → Bool

find_name : List (Text × ℕ) → Text → Option ℕ
find_name [] name = none
find_name ((n, i) ∷ rest) name = if text_eq n name then some i else find_name rest name

unfoldable pub file_at : Disk → Text → Option ℕ
unfolding find_name
file_at d name = find_name d.names name

-- `FileLogAppender::exists`
unfoldable pub exists : Disk → Text → Bool
exists d name = elim (file_at d name) [ none ↦ false | some i ↦ true ]

-- Opening a name to append: the file, made if it is missing, or `none`.
unfoldable pub open_file : Disk → Text → Disk × Option ℕ
open_file d name =
    if d.openable name
    then elim (file_at d name) [
      | some i ↦ (d, some i)
      | none ↦ (
        record d { names = (name, length d.bodies) ∷ d.names; bodies = d.bodies ++ [] ∷ [] },
        some (length d.bodies),
      )
    ]
    else (d, none)

abbrev pub body : Disk → ℕ → Text
body d i = elim (get_elem? d.bodies i) [ none ↦ [] | some b ↦ b ]

unfoldable pub append_file : Disk → ℕ → Text → Disk
append_file d i s = record d { bodies = set d.bodies i (body d i ++ s) }

-- `failed` is what `!stream` gives.
pub record Stream : Type 0 where
  pub handle : Option ℕ
  pub failed : Bool

-- A stream that no file has been opened for is in a good state.
abbrev pub new_stream : Stream
new_stream = record { handle = none; failed = false }

-- `stream.open(name, std::ios::app)`: a failure sets the fail bit, a success clears the state.
unfoldable pub open_stream : Disk → Stream → Text → Disk × Stream
unfolding open_file
open_stream d s name = elim s.handle [
  | some i ↦ (d, record s { failed = true })
  | none ↦
      let (d', file) = open_file d name in
      (d', record { handle = file; failed = elim file [ none ↦ true | some i ↦ false ] })
]

-- `stream.close()`: with no file open it sets the fail bit.
unfoldable pub close_stream : Stream → Stream
close_stream s = elim s.handle [
  | none ↦ record s { failed = true }
  | some i ↦ record s { handle = none }
]

-- `stream << text`
unfoldable pub write_stream : Disk → Stream → Text → Disk × Stream
unfolding append_file
write_stream d s text = if s.failed || is_empty text then (d, s) else elim s.handle [
  | none ↦ (d, record s { failed = true })
  | some i ↦ (append_file d i text, s)
]
