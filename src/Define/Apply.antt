-- ===== src/Define/Apply.antt =====
-- The listener of `LogIniter`: it makes the loggers what a new set of definitions says.
use final_designer.Cast.{set_find}
use final_designer.Define.{AppenderDefine, LogDefine, define_eq, define_lt}
use final_designer.Formatter.Scan.{Formatter, new_formatter, init_output}
use final_designer.Level.{Level, info}
use final_designer.Logging.Log.{log_macro}
use final_designer.Logging.Logger.{add_appender, clear_appenders, set_level, set_pattern}
use final_designer.Logging.Manager.{get_logger}
use final_designer.Logging.World.{
  Appender, World, new_console, new_file, appender_set_formatter, print,
}
use final_designer.Prelude.{
  ℕ, pos, Bool, false, List, [], ◌∷◌, ◌++◌, Text, codes, Option, none, some, decimal, length,
  is_empty, ◌==◌, if◌then◌else◌,
}

-- The new appender of a class, `none` for a null pointer.
unfoldable pub make_appender : AppenderDefine → Option Appender
make_appender a =
    if a.type == 1 then some (new_file a.file) else if a.type == 2 then some new_console else none

abbrev pub invalid_formatter : AppenderDefine → Text
invalid_formatter a =
    codes " appender type = "
    ++ (decimal a.type ++ (codes " formatter = " ++ (a.formatter ++ codes " is invalid \n")))

-- Its level and its own formatter, and what is printed about that.
unfoldable pub dress : AppenderDefine → Appender → Text × Appender
unfolding appender_set_formatter
dress d a =
    let levelled : Appender = record a { level = d.level } in
    let f : Formatter = new_formatter d.formatter in
    if is_empty d.formatter
    then ([], levelled)
    else if f.is_error
    then (init_output d.formatter ++ invalid_formatter d, levelled)
    else (init_output d.formatter, appender_set_formatter levelled (some f))

-- The body of the loop over the appenders, for the logger at an address.
unfoldable pub set_up_appender : World → ℕ → AppenderDefine → Option World
unfolding make_appender dress
set_up_appender w i d = elim (make_appender d) [
  | none ↦ none
  | some a ↦
      let (text, dressed) = dress d a in
      some (
        add_appender (record (print w text) { appenders = w.appenders ++ dressed ∷ [] }) i
          (length w.appenders))
]

unfoldable pub set_up_appenders : World → ℕ → List AppenderDefine → Option World
unfolding set_up_appender
set_up_appenders w i [] = some w
set_up_appenders w i (d ∷ ds) = elim (set_up_appender w i d) [
  | none ↦ none
  | some w' ↦ set_up_appenders w' i ds
]

-- What the listener does for a definition that is new or has changed.
unfoldable pub set_up : World → LogDefine → Option World
unfolding set_up_appenders
set_up w d =
    let (w1, i) = get_logger w d.name in
    let w2 : World = set_level w1 i d.level in
    let w3 : World = if is_empty d.formatter then w2 else set_pattern w2 i d.formatter in
    set_up_appenders (clear_appenders w3 i) i d.appenders

-- The definition was there before, and is equal.
unfoldable pub is_unchanged : List LogDefine → LogDefine → Bool
unfolding set_find
is_unchanged old d = elim (set_find define_lt old d) [ none ↦ false | some e ↦ define_eq d e ]

-- The loop over the new definitions.
unfoldable pub set_up_all : World → List LogDefine → List LogDefine → Option World
unfolding set_up is_unchanged
set_up_all w old [] = some w
set_up_all w old (d ∷ ds) =
    if is_unchanged old d
    then set_up_all w old ds
    else elim (set_up w d) [ none ↦ none | some w' ↦ set_up_all w' old ds ]

-- The level that stands for a logger that has been taken out.
abbrev pub removed_level : Level
removed_level = 100

unfoldable pub take_out : World → LogDefine → World
take_out w d = let (w1, i) = get_logger w d.name in clear_appenders (set_level w1 i removed_level) i

-- The loop over the old definitions.
unfoldable pub take_out_all : World → List LogDefine → List LogDefine → World
unfolding take_out set_find
take_out_all w new [] = w
take_out_all w new (d ∷ ds) = elim (set_find define_lt new d) [
  | none ↦ take_out_all (take_out w d) new ds
  | some e ↦ take_out_all w new ds
]

-- The whole listener, in a source file, called by a thread at a time.
module _ (local_time : Text → ℕ → Text) (file : Text) (thread fiber now : ℕ) where
  unfoldable pub announce : World → Option World
  announce w =
      log_macro local_time w w.main info file (pos 786) thread fiber now
        (codes "on_logger_conf_changed")

  unfoldable pub on_change : World → List LogDefine → List LogDefine → Option World
  unfolding set_up_all take_out_all announce
  on_change w old new = elim (announce w) [
    | none ↦ none
    | some w1 ↦ elim (set_up_all w1 old new) [
      | none ↦ none
      | some w2 ↦ some (take_out_all w2 new old)
    ]
  ]
