-- ===== src/Define/LoggerText.antt =====
-- What the reader of definitions makes of the text that a logger describes itself by.
use final_designer.Level.{Level}
use final_designer.Logging.World.{Appender, World}
use final_designer.Prelude.{ℕ, List, [], ◌∷◌, Option, none, some, get_elem?}

-- The appenders that the addresses lead to.
abbrev pub appenders_at : World → List ℕ → Option (List Appender)
appenders_at w [] = some []
appenders_at w (j ∷ js) = elim (get_elem? w.appenders j) [
  | none ↦ none
  | some a ↦ elim (appenders_at w js) [ none ↦ none | some more ↦ some (a ∷ more) ]
]
