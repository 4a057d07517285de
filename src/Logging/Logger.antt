-- ===== src/Logging/Logger.antt =====
-- `Logger`, but for `log`.
use final_designer.Formatter.Scan.{Formatter, new_formatter, init_output}
use final_designer.Level.{Level, debug}
use final_designer.Logging.World.{Appender, Logger, World, print, put_appender, put_logger}
use final_designer.Prelude.{
  ℕ, List, [], ◌∷◌, ◌++◌, Text, codes, Option, none, some, get_elem?, ◌==◌, if◌then◌else◌,
}

abbrev pub default_pattern : Text
default_pattern = codes "%d{%Y-%m-%d %H:%M:%S}%T%t%T%F%T[%p]%T[%c]%T%f:%l%T%m%n"

-- `Logger::Logger`
unfoldable pub new_logger : Text → Logger
new_logger name = record {
  name = name;
  level = debug;
  appenders = [];
  formatter = some (new_formatter default_pattern);
  root = none;
}

-- A change of the logger at an address; there is none at a dangling one.
abbrev pub on_logger : World → ℕ → (Logger → World) → World
on_logger w i f = elim (get_elem? w.loggers i) [ none ↦ w | some l ↦ f l ]

abbrev pub on_appender : World → ℕ → (Appender → World) → World
on_appender w i f = elim (get_elem? w.appenders i) [ none ↦ w | some a ↦ f a ]

-- The formatter that `addAppender` leaves an appender with.
abbrev pub inherit : Option Formatter → Appender → Appender
inherit f a = elim a.formatter [ none ↦ record a { formatter = f } | some g ↦ a ]

-- `Logger::addAppender`
unfoldable pub add_appender : World → ℕ → ℕ → World
add_appender w i j = on_logger w i λ l. on_appender w j λ a.
    put_logger (put_appender w j (inherit l.formatter a)) i
      (record l { appenders = l.appenders ++ j ∷ [] })

-- `erase` of the first pointer that is equal.
unfoldable pub erase_first : ℕ → List ℕ → List ℕ
erase_first j [] = []
erase_first j (k ∷ ks) = if k == j then ks else k ∷ erase_first j ks

-- `Logger::delAppender`
unfoldable pub del_appender : World → ℕ → ℕ → World
unfolding erase_first
del_appender w i j =
    on_logger w i λ l. put_logger w i (record l { appenders = erase_first j l.appenders })

-- `Logger::clearAppenders`
unfoldable pub clear_appenders : World → ℕ → World
clear_appenders w i = on_logger w i λ l. put_logger w i (record l { appenders = [] })

-- `Logger::setLevel`
unfoldable pub set_level : World → ℕ → Level → World
set_level w i level = on_logger w i λ l. put_logger w i (record l { level = level })

-- The loop of `Logger::setFormatter` over the appenders.
unfoldable pub refresh : World → Option Formatter → List ℕ → World
refresh w f [] = w
refresh w f (j ∷ js) =
    refresh
      (on_appender w j
        λ a. if a.have_formatter then w else put_appender w j (record a { formatter = f }))
      f js

-- `Logger::setFormatter(LogFormatter::ptr)`
unfoldable pub set_formatter : World → ℕ → Option Formatter → World
unfolding refresh
set_formatter w i f =
    on_logger w i λ l. refresh (put_logger w i (record l { formatter = f })) f l.appenders

-- `Logger::setFormatter(const std::string&)`
unfoldable pub set_pattern : World → ℕ → Text → World
unfolding set_formatter
set_pattern w i val =
    let f : Formatter = new_formatter val in
    let w1 : World = print w (init_output val) in
    on_logger w i λ l.
      if f.is_error
      then print w1 (
          codes "Logger setFormatter name="
          ++ (l.name ++ (codes "value=" ++ (val ++ codes " invalid formatter"))))
      else set_formatter w1 i (some f)
