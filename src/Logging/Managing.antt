-- ===== src/Logging/Managing.antt =====
-- `LoggerManager`: one logger for each name, and a valid store from the start.

use final_designer.Formatter.Scan.{Formatter}
use final_designer.Logging.Invariant.{
  AreReady, IsLogger, IsValid, Keeps, Keeps-refl, AreReady-Keeps,
}
use final_designer.Logging.Logger.{new_logger, add_appender}
use final_designer.Logging.Manager.{find_logger, get_logger, new_manager}
use final_designer.Logging.Sink.{Disk}
use final_designer.Logging.World.{Logger, World}
use final_designer.Prelude.{
  ℕ, zero, suc, if◌then◌else◌, some-injective, ◌≡◌, ◌≢◌, inl, inr, Option-cases, refl, ◌∙◌, sym, ap,
  subst, [], ◌∷◌, ◌++◌, Text, none, some, get_elem?, arith, text_eq, text_eq_iff, text_eq_refl,
  text_eq-eq-false, length, get_elem?-append, get_elem?-append_last, get_elem?-append_cases,
  Bool-cases,
}

pub new_logger-formatted : (name : Text) → (f : Formatter) × ((new_logger name).formatter ≡ some f)
unfolding new_logger
new_logger-formatted name = (_, refl)

-- A new logger under the main one.
pub get_logger-IsValid : (w : World) (name : Text) → IsValid w → IsValid (get_logger w name).0
unfolding get_logger new_logger
get_logger-IsValid w name v = elim (Option-cases (find_logger w.table name)) [
  | inr (i, e) ↦ rw (e, get_logger) v
  | inl e ↦
      rw (e, get_logger)
        (record {
          ready = λ i l h. elim (get_elem?-append_cases w.loggers _ i l h) [
            | inl old ↦ AreReady-Keeps l.appenders same (v.ready i l old)
            | inr new ↦ rw new tt
          ];
          formatted = λ i l h. elim (get_elem?-append_cases w.loggers _ i l h) [
            | inl old ↦ v.formatted i l old
            | inr new ↦ rw new (new_logger-formatted name)
          ];
          rooted = λ i l r h q. elim (get_elem?-append_cases w.loggers _ i l h) [
            | inl old ↦ more r (v.rooted i l r old q)
            | inr new ↦
                let m : w.main ≡ r = ground (arith, new, q) in
                subst
                  (λ (k : ℕ).
                    (n : Logger) × (get_elem?
                        (w.loggers ++ record (new_logger name) { root = some w.main } ∷ []) k
                      ≡ some n)
                    × (n.root ≡ none))
                  m (more w.main v.headed)
          ];
          headed = more w.main v.headed;
        })
]
  where
    same : Keeps w w
    same = Keeps-refl w

    more :
        (r : ℕ)
        → (k : Logger) × IsLogger w r k × (k.root ≡ none)
        → (k : Logger) × (get_elem?
              (w.loggers ++ record (new_logger name) { root = some w.main } ∷ [])
              r
            ≡ some k)
          × (k.root ≡ none)
    more r (k, h, n) = (k, get_elem?-append w.loggers _ r k h, n)

-- The store that the constructor of the manager builds.
pub new_manager-IsValid : (d : Disk) → IsValid (new_manager d)
unfolding new_manager add_appender new_logger
new_manager-IsValid d = record {
  ready = ready;
  formatted = formatted;
  rooted = rooted;
  headed = (_, refl, refl);
}
  where
    ready :
        (i : ℕ) (l : Logger) → IsLogger (new_manager d) i l → AreReady (new_manager d) l.appenders
    ready zero l h =
        subst (λ (m : Logger). AreReady (new_manager d) m.appenders) (some-injective _ _ h)
          ((_, _, refl, refl), tt)
    ready (suc i) l h = cc

    formatted :
        (i : ℕ) (l : Logger)
        → IsLogger (new_manager d) i l
        → (f : Formatter) × (l.formatter ≡ some f)
    formatted zero l h =
        subst (λ (m : Logger). (f : Formatter) × (m.formatter ≡ some f)) (some-injective _ _ h)
          (_, refl)
    formatted (suc i) l h = cc

    rooted :
        (i : ℕ) (l : Logger) (r : ℕ)
        → IsLogger (new_manager d) i l
        → l.root ≡ some r
        → (k : Logger) × IsLogger (new_manager d) r k × (k.root ≡ none)
    rooted zero l r h q = ground (arith, h, q)
    rooted (suc i) l r h q = cc

-- The manager's map leads each name to a logger of that name.
abbrev pub IsNamed : World → Type 0
IsNamed w =
    (n : Text) (i : ℕ)
    → find_logger w.table n ≡ some i
    → (l : Logger) × IsLogger w i l × (l.name ≡ n)

-- `getLogger(a)` leaves `a` leading to what it returns and every other name where it led, and a
-- second call returns the same and changes nothing.
pub get_logger_lem :
    (w : World) (a b : Text)
    → (find_logger (get_logger w a).0.table b
        ≡ (if text_eq a b then some (get_logger w a).1 else find_logger w.table b))
      × (get_logger (get_logger w a).0 a ≡ get_logger w a)
unfolding get_logger find_logger
get_logger_lem w a b = elim (Option-cases (find_logger w.table a)) [
  | inr (i, e) ↦ (ground (arith, e, text_eq_iff a b), ground (arith, e))
  | inl e ↦ (ground (arith, e), ground (arith, e, text_eq_refl a))
]

-- The logger that `getLogger` returns has the name asked for, and so does every logger of the map.
pub get_logger-IsNamed :
    (w : World) (a : Text)
    → IsNamed w
    → IsNamed (get_logger w a).0
      × ((l : Logger) × IsLogger (get_logger w a).0 (get_logger w a).1 l × (l.name ≡ a))
unfolding get_logger find_logger new_logger
get_logger-IsNamed w a h = elim (Option-cases (find_logger w.table a)) [
  | inr (i, e) ↦ rw (e, get_logger) (h, h a i e)
  | inl e ↦ rw (e, get_logger) (named, (_, get_elem?-append_last w.loggers _, refl))
]
  where
    made : Logger
    made = record (new_logger a) { root = some w.main }

    named :
        IsNamed
          (record w { loggers = w.loggers ++ made ∷ []; table = (a, length w.loggers) ∷ w.table })
    named n i q = elim (Bool-cases (text_eq a n)) [
      | inl same ↦
          let at_end : length w.loggers ≡ i = ground (arith, same, q) in
          (made, rw (← at_end) (get_elem?-append_last w.loggers made), (text_eq_iff a n).0 same)
      | inr other ↦
          let (l, k, m) = h n i (ground (arith, other, q)) in
          (l, get_elem?-append w.loggers _ i l k, m)
    ]

-- Loggers of two names are two loggers.
pub get_logger_injective :
    (w : World) (a b : Text)
    → IsNamed w
    → a ≢ b
    → (get_logger w a).1 ≢ (get_logger (get_logger w a).0 b).1
get_logger_injective w a b h ne e =
    let w1 : World = (get_logger w a).0 in
    let named = (get_logger-IsNamed w a h).0 in
    let (named', (l', k', m')) = get_logger-IsNamed w1 b named in
    let still =
      (get_logger_lem w1 b a).0
      ∙ rw (text_eq-eq-false b a (λ q. ne (sym q)))
          ((get_logger_lem w a a).0 ∙ rw (text_eq_refl a)) in
    let (l, k, m) = named' a (get_logger w a).1 still in
    ne (
      sym m
      ∙ ap (λ (n : Logger). n.name)
          (some-injective _ _ (sym k ∙ ap (get_elem? (get_logger w1 b).0.loggers) e ∙ k'))
      ∙ m')
