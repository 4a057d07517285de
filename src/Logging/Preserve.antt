-- ===== src/Logging/Preserve.antt =====
-- Every operation that changes the store keeps it valid.
use final_designer.Formatter.Scan.{Formatter, new_formatter}
use final_designer.Level.{Level}
use final_designer.Logging.Invariant.{
  IsReady, AreReady, IsLogger, IsValid, Keeps, Keeps-refl, Keeps-trans, AreReady-Keeps, Keeps-put,
  Keeps-IsValid,
}
use final_designer.Logging.Logger.{
  inherit, add_appender, erase_first, del_appender, clear_appenders, set_level, refresh,
  set_formatter, set_pattern, on_logger, on_appender,
}
use final_designer.Logging.World.{Appender, Logger, World, put_appender, put_logger, print}
use final_designer.Prelude.{
  ℕ, ◌≡◌, inl, inr, Option-cases, refl, ◌∙◌, sym, ap, Bool, true, false, List, [], ◌∷◌, ◌++◌, Text,
  none, some, get_elem?, arith, if◌then◌else◌, Bool-cases, ◌==◌, get_elem?-set_cases,
  get_elem?-set-some, get_elem?-set_hit, ◌⊎◌,
}

-- A logger that may be written over `l`.
pub record Fits (w : World) (l l' : Logger) : Type 0 where
  pub ready : AreReady w l'.appenders
  pub formatted : (f : Formatter) × (l'.formatter ≡ some f)
  pub root : l'.root ≡ l.root

pub put_logger-IsValid :
    (w : World) (i : ℕ) (l l' : Logger)
    → IsValid w
    → IsLogger w i l
    → Fits w l l'
    → IsValid (put_logger w i l')
put_logger-IsValid w i l l' v e fit = record {
  ready = λ j k h. elim (get_elem?-set_cases w.loggers i j l' k h) [
    | inl q ↦ rw q fit.ready
    | inr q ↦ AreReady-Keeps k.appenders same (v.ready j k q)
  ];
  formatted = λ j k h. elim (get_elem?-set_cases w.loggers i j l' k h) [
    | inl q ↦ rw q fit.formatted
    | inr q ↦ v.formatted j k q
  ];
  rooted = λ j k r h q. elim (get_elem?-set_cases w.loggers i j l' k h) [
    | inl p ↦ top r (v.rooted i l r e (sym fit.root ∙ ap (λ (n : Logger). n.root) (sym p) ∙ q))
    | inr p ↦ top r (v.rooted j k r p q)
  ];
  headed = top w.main v.headed;
}
  where
    same : Keeps w w
    same = Keeps-refl w

    top :
        (r : ℕ)
        → (k : Logger) × IsLogger w r k × (k.root ≡ none)
        → (k : Logger) × IsLogger (put_logger w i l') r k × (k.root ≡ none)
    top r (k, h, n) =
        get_elem?-set-some (λ (m : Logger). m.root ≡ none) w.loggers i r l' (k, h, n)
          (λ q. ground (arith, fit.root, e, h, n, q))

if-IsValid : (b : Bool) (x y : World) → IsValid x → IsValid y → IsValid (if b then x else y)
if-IsValid true x y h k = h
if-IsValid false x y h k = k

print-Keeps : (w : World) (t : Text) → Keeps w (print w t)
print-Keeps w t = record { loggers = refl; table = refl; main = refl; ready = λ j r. r }

-- A store like a valid one, but for appenders that stay ready.
put_appender-Keeps :
    (w : World) (j : ℕ) (a : Appender) (f : Formatter)
    → a.formatter ≡ some f
    → Keeps w (put_appender w j a)
put_appender-Keeps w j a f e = Keeps-put w _ j a f e refl (refl, refl, refl)

pub AreReady-append :
    (w : World) (js : List ℕ) (j : ℕ) → AreReady w js → IsReady w j → AreReady w (js ++ j ∷ [])
AreReady-append w [] j r s = (s, tt)
AreReady-append w (k ∷ js) j r s = (r.0, AreReady-append w js j r.1 s)

pub AreReady-erase_first :
    (w : World) (js : List ℕ) (j : ℕ) → AreReady w js → AreReady w (erase_first j js)
unfolding erase_first
AreReady-erase_first w [] j r = tt
AreReady-erase_first w (k ∷ js) j r = elim (Bool-cases (k == j)) [
  | inl e ↦ rw e r.1
  | inr e ↦ rw e (r.0, AreReady-erase_first w js j r.1)
]

module _ (w : World) (i : ℕ) (v : IsValid w) where
  -- The cases of a change of one logger.
  on_logger-IsValid :
      (f : Logger → World)
      → ((l : Logger) → IsLogger w i l → IsValid (f l))
      → IsValid (on_logger w i f)
  on_logger-IsValid f h = elim (Option-cases (get_elem? w.loggers i)) [
    | inl e ↦ rw (e, on_logger) v
    | inr (l, e) ↦ rw (e, on_logger) (h l e)
  ]

  pub del_appender-IsValid : (j : ℕ) → IsValid (del_appender w i j)
  unfolding del_appender
  del_appender-IsValid j = on_logger-IsValid _ λ l e. put_logger-IsValid w i l _ v e (record {
    ready = AreReady-erase_first w l.appenders j (v.ready i l e);
    formatted = v.formatted i l e;
    root = refl;
  })

  pub clear_appenders-IsValid : IsValid (clear_appenders w i)
  unfolding clear_appenders
  clear_appenders-IsValid = on_logger-IsValid _ λ l e.
      put_logger-IsValid w i l _ v e
        (record { ready = tt; formatted = v.formatted i l e; root = refl })

  pub set_level-IsValid : (level : Level) → IsValid (set_level w i level)
  unfolding set_level
  set_level-IsValid level = on_logger-IsValid _ λ l e.
      put_logger-IsValid w i l _ v e
        (record { ready = v.ready i l e; formatted = v.formatted i l e; root = refl })

  -- The logger's formatter stands in for one that the appender lacks.
  pub add_appender-IsValid :
      (j : ℕ) (a : Appender) → get_elem? w.appenders j ≡ some a → IsValid (add_appender w i j)
  unfolding add_appender
  add_appender-IsValid j a h =
      on_logger-IsValid _ λ l e. rw (h, on_appender) (added l e (inherited l (v.formatted i l e)))
    where
      inherited :
          (l : Logger)
          → (f : Formatter) × (l.formatter ≡ some f)
          → (f : Formatter) × ((inherit l.formatter a).formatter ≡ some f)
      inherited l (f, q) = elim (Option-cases a.formatter) [
        | inl n ↦ (f, ground arith)
        | inr (g, n) ↦ (g, ground arith)
      ]

      added :
          (l : Logger)
          → IsLogger w i l
          → (f : Formatter) × ((inherit l.formatter a).formatter ≡ some f)
          → IsValid (
              put_logger
                (put_appender w j (inherit l.formatter a))
                i
                (record l { appenders = l.appenders ++ j ∷ [] }))
      added l e (f, q) =
          let k = put_appender-Keeps w j (inherit l.formatter a) f q in
          put_logger-IsValid _ i l _ (Keeps-IsValid k v) e (record {
            ready =
                AreReady-append (put_appender w j (inherit l.formatter a)) l.appenders j
                  (AreReady-Keeps l.appenders k (v.ready i l e))
                  (_, f, get_elem?-set_hit w.appenders j _ a h, q);
            formatted = v.formatted i l e;
            root = refl;
          })

refresh-Keeps : (js : List ℕ) (w : World) (f : Formatter) → Keeps w (refresh w (some f) js)
unfolding refresh
refresh-Keeps [] w f = Keeps-refl w
refresh-Keeps (j ∷ js) w f =
    Keeps-trans (step (Option-cases (get_elem? w.appenders j))) (refresh-Keeps js _ f)
  where
    step :
        (get_elem? w.appenders j ≡ none) ⊎ ((a : Appender) × (get_elem? w.appenders j ≡ some a))
        → Keeps w (
            on_appender w j λ a.
              if a.have_formatter then w else put_appender w j (record a { formatter = some f }))
    step (inl e) = rw (e, on_appender) (Keeps-refl w)
    step (inr (a, e)) =
        rw (e, on_appender)
          (elim (Bool-cases a.have_formatter) [
            | inl own ↦ rw own (Keeps-refl w)
            | inr none_ ↦ rw none_ (put_appender-Keeps w j _ f refl)
          ])

-- A formatter that is not null keeps the store valid.
pub set_formatter-IsValid :
    (w : World) (i : ℕ) (f : Formatter) → IsValid w → IsValid (set_formatter w i (some f))
unfolding set_formatter
set_formatter-IsValid w i f v = on_logger-IsValid w i v _ λ l e.
    Keeps-IsValid (refresh-Keeps l.appenders _ f) (
      put_logger-IsValid w i l _ v e
        (record { ready = v.ready i l e; formatted = (f, refl); root = refl }))

pub set_pattern-IsValid :
    (w : World) (i : ℕ) (val : Text) → IsValid w → IsValid (set_pattern w i val)
unfolding set_pattern
set_pattern-IsValid w i val v = on_logger-IsValid w i v _ λ l e.
    if-IsValid (new_formatter val).is_error _ _
      (Keeps-IsValid (print-Keeps _ _) (Keeps-IsValid (print-Keeps w _) v))
      (set_formatter-IsValid _ i (new_formatter val) (Keeps-IsValid (print-Keeps w _) v))
