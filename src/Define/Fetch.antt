-- ===== src/Define/Fetch.antt =====
-- `getLogger` in a store in which no appender is shared.
use final_designer.Define.Apart.{IsApart, IsSound, view_at-some, view-found, view-none}
use final_designer.Define.Frame.{holds}
use final_designer.Define.Views.{formatter_before, view, view_of}
use final_designer.Formatter.Scan.{new_formatter}
use final_designer.Logging.Invariant.{IsLogger, IsValid}
use final_designer.Logging.Logger.{new_logger, default_pattern}
use final_designer.Logging.Manager.{find_logger, get_logger}
use final_designer.Logging.Managing.{IsNamed, get_logger-IsNamed, get_logger-IsValid}
use final_designer.Logging.World.{Logger, World}
use final_designer.Prelude.{
  ℕ, ◌≡◌, refl, ◌∙◌, sym, ap, false, [], ◌∷◌, ◌++◌, Text, none, some, get_elem?-append,
  get_elem?-append_last, get_elem?-append_cases, text_eq, text_eq_refl, arith, inl, inr,
  Option-cases, if◌then◌else◌, length, subst,
}

-- What a call leaves behind.
pub record Fetched (w w' : World) (i : ℕ) (a : Text) : Type 0 where
  pub sound : IsSound w'
  pub logger : Logger
  pub at : IsLogger w' i logger
  pub name : logger.name ≡ a
  pub found : find_logger w'.table a ≡ some i
  pub formatter : logger.formatter ≡ formatter_before (view w a)
  pub others : (n : Text) → text_eq a n ≡ false → view w' n ≡ view w n

module _ (w : World) (s : IsSound w) (a : Text) where
  -- A name that has a logger.
  old : (i : ℕ) → find_logger w.table a ≡ some i → Fetched w w i a
  old i e =
      let (l, h, q) = s.named a i e in
      record {
        sound = s;
        logger = l;
        at = h;
        name = q;
        found = e;
        formatter = ap formatter_before (sym (view-found w a i e ∙ view_at-some w i l h));
        others = λ n ne. refl;
      }

  made : Logger
  made = record (new_logger a) { root = some w.main }

  made_name : made.name ≡ a
  unfolding made new_logger
  made_name = refl

  made_formatter : made.formatter ≡ some (new_formatter default_pattern)
  unfolding made new_logger
  made_formatter = refl

  -- The store with a new logger in it.
  grown : World
  grown = record w { loggers = w.loggers ++ made ∷ []; table = (a, length w.loggers) ∷ w.table }

  get_logger-grown : find_logger w.table a ≡ none → get_logger w a ≡ (grown, length w.loggers)
  unfolding grown made get_logger
  get_logger-grown e = rw (e, get_logger) refl

  grown-IsApart : IsApart grown
  unfolding grown made new_logger
  grown-IsApart i k l m h q ne j x = elim (get_elem?-append_cases w.loggers _ i l h) [
    | inr new ↦ ground (arith, ap (λ (y : Logger). holds y.appenders j) new, x)
    | inl old_i ↦ elim (get_elem?-append_cases w.loggers _ k m q) [
      | inr new ↦ ap (λ (y : Logger). holds y.appenders j) new
      | inl old_k ↦ s.apart i k l m old_i old_k ne j x
    ]
  ]

  still : (k : ℕ) (l : Logger) → IsLogger w k l → IsLogger grown k l
  unfolding grown
  still k l h = get_elem?-append w.loggers _ k l h

  made_at : IsLogger grown (length w.loggers) made
  unfolding grown
  made_at = get_elem?-append_last w.loggers made

  view_of-grown : (m : Logger) → view_of grown m ≡ view_of w m
  unfolding grown
  view_of-grown m = refl

  grown_found :
      (n : Text)
      → find_logger grown.table n
        ≡ (if text_eq a n then some (length w.loggers) else find_logger w.table n)
  unfolding grown find_logger
  grown_found n = refl

  grown_others : (n : Text) → text_eq a n ≡ false → view grown n ≡ view w n
  grown_others n ne = elim (Option-cases (find_logger w.table n)) [
    | inl h ↦ view-none grown n (grown_found n ∙ rw ne h) ∙ sym (view-none w n h)
    | inr (k, h) ↦
        let (m, q, p) = s.named n k h in
        view-found grown n k (grown_found n ∙ rw ne h)
        ∙ view_at-some grown k m (still k m q)
        ∙ ap some (view_of-grown m)
        ∙ sym (view-found w n k h ∙ view_at-some w k m q)
  ]

  new : find_logger w.table a ≡ none → Fetched w grown (length w.loggers) a
  new e = record {
    sound = record {
      valid =
          subst (λ (u : World). IsValid u) (ap (λ (p : World × ℕ). p.0) (get_logger-grown e))
            (get_logger-IsValid w a s.valid);
      named =
          subst (λ (u : World). IsNamed u) (ap (λ (p : World × ℕ). p.0) (get_logger-grown e))
            (get_logger-IsNamed w a s.named).0;
      apart = grown-IsApart;
    };
    logger = made;
    at = made_at;
    name = made_name;
    found = grown_found a ∙ rw (text_eq_refl a) refl;
    formatter = made_formatter ∙ ap formatter_before (sym (view-none w a e));
    others = grown_others;
  }

-- The logger that a call returns has the name asked for, with the formatter that the name stood for
-- or the default one, and every other name stands for what it did.
pub get_logger-Fetched :
    (w : World) (a : Text) → IsSound w → Fetched w (get_logger w a).0 (get_logger w a).1 a
unfolding get_logger
get_logger-Fetched w a s = elim (Option-cases (find_logger w.table a)) [
  | inr (i, e) ↦ rw (e, get_logger) (old w s a i e)
  | inl e ↦
      subst (λ (p : World × ℕ). Fetched w p.0 p.1 a) (sym (get_logger-grown w s a e)) (new w s a e)
]
