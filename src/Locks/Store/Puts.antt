-- ===== src/Locks/Store/Puts.antt =====
-- Writes of a logger, of an appender's formatter and of the manager's map, under their locks.
use final_designer.Formatter.Scan.{Formatter}
use final_designer.Locks.Code.{Lock, registry, variable, manager, logger, appender, Hold, owns}
use final_designer.Locks.Store.{Inv, AreLoggers-Later, IsAppender, Later, Guard}
use final_designer.Locks.Store.Writes.{Allowed, Keeps-Inv, Keeps-Later}
use final_designer.Logging.Invariant.{IsLogger, Keeps, Keeps-put}
use final_designer.Logging.Preserve.{Fits, put_logger-IsValid}
use final_designer.Logging.World.{Appender, Logger, World, put_appender, put_logger}
use final_designer.Prelude.{
  ℕ, ◌≡◌, ◌≢◌, ◌⊎◌, refl, sym, ap, ◌∙◌, false, List, some, get_elem?, arith, subst, inl, inr,
  get_elem?-set_hit, get_elem?-set_ne, get_elem?-set_view, some-injective, Bool-cases, ◌==◌, ==_iff,
}

module _ (top : ℕ) (held : List Hold) (w : World) (v : Inv top w) where
  -- A write of a logger: its level, or under its lock its list or its formatter.
  module _ (i : ℕ) (l l' : Logger) (e : IsLogger w i l) (fit : Fits w l l')
      (n : l'.name ≡ l.name) where
    found :
        (k : ℕ) (m : Logger)
        → IsLogger w k m
        → (m' : Logger) × IsLogger (put_logger w i l') k m'
          × (((m ≡ l) × (i ≡ k) × (m' ≡ l')) ⊎ ((m' ≡ m) × (i ≢ k)))
    found k m f = elim (Bool-cases (i == k)) [
      | inl same ↦
          let q : i ≡ k = (==_iff i k).0 same in
          (
            l',
            subst (λ (x : ℕ). IsLogger (put_logger w i l') x l') q
                (get_elem?-set_hit w.loggers i l' l e),
            inl (some-injective _ _ (sym f ∙ ap (get_elem? w.loggers) (sym q) ∙ e), q, refl),
          )
      | inr other ↦
          let ne : i ≢ k = λ q. ground (arith, (==_iff i k).1 q, other) in
          (m, get_elem?-set_ne w.loggers l' ne ∙ f, inr (refl, ne))
    ]

    -- What is the same in the logger that is written is the same in every logger.
    carried :
        {B : Type 0} (f : Logger → B) (k : ℕ) (m m' : Logger)
        → ((m ≡ l) × (i ≡ k) × (m' ≡ l')) ⊎ ((m' ≡ m) × (i ≢ k))
        → (i ≡ k → f l' ≡ f l)
        → f m' ≡ f m
    carried f k m m' (inl (a, b, d)) q = ap f d ∙ q b ∙ ap f (sym a)
    carried f k m m' (inr (a, b)) q = ap f a

    pub put_logger-Allowed :
        ((owns held (logger i) ≡ false)
          → (l'.appenders ≡ l.appenders) × (l'.formatter ≡ l.formatter))
        → Allowed top held w (put_logger w i l')
    unfolding Guard
    put_logger-Allowed under = record {
      inv = record {
        valid = put_logger-IsValid w i l l' v.valid e fit;
        named = λ x k q.
            let (m, f, p) = v.named x k q in
            let (m', f', c) = found k m f in
            (m', f', carried (λ (y : Logger). y.name) k m m' c (λ b. n) ∙ p);
        entries = AreLoggers-Later w (put_logger w i l') w.table later v.entries;
        main = v.main;
        under_main = λ k m r f q. elim (get_elem?-set_view w.loggers i k l' l m e f) [
          | inl (a, b) ↦
              v.under_main i l r e (sym fit.root ∙ ap (λ (y : Logger). y.root) (sym b) ∙ q)
          | inr (a, b) ↦ v.under_main k m r b q
        ];
      };
      promise = record { later = later; guard = guard };
    }
      where
        later : Later w (put_logger w i l')
        later = record {
          loggers = λ k m f.
              let (m', f', c) = found k m f in
              (
                m',
                f',
                carried (λ (y : Logger). y.name) k m m' c (λ b. n),
                carried (λ (y : Logger). y.root) k m m' c (λ b. fit.root),
              );
          appenders = λ j a f. (a, f);
          ready = λ j r. r;
          table = λ x k q. q;
        }

        guard : (x : Lock) → owns held x ≡ false → Guard x w (put_logger w i l')
        guard registry o = tt
        guard (variable k) o = tt
        guard manager o = refl
        guard (appender j) o = λ a f. (a, f, refl, refl)
        guard (logger k) o = λ m f.
            let (m', f', c) = found k m f in
            (
              m',
              f',
              carried (λ (y : Logger). y.appenders) k m m' c (λ b. (kept b).0),
              carried (λ (y : Logger). y.formatter) k m m' c (λ b. (kept b).1),
            )
          where
            kept : i ≡ k → (l'.appenders ≡ l.appenders) × (l'.formatter ≡ l.formatter)
            kept b = under (ap (λ (y : ℕ). owns held (logger y)) b ∙ o)

  -- A write of an appender that has a formatter, under its lock where the formatter changes.
  pub put_appender-Allowed :
      (j : ℕ) (a a' : Appender) (g : Formatter)
      → IsAppender w j a
      → a'.formatter ≡ some g
      → (owns held (appender j) ≡ false
          → (a'.formatter ≡ a.formatter) × (a'.have_formatter ≡ a.have_formatter))
      → Allowed top held w (put_appender w j a')
  unfolding Guard
  put_appender-Allowed j a a' g e q under = record {
    inv = Keeps-Inv top held w (put_appender w j a') v keeps;
    promise = record {
      later =
          Keeps-Later top held w (put_appender w j a') v keeps
            λ k b f. let (b', f', c) = found k b f in (b', f');
      guard = guard;
    };
  }
    where
      keeps : Keeps w (put_appender w j a')
      keeps = Keeps-put w (put_appender w j a') j a' g q refl (refl, refl, refl)

      found :
          (k : ℕ) (b : Appender)
          → IsAppender w k b
          → (b' : Appender) × IsAppender (put_appender w j a') k b'
            × (((b ≡ a) × (j ≡ k) × (b' ≡ a')) ⊎ (b' ≡ b))
      found k b f = elim (Bool-cases (j == k)) [
        | inl same ↦
            let p : j ≡ k = (==_iff j k).0 same in
            (
              a',
              subst (λ (x : ℕ). IsAppender (put_appender w j a') x a') p
                  (get_elem?-set_hit w.appenders j a' a e),
              inl (some-injective _ _ (sym f ∙ ap (get_elem? w.appenders) (sym p) ∙ e), p, refl),
            )
        | inr other ↦
            let ne : j ≢ k = λ p. ground (arith, (==_iff j k).1 p, other) in
            (b, get_elem?-set_ne w.appenders a' ne ∙ f, inr refl)
      ]

      guard : (x : Lock) → owns held x ≡ false → Guard x w (put_appender w j a')
      guard registry o = tt
      guard (variable k) o = tt
      guard manager o = refl
      guard (logger k) o = λ m f. (m, f, refl, refl)
      guard (appender k) o = λ b f.
          let (b', f', c) = found k b f in
          (
            b',
            f',
            carried_a (λ (y : Appender). y.formatter) b b' c (λ p. (kept p).0),
            carried_a (λ (y : Appender). y.have_formatter) b b' c (λ p. (kept p).1),
          )
        where
          kept : j ≡ k → (a'.formatter ≡ a.formatter) × (a'.have_formatter ≡ a.have_formatter)
          kept p = under (ap (λ (y : ℕ). owns held (appender y)) p ∙ o)

          carried_a :
              {B : Type 0} (f : Appender → B) (b b' : Appender)
              → ((b ≡ a) × (j ≡ k) × (b' ≡ a')) ⊎ (b' ≡ b)
              → (j ≡ k → f a' ≡ f a)
              → f b' ≡ f b
          carried_a f b b' (inl (x, p, y)) h = ap f y ∙ h p ∙ ap f (sym x)
          carried_a f b b' (inr x) h = ap f x
