-- ===== src/Locks/Safety.antt =====
-- When code that acts on the store is safe: one access or one lock, then the rest.
pub mod OfAppenders
pub mod OfLogging
pub mod OfLoggers
pub mod OfManagers
pub mod OfPrograms
use final_designer.Formatter.Scan.{Formatter}
use final_designer.Locks.Access.{
  follow, read, read_logger, read_appender, write_logger, write_appender, kept, attempt,
}
use final_designer.Locks.Code.{
  Lock, Mode, exclusive, Code, act, take, release, Hold, owns, logger, appender,
}
use final_designer.Locks.Modes.{lock_eq_refl}
use final_designer.Locks.Safe.{IsAbove, IsSafe, Rely}
use final_designer.Locks.Store.{
  Inv, IsAppender, Later, Later-refl, Later-trans, lock_rank, store_rules,
}
use final_designer.Locks.Store.Puts.{put_logger-Allowed, put_appender-Allowed}
use final_designer.Locks.Store.Writes.{Allowed, Same, Same-Allowed}
use final_designer.Logging.Invariant.{AreReady, IsLogger}
use final_designer.Logging.Logger.{on_logger, on_appender}
use final_designer.Logging.Preserve.{Fits}
use final_designer.Logging.World.{Appender, Logger, World, put_appender, put_logger}
use final_designer.Prelude.{
  ℕ, ◌<◌, ◌≡◌, refl, Bool, true, false, if◌then◌else◌, List, [], ◌∷◌, Option, none, some, get_elem?,
  arith,
}

-- The locks of a thread behind one more.
abbrev pub with_appender : List Hold → ℕ → List Hold
with_appender held j = record { lock = appender j; mode = exclusive } ∷ held

abbrev pub with_logger : List Hold → ℕ → List Hold
with_logger held i = record { lock = logger i; mode = exclusive } ∷ held

pub AreReady-Later : (w w' : World) (js : List ℕ) → Later w w' → AreReady w js → AreReady w' js
AreReady-Later w w' [] a r = tt
AreReady-Later w w' (j ∷ js) a (r, rs) = (a.ready j r, AreReady-Later w w' js a rs)

module _ (top : ℕ) where
  -- Safe with the locks `held`, in any state that can come after `w`.
  abbrev pub Onward : List Hold → World → Code World → Type 0
  Onward held w k = (w' : World) → Later w w' → Inv top w' → IsSafe (store_rules top) w' held k

  pub Onward-Later :
      (held : List Hold) (w w' : World) (k : Code World)
      → Later w w'
      → Onward held w k
      → Onward held w' k
  Onward-Later held w w' k a h = λ x b i. h x (Later-trans w w' x a b) i

  pub act-IsSafe :
      (held : List Hold) (w : World) (g : World → World) (k : World → Code World)
      → ((w' : World)
          → Later w w'
          → Inv top w'
          → Allowed top held w' (g w') × IsSafe (store_rules top) (g w') held (k w'))
      → IsSafe (store_rules top) w held (act g k)
  unfolding IsSafe
  act-IsSafe held w g k h = λ w' r i. let (a, s) = h w' r.later i in (a.inv, a.promise, s)

  -- An access that changes nothing needs no lock.
  pub unchanged : (held : List Hold) (w : World) → Inv top w → Allowed top held w w
  unchanged held w i = Same-Allowed top held w w i (record {
    loggers = refl;
    table = refl;
    main = refl;
    appenders = λ j a e. (a, e, refl, refl);
  })

  pub read-IsSafe :
      (held : List Hold) (w : World) (k : World → Code World)
      → ((w' : World) → Later w w' → Inv top w' → IsSafe (store_rules top) w' held (k w'))
      → IsSafe (store_rules top) w held (read k)
  read-IsSafe held w k h = act-IsSafe held w (λ x. x) k λ w' l i. (unchanged held w' i, h w' l i)

  pub read_logger-IsSafe :
      (held : List Hold) (w : World) (i : ℕ) (l : Logger) (f : Logger → Code World)
      → IsLogger w i l
      → ((w' : World) (l' : Logger)
          → Later w w'
          → Inv top w'
          → IsLogger w' i l'
          → IsSafe (store_rules top) w' held (f l'))
      → IsSafe (store_rules top) w held (read_logger i f)
  read_logger-IsSafe held w i l f e h =
      read-IsSafe held w _
        λ w' a v. let (l', e', n, r) = a.loggers i l e in rw (e', follow) (h w' l' a v e')

  pub read_appender-IsSafe :
      (held : List Hold) (w : World) (j : ℕ) (x : Appender) (f : Appender → Code World)
      → IsAppender w j x
      → ((w' : World) (x' : Appender)
          → Later w w'
          → Inv top w'
          → IsAppender w' j x'
          → IsSafe (store_rules top) w' held (f x'))
      → IsSafe (store_rules top) w held (read_appender j f)
  read_appender-IsSafe held w j x f e h =
      read-IsSafe held w _
        λ w' a v. let (x', e') = a.appenders j x e in rw (e', follow) (h w' x' a v e')

  pub write_logger-IsSafe :
      (held : List Hold) (w : World) (i : ℕ) (l : Logger) (g : Logger → Logger) (k : Code World)
      → IsLogger w i l
      → ((w' : World) (l' : Logger)
          → Later w w'
          → Inv top w'
          → IsLogger w' i l'
          → Fits w' l' (g l')
            × ((g l').name ≡ l'.name)
            × (owns held (logger i) ≡ false
                → ((g l').appenders ≡ l'.appenders) × ((g l').formatter ≡ l'.formatter)))
      → Onward held w k
      → IsSafe (store_rules top) w held (write_logger i g k)
  write_logger-IsSafe held w i l g k e h rest = act-IsSafe held w _ _ λ w' a v.
      let (l', e', n, r) = a.loggers i l e in
      let (fit, name, under) = h w' l' a v e' in
      let ok_ = put_logger-Allowed top held w' v i l' (g l') e' fit name under in
      rw (e', follow, on_logger) (ok_, rest _ (Later-trans w w' _ a ok_.promise.later) ok_.inv)

  pub write_appender-IsSafe :
      (held : List Hold) (w : World) (j : ℕ) (x : Appender) (g : Appender → Appender)
      (k : Code World)
      → IsAppender w j x
      → ((w' : World) (x' : Appender)
          → Later w w'
          → Inv top w'
          → IsAppender w' j x'
          → Allowed top held w' (put_appender w' j (g x')))
      → Onward held w k
      → IsSafe (store_rules top) w held (write_appender j g k)
  write_appender-IsSafe held w j x g k e h rest = act-IsSafe held w _ _ λ w' a v.
      let (x', e') = a.appenders j x e in
      let ok_ = h w' x' a v e' in
      rw (e', follow, on_appender) (ok_, rest _ (Later-trans w w' _ a ok_.promise.later) ok_.inv)

  pub take-IsSafe :
      (held : List Hold) (w : World) (l : Lock) (m : Mode) (k : Code World)
      → IsAbove (store_rules top) held l
      → Onward (record { lock = l; mode = m } ∷ held) w k
      → IsSafe (store_rules top) w held (take l m k)
  unfolding IsSafe
  take-IsSafe held w l m k above h = (above, λ w' r v. h w' r.later v)

  pub release-IsSafe :
      (held : List Hold) (w : World) (l : Lock) (m : Mode) (k : Code World)
      → IsSafe (store_rules top) w held k
      → IsSafe (store_rules top) w (record { lock = l; mode = m } ∷ held) (release l k)
  unfolding IsSafe
  release-IsSafe held w l m k h = (m, held, refl, h)

  -- Locks below one lock are below those behind it.
  pub IsAbove-lt :
      (held : List Hold) (x y : Lock)
      → IsAbove (store_rules top) held x
      → lock_rank top x < lock_rank top y
      → IsAbove (store_rules top) held y
  IsAbove-lt [] x y a h = tt
  IsAbove-lt (z ∷ held) x y (a, rest) h = (omega (arith, a, h), IsAbove-lt held x y rest h)

  pub attempt-IsSafe :
      (held : List Hold) (w : World) (g : World → Option World) (k : Code World)
      → ((w' : World) → Later w w' → Inv top w' → (w'' : World) × (g w' ≡ some w'') × Same w' w'')
      → Onward held w k
      → IsSafe (store_rules top) w held (attempt g k)
  attempt-IsSafe held w g k h rest = act-IsSafe held w _ _ λ w' a v.
      let (w'', e, same) = h w' a v in
      let ok_ = Same-Allowed top held w' w'' v same in
      rw (e, kept, follow) (ok_, rest w'' (Later-trans w w' w'' a ok_.promise.later) ok_.inv)

  pub if-IsSafe :
      (held : List Hold) (w : World) (b : Bool) (x y : Code World)
      → IsSafe (store_rules top) w held x
      → IsSafe (store_rules top) w held y
      → IsSafe (store_rules top) w held (if b then x else y)
  if-IsSafe held w true x y h k = h
  if-IsSafe held w false x y h k = k

  -- A lock that is held alone.
  pub owns_head :
      (held : List Hold) (l : Lock) → owns (record { lock = l; mode = exclusive } ∷ held) l ≡ true
  unfolding owns
  owns_head held l = ground (arith, lock_eq_refl l)

  pub IsAbove-logger :
      (held : List Hold) (i j : ℕ)
      → IsAbove (store_rules top) held (logger i)
      → IsAbove (store_rules top) (with_logger held i) (appender j)
  IsAbove-logger held i j a = (lt i, IsAbove-lt held (logger i) (appender j) a (lt i))
    where
      lt : (i : ℕ) → lock_rank top (logger i) < 5
      lt i = ground arith
