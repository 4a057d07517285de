-- ===== src/Locks/Safety/OfLoggers.antt =====
-- The operations of a logger that change it are safe.
use final_designer.Formatter.Scan.{Formatter, new_formatter}
use final_designer.Level.{Level}
use final_designer.Locks.Access.{follow, write_logger}
use final_designer.Locks.Code.{Code, act, take, release, Hold, owns, exclusive, appender, logger}
use final_designer.Locks.Loggers.{
  add_appender, adding, erasing, setting, push_appender, inherit_formatter, del_appender, set_level,
  refresh, set_formatter, set_pattern, use_pattern, get_logger_formatter,
}
use final_designer.Locks.Safe.{IsAbove, IsSafe}
use final_designer.Locks.Safety.{
  Onward, Onward-Later, act-IsSafe, read_appender-IsSafe, read_logger-IsSafe, write_logger-IsSafe,
  take-IsSafe, release-IsSafe, if-IsSafe, owns_head, with_appender, with_logger, IsAbove-logger,
  AreReady-Later,
}
use final_designer.Locks.Safety.OfAppenders.{get_formatter-IsSafe, print-Same}
use final_designer.Locks.Store.{Inv, IsAppender, Later, Later-refl, Later-trans, store_rules}
use final_designer.Locks.Store.Puts.{put_appender-Allowed}
use final_designer.Locks.Store.Writes.{Same-Allowed}
use final_designer.Logging.Invariant.{IsReady, AreReady, IsLogger}
use final_designer.Logging.Logger.{on_appender}
use final_designer.Logging.Preserve.{Fits, AreReady-append, AreReady-erase_first}
use final_designer.Logging.World.{Appender, Logger, World, print}
use final_designer.Prelude.{
  ℕ, ◌≡◌, refl, true, List, [], ◌∷◌, Text, Option, none, some, arith, Bool-cases, Option-cases, inl,
  inr, get_elem?-set_hit,
}

module _ (top : ℕ) (held : List Hold) where
  -- The list or the formatter of a logger is written under its lock, which is held.
  locked_write :
      (w : World) (i : ℕ) (l : Logger) (g : Logger → Logger) (k : Code World)
      → owns held (logger i) ≡ true
      → IsLogger w i l
      → ((w' : World) (l' : Logger)
          → Later w w'
          → Inv top w'
          → IsLogger w' i l'
          → Fits w' l' (g l') × ((g l').name ≡ l'.name))
      → Onward top held w k
      → IsSafe (store_rules top) w held (write_logger i g k)
  locked_write w i l g k own e h = write_logger-IsSafe top held w i l g k e λ w' l' a v e'.
      let (fit, name) = h w' l' a v e' in (fit, name, λ o. absurd (ground (arith, own, o)))

  -- An appender gets the formatter of a logger, which is not null.
  inherit_formatter-IsSafe :
      (w : World) (i j : ℕ) (l : Logger) (x : Appender) (k : Code World)
      → owns held (appender j) ≡ true
      → IsLogger w i l
      → IsAppender w j x
      → ((w' : World) → Later w w' → Inv top w' → IsReady w' j → IsSafe (store_rules top) w' held k)
      → IsSafe (store_rules top) w held (inherit_formatter i j k)
  inherit_formatter-IsSafe w i j l x k own e f rest =
      read_logger-IsSafe top held w i l _ e λ w1 l1 a1 v1 e1.
        let (g, q) = v1.valid.formatted i l1 e1 in
        act-IsSafe top held w1 _ _ λ w2 a2 v2.
          let (x1, f1) = a1.appenders j x f in
          let (x2, f2) = a2.appenders j x1 f1 in
          let x3 : Appender = record x2 { formatter = l1.formatter } in
          let ok_ =
            put_appender-Allowed top held w2 v2 j x2 x3 g f2 q (λ o. ground (arith, own, o)) in
          rw (f2, follow, on_appender)
            (
              ok_,
              rest _ (Later-trans w w2 _ (Later-trans w w1 w2 a1 a2) ok_.promise.later) ok_.inv
                  (x3, g, get_elem?-set_hit w2.appenders j x3 x2 f2, q),
            )

  -- Output changes nothing else.
  printing-IsSafe :
      (w : World) (t : Text) (k : Code World)
      → Onward top held w k
      → IsSafe (store_rules top) w held (act (λ u. print u t) λ u. k)
  printing-IsSafe w t k rest = act-IsSafe top held w _ _ λ w1 a1 v1.
      let ok_ = Same-Allowed top held w1 _ v1 (print-Same w1 _) in
      (ok_, rest _ (Later-trans w w1 _ a1 ok_.promise.later) ok_.inv)

  pub set_level-IsSafe :
      (w : World) (i : ℕ) (l : Logger) (level : Level) (k : Code World)
      → IsLogger w i l
      → Onward top held w k
      → IsSafe (store_rules top) w held (set_level i level k)
  unfolding set_level
  set_level-IsSafe w i l level k e = write_logger-IsSafe top held w i l _ k e λ w' l' a v e'. (
    record { ready = v.valid.ready i l' e'; formatted = v.valid.formatted i l' e'; root = refl },
    refl,
    λ o. (refl, refl),
  )

module _ (top : ℕ) (held : List Hold) (w : World) (i : ℕ) (l : Logger) (e : IsLogger w i l)
    (above : IsAbove (store_rules top) held (logger i)) where
  -- The lock of the logger is taken, and released behind a part that does not need to be left in
  -- another state.
  locked :
      (body : Code World → Code World) (k : Code World)
      → ((w' : World) (l' : Logger) (k' : Code World)
          → Later w w'
          → Inv top w'
          → IsLogger w' i l'
          → Onward top (with_logger held i) w' k'
          → IsSafe (store_rules top) w' (with_logger held i) (body k'))
      → Onward top held w k
      → IsSafe (store_rules top) w held (take (logger i) exclusive (body (release (logger i) k)))
  locked body k h rest = take-IsSafe top held w (logger i) exclusive _ above λ w1 a1 v1.
      let (l1, e1, n, r) = a1.loggers i l e in
      h w1 l1 _ a1 v1 e1 λ w2 a2 v2.
        release-IsSafe top held w2 (logger i) exclusive k (rest w2 (Later-trans w w1 w2 a1 a2) v2)

  own : owns (with_logger held i) (logger i) ≡ true
  own = owns_head top held (logger i)

  pub del_appender-IsSafe :
      (j : ℕ) (k : Code World)
      → Onward top held w k
      → IsSafe (store_rules top) w held (del_appender i j k)
  unfolding del_appender
  del_appender-IsSafe j k = locked (erasing i j) k λ w1 l1 k1 a1 v1 e1.
      locked_write top (with_logger held i) w1 i l1 _ k1 own e1 λ w2 l2 a2 v2 e2. (
        record {
          ready = AreReady-erase_first w2 l2.appenders j (v2.valid.ready i l2 e2);
          formatted = v2.valid.formatted i l2 e2;
          root = refl;
        },
        refl,
      )

  pub get_logger_formatter-IsSafe :
      (k : Option Formatter → Code World)
      → ((f : Option Formatter) → Onward top held w (k f))
      → IsSafe (store_rules top) w held (get_logger_formatter i k)
  unfolding get_logger_formatter
  get_logger_formatter-IsSafe k rest =
      take-IsSafe top held w (logger i) exclusive _ above λ w1 a1 v1.
        let (l1, e1, n, r) = a1.loggers i l e in
        read_logger-IsSafe top (with_logger held i) w1 i l1 _ e1 λ w2 l2 a2 v2 e2.
          release-IsSafe top held w2 (logger i) exclusive _
            (rest l2.formatter w2 (Later-trans w w1 w2 a1 a2) v2)

  -- An appender that is ready is put on the list.
  push-IsSafe :
      (w' : World) (l' : Logger) (j : ℕ) (k : Code World)
      → IsLogger w' i l'
      → IsReady w' j
      → Onward top (with_logger held i) w' k
      → IsSafe (store_rules top) w' (with_logger held i) (push_appender i j k)
  push-IsSafe w' l' j k e' r =
      locked_write top (with_logger held i) w' i l' _ k own e' λ w2 l2 a2 v2 e2. (
        record {
          ready = AreReady-append w2 l2.appenders j (v2.valid.ready i l2 e2) (a2.ready j r);
          formatted = v2.valid.formatted i l2 e2;
          root = refl;
        },
        refl,
      )

  pub add_appender-IsSafe :
      (j : ℕ) (x : Appender) (k : Code World)
      → IsAppender w j x
      → Onward top held w k
      → IsSafe (store_rules top) w held (add_appender i j k)
  unfolding add_appender
  add_appender-IsSafe j x k f = locked (adding i j) k λ w1 l1 k1 a1 v1 e1 rest1.
      let (x1, f1) = a1.appenders j x f in
      get_formatter-IsSafe top (with_logger held i) w1 j x1 (added k1)
        (IsAbove-logger top held i j above) f1
        λ w2 x2 a2 v2 f2.
          let (l2, e2, n2, r2) = a2.loggers i l1 e1 in
          let rest2 = Onward-Later top (with_logger held i) w1 w2 k1 a2 rest1 in
          elim (Option-cases x2.formatter) [
            | inr (g, q) ↦ rw q (push-IsSafe w2 l2 j k1 e2 (x2, g, f2, q) rest2)
            | inl q ↦ rw q (without w2 l2 x2 k1 e2 f2 rest2)
          ]
    where
      added : Code World → Option Formatter → Code World
      added k1 f = elim f [
        | none ↦
            take (appender j) exclusive
              (inherit_formatter i j (release (appender j) (push_appender i j k1)))
        | some g ↦ push_appender i j k1
      ]

      without :
          (w2 : World) (l2 : Logger) (x2 : Appender) (k1 : Code World)
          → IsLogger w2 i l2
          → IsAppender w2 j x2
          → Onward top (with_logger held i) w2 k1
          → IsSafe (store_rules top) w2 (with_logger held i) (
              take
                (appender j)
                exclusive
                (inherit_formatter i j (release (appender j) (push_appender i j k1))))
      without w2 l2 x2 k1 e2 f2 rest2 =
          take-IsSafe top (with_logger held i) w2 (appender j) exclusive _
            (IsAbove-logger top held i j above)
            λ w3 a3 v3.
              let (l3, e3, n3, r3) = a3.loggers i l2 e2 in
              let (x3, f3) = a3.appenders j x2 f2 in
              inherit_formatter-IsSafe top (with_appender (with_logger held i) j) w3 i j l3 x3 _
                (owns_head top (with_logger held i) (appender j)) e3 f3
                λ w4 a4 v4 ready.
                  let (l4, e4, n4, r4) = a4.loggers i l3 e3 in
                  release-IsSafe top (with_logger held i) w4 (appender j) exclusive _ (
                    push-IsSafe w4 l4 j k1 e4 ready (
                      Onward-Later top (with_logger held i) w2 w4 k1 (Later-trans w2 w3 w4 a3 a4)
                        rest2))

  -- The loop over the appenders.
  refresh-IsSafe :
      (js : List ℕ) (w' : World) (l' : Logger) (k : Code World)
      → IsLogger w' i l'
      → AreReady w' js
      → Onward top (with_logger held i) w' k
      → Onward top (with_logger held i) w' (refresh i js k)
  unfolding refresh
  refresh-IsSafe [] w' l' k e' r rest = rest
  refresh-IsSafe (j ∷ js) w' l' k e' (r, rs) rest = λ w1 a1 v1.
      take-IsSafe top (with_logger held i) w1 (appender j) exclusive _
        (IsAbove-logger top held i j above)
        λ w2 a2 v2.
          let b2 = Later-trans w' w1 w2 a1 a2 in
          let (x2, g2, f2, q2) = b2.ready j r in
          read_appender-IsSafe top (with_appender (with_logger held i) j) w2 j x2 _ f2
            λ w3 x3 a3 v3 f3.
              let b3 = Later-trans w' w2 w3 b2 a3 in
              let (l3, e3, n3, r3) = b3.loggers i l' e' in
              let go : Onward top (with_appender (with_logger held i) j) w3
                  (release (appender j) (refresh i js k)) =
                λ w4 a4 v4.
                  let b4 = Later-trans w' w3 w4 b3 a4 in
                  let (l4, e4, n4, r4) = b4.loggers i l' e' in
                  release-IsSafe top (with_logger held i) w4 (appender j) exclusive _ (
                    refresh-IsSafe js w4 l4 k e4 (AreReady-Later w' w4 js b4 rs)
                      (Onward-Later top (with_logger held i) w' w4 k b4 rest) w4 (Later-refl w4)
                      v4) in
              elim (Bool-cases x3.have_formatter) [
                | inl own_ ↦ rw own_ (go w3 (Later-refl w3) v3)
                | inr none_ ↦ rw none_ (
                    inherit_formatter-IsSafe top (with_appender (with_logger held i) j) w3 i j l3 x3
                      _ (owns_head top (with_logger held i) (appender j)) e3 f3
                      λ w4 a4 v4 ready. go w4 a4 v4)
              ]

  pub set_formatter-IsSafe :
      (f : Formatter) (k : Code World)
      → Onward top held w k
      → IsSafe (store_rules top) w held (set_formatter i (some f) k)
  unfolding set_formatter
  set_formatter-IsSafe f k = locked (setting i (some f)) k λ w1 l1 k1 a1 v1 e1 rest1.
      locked_write top (with_logger held i) w1 i l1 _ _ own e1
        (λ w2 l2 a2 v2 e2.
          (record { ready = v2.valid.ready i l2 e2; formatted = (f, refl); root = refl }, refl))
        λ w2 a2 v2.
          let (l2, e2, n2, r2) = a2.loggers i l1 e1 in
          read_logger-IsSafe top (with_logger held i) w2 i l2 _ e2 λ w3 l3 a3 v3 e3.
            refresh-IsSafe l3.appenders w3 l3 k1 e3 (v3.valid.ready i l3 e3)
              (Onward-Later top (with_logger held i) w1 w3 k1 (Later-trans w1 w2 w3 a2 a3) rest1) w3
              (Later-refl w3) v3

  use_pattern-IsSafe :
      (val : Text) (f : Formatter) (k : Code World)
      → Onward top held w k
      → IsSafe (store_rules top) w held (use_pattern i val f k)
  use_pattern-IsSafe val f k rest =
      if-IsSafe top held w f.is_error _ _
        (read_logger-IsSafe top held w i l _ e λ w1 l1 a1 v1 e1.
          printing-IsSafe top held w1 _ k λ w2 a2 v2. rest w2 (Later-trans w w1 w2 a1 a2) v2)
        (set_formatter-IsSafe f k rest)

pub set_pattern-IsSafe :
    (top : ℕ) (held : List Hold) (w : World) (i : ℕ) (l : Logger)
    → IsLogger w i l
    → IsAbove (store_rules top) held (logger i)
    → (val : Text) (k : Code World) → Onward top held w k
    → IsSafe (store_rules top) w held (set_pattern i val k)
unfolding set_pattern
set_pattern-IsSafe top held w i l e above val k rest = printing-IsSafe top held w _ _ λ w1 a1 v1.
    let (l1, e1, n, r) = a1.loggers i l e in
    use_pattern-IsSafe top held w1 i l1 e1 above val (new_formatter val) k
      λ w2 a2 v2. rest w2 (Later-trans w w1 w2 a1 a2) v2
