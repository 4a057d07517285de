-- ===== src/Locks/Safety/OfLogging.antt =====
-- A call of `log` is safe: of an appender, of a logger and by the macros.
use final_designer.Formatter.Event.{Event, new_event}
use final_designer.Formatter.Scan.{format}
use final_designer.Level.{Level}
use final_designer.Locks.Access.{read_appender}
use final_designer.Locks.Appenders.{
  log_to_console, log_to_file, log, log_by, written, stream_failed, console_written, file_written,
}
use final_designer.Locks.Code.{Code, act, release, Hold, exclusive, appender, logger}
use final_designer.Locks.Loggers.{log_all, log_chain, log_macro}
use final_designer.Locks.Safe.{IsAbove, IsSafe}
use final_designer.Locks.Safety.{
  Onward, Onward-Later, act-IsSafe, read_appender-IsSafe, read_logger-IsSafe, take-IsSafe,
  release-IsSafe, attempt-IsSafe, IsAbove-lt, with_appender, with_logger, IsAbove-logger,
  AreReady-Later,
}
use final_designer.Locks.Safety.OfAppenders.{opened-Same, reopened-Same, written-Same, print-Same}
use final_designer.Locks.Store.{Inv, IsAppender, Later-refl, Later-trans, lock_rank, store_rules}
use final_designer.Locks.Store.Writes.{Same, Same-Allowed}
use final_designer.Logging.Invariant.{IsReady, AreReady, IsLogger}
use final_designer.Logging.Logger.{on_appender}
use final_designer.Logging.World.{
  Appender, Sort, console, file, Logger, World, env, log_console, print,
}
use final_designer.Prelude.{
  ℕ, ℤ, suc, ◌≡◌, ◌<◌, refl, sym, ap, ◌∙◌, some-injective, List, [], ◌∷◌, Text, some, codes,
  get_elem?, arith, leb, if◌then◌else◌, Bool-cases, Option-cases, inl, inr, is_empty, ◌==◌, ==_iff,
  ==-refl,
}

module _ (top : ℕ) (held : List Hold) where
  -- An access of an appender that leaves formatters as they are.
  same_step :
      (w : World) (j : ℕ) (x : Appender) (g : World → Appender → World) (k : Code World)
      → IsAppender w j x
      → ((w' : World) (x' : Appender) → IsAppender w' j x' → Same w' (g w' x'))
      → Onward top held w k
      → IsSafe (store_rules top) w held (act (λ w. on_appender w j λ a. g w a) (λ _. k))
  same_step w j x g k e h rest = act-IsSafe top held w _ _ λ w' a v.
      let (x', e') = a.appenders j x e in
      let ok_ = Same-Allowed top held w' (g w' x') v (h w' x' e') in
      rw (e', on_appender) (ok_, rest _ (Later-trans w w' _ a ok_.promise.later) ok_.inv)

module _ (local_time : Text → ℕ → Text) (top : ℕ) (held : List Hold) (level : Level)
    (event : Event) where
  log_to_console-IsSafe :
      (w : World) (j : ℕ) (k : Code World)
      → IsAbove (store_rules top) held (appender j)
      → IsReady w j
      → Onward top held w k
      → IsSafe (store_rules top) w held (log_to_console local_time j level event k)
  unfolding log_to_console log_console
  log_to_console-IsSafe w j k above r rest =
      take-IsSafe top held w (appender j) exclusive _ above λ w1 a1 v1.
        attempt-IsSafe top (with_appender held j) w1 (console_written local_time j level event) _
          (λ w2 a2 v2.
            let (x, f, e, q) = a2.ready j (a1.ready j r) in
            (
              print w2 (format (env local_time w2) f level event),
              rw (e, console_written, q) refl,
              print-Same w2 _,
            ))
          λ w3 a3 v3.
            release-IsSafe top held w3 (appender j) exclusive k
              (rest w3 (Later-trans w w1 w3 a1 a3) v3)

  -- The part behind the lock.
  write-IsSafe :
      (w : World) (j : ℕ) (k : Code World)
      → IsReady w j
      → Onward top held w k
      → IsSafe (store_rules top) w (with_appender held j) (
          read_appender j λ a.
            if stream_failed a.sort
            then act (λ w. print w (codes "error\n")) (λ w. release (appender j) k)
            else release (appender j) k)
  write-IsSafe w j k (x, f, e, q) rest =
      read_appender-IsSafe top (with_appender held j) w j x _ e λ w1 x1 a1 v1 e1.
        elim (Bool-cases (stream_failed x1.sort)) [
          | inr good ↦ rw good (release-IsSafe top held w1 (appender j) exclusive k (rest w1 a1 v1))
          | inl bad ↦ rw bad (
              act-IsSafe top (with_appender held j) w1 _ _ λ w2 a2 v2.
                let ok_ =
                  Same-Allowed top (with_appender held j) w2 (print w2 (codes "error\n")) v2
                    (print-Same w2 _) in
                (
                  ok_,
                  release-IsSafe top held _ (appender j) exclusive k (
                      rest _ (Later-trans w w2 _ (Later-trans w w1 w2 a1 a2) ok_.promise.later)
                        ok_.inv),
                ))
        ]

  log_to_file-IsSafe :
      (w : World) (j : ℕ) (k : Code World)
      → IsAbove (store_rules top) held (appender j)
      → IsReady w j
      → Onward top held w k
      → IsSafe (store_rules top) w held (log_to_file local_time j level event k)
  unfolding log_to_file
  log_to_file-IsSafe w j k above r rest =
      same_step top held w j r.0 _ _ r.2 (λ u x e. opened-Same u j x x.sort e)
        λ w1 a1 v1.
          let r1 = a1.ready j r in
          same_step top held w1 j r1.0 _ _ r1.2 (λ u x e. reopened-Same u j x x.sort e)
            λ w2 a2 v2.
              let r2 = a2.ready j r1 in
              take-IsSafe top held w2 (appender j) exclusive _ above λ w3 a3 v3.
                attempt-IsSafe top (with_appender held j) w3 (file_written local_time j level event)
                  _
                  (λ w4 a4 v4.
                    let (x, f, e, q) = a4.ready j (a3.ready j r2) in
                    (
                      written w4 j x x.sort (format (env local_time w4) f level event),
                      rw (e, file_written, q) refl,
                      written-Same w4 j x x.sort _ e,
                    ))
                  λ w5 a5 v5. write-IsSafe w5 j k (a5.ready j (a3.ready j r2)) (
                    Onward-Later top held w w5 k
                      (Later-trans w w1 w5 a1
                        (Later-trans w1 w2 w5 a2 (Later-trans w2 w3 w5 a3 a5)))
                      rest)

  log_by-IsSafe :
      (s : Sort) (w : World) (j : ℕ) (k : Code World)
      → IsAbove (store_rules top) held (appender j)
      → IsReady w j
      → Onward top held w k
      → IsSafe (store_rules top) w held (log_by local_time s j level event k)
  log_by-IsSafe console = log_to_console-IsSafe
  log_by-IsSafe (file name s) = log_to_file-IsSafe

  log-IsSafe :
      (w : World) (j : ℕ) (k : Code World)
      → IsAbove (store_rules top) held (appender j)
      → IsReady w j
      → Onward top held w k
      → IsSafe (store_rules top) w held (log local_time j level event k)
  unfolding log
  log-IsSafe w j k above r rest = read_appender-IsSafe top held w j r.0 _ r.2 λ w1 x1 a1 v1 e1.
      elim (Bool-cases (leb x1.level level)) [
        | inr off ↦ rw off (rest w1 a1 v1)
        | inl on ↦ rw on (
            log_by-IsSafe x1.sort w1 j k above (a1.ready j r)
              (Onward-Later top held w w1 k a1 rest))
      ]

module _ (local_time : Text → ℕ → Text) (top : ℕ) (level : Level) (event : Event) where
  log_all-IsSafe :
      (js : List ℕ) (held : List Hold) (w : World) (k : Code World)
      → ((j : ℕ) → IsAbove (store_rules top) held (appender j))
      → AreReady w js
      → Onward top held w k
      → Onward top held w (log_all local_time js level event k)
  unfolding log_all
  log_all-IsSafe [] held w k above r rest = rest
  log_all-IsSafe (j ∷ js) held w k above (r, rs) rest = λ w' a v.
      log-IsSafe local_time top held level event w' j _ (above j) (a.ready j r) (
        log_all-IsSafe js held w' k above (AreReady-Later w w' js a rs)
          (Onward-Later top held w w' k a rest))

  -- One logger's turn, given its root's.
  log_turn-IsSafe :
      (fuel : ℕ) (held : List Hold) (w : World) (i : ℕ) (l : Logger) (k : Code World)
      → IsLogger w i l
      → IsAbove (store_rules top) held (logger i)
      → ((w' : World) (l' : Logger) (r : ℕ)
          → Inv top w'
          → IsLogger w' i l'
          → l'.root ≡ some r
          → (k' : Code World) → Onward top (with_logger held i) w' k'
          → IsSafe
              (store_rules top)
              w'
              (with_logger held i)
              (log_chain local_time fuel r level event k'))
      → Onward top held w k
      → IsSafe (store_rules top) w held (log_chain local_time (suc fuel) i level event k)
  unfolding log_chain
  log_turn-IsSafe fuel held w i l k e above up rest =
      read_logger-IsSafe top held w i l _ e λ w1 l1 a1 v1 e1.
        elim (Bool-cases (leb l1.level level)) [
          | inr off ↦ rw off (rest w1 a1 v1)
          | inl on ↦ rw on (
              take-IsSafe top held w1 (logger i) exclusive _ above λ w2 a2 v2.
                let (l2, e2, n2, p2) = a2.loggers i l1 e1 in
                read_logger-IsSafe top (with_logger held i) w2 i l2 _ e2 λ w3 l3 a3 v3 e3.
                  let back : Onward top (with_logger held i) w3 (release (logger i) k) = λ w4 a4 v4.
                    release-IsSafe top held w4 (logger i) exclusive k (
                      rest w4
                        (Later-trans w w1 w4 a1
                          (Later-trans w1 w2 w4 a2 (Later-trans w2 w3 w4 a3 a4)))
                        v4) in
                  elim (Bool-cases (is_empty l3.appenders)) [
                    | inr some_ ↦ rw some_ (
                        log_all-IsSafe l3.appenders (with_logger held i) w3 _
                          (λ j. IsAbove-logger top held i j above) (v3.valid.ready i l3 e3) back w3
                          (Later-refl w3) v3)
                    | inl none_ ↦ elim (Option-cases l3.root) [
                      | inl first ↦ rw (none_, first) (back w3 (Later-refl w3) v3)
                      | inr (r, q) ↦ rw (none_, q) (up w3 l3 r v3 e3 q _ back)
                    ]
                  ])
        ]

  -- A logger under a root is not the main one.
  rank_root :
      (w : World) (i : ℕ) (l : Logger) (r : ℕ)
      → Inv top w
      → IsLogger w i l
      → l.root ≡ some r
      → lock_rank top (logger i) < lock_rank top (logger r)
  rank_root w i l r v e q = elim (Bool-cases (i == top)) [
    | inr other ↦ rw (other, v.under_main i l r e q, ==-refl top) (omega arith)
    | inl same ↦
        let (k, h, n) = v.valid.headed in
        let p : k ≡ l =
          some-injective _ _
            (sym h ∙ ap (get_elem? w.loggers) (v.main ∙ sym ((==_iff i top).0 same)) ∙ e) in
        absurd (ground (arith, n, q, ap (λ (y : Logger). y.root) p))
  ]

  pub log_chain-IsSafe :
      (held : List Hold) (w : World) (i : ℕ) (l : Logger) (k : Code World)
      → Inv top w
      → IsLogger w i l
      → IsAbove (store_rules top) held (logger i)
      → Onward top held w k
      → IsSafe (store_rules top) w held (log_chain local_time 2 i level event k)
  log_chain-IsSafe held w i l k v e above rest =
      log_turn-IsSafe 1 held w i l k e above
        (λ w1 l1 r v1 e1 q k1 rest1.
          let (m, h, n) = v1.valid.rooted i l1 r e1 q in
          let lt = rank_root w1 i l1 r v1 e1 q in
          log_turn-IsSafe 0 (with_logger held i) w1 r m k1 h
            (lt, IsAbove-lt top held (logger i) (logger r) above lt)
            (λ w2 l2 r2 v2 e2 q2 k2 rest2.
              let same : r ≡ r2 = v1.under_main i l1 r e1 q ∙ sym (v2.under_main r l2 r2 e2 q2) in
              let lt2 = rank_root w2 r l2 r2 v2 e2 q2 in
              absurd (omega (arith, lt2, ap (λ (x : ℕ). lock_rank top (logger x)) same)))
            rest1)
        rest

module _ (local_time : Text → ℕ → Text) (top : ℕ) (held : List Hold) where
  pub log_macro-IsSafe :
      (w : World) (i : ℕ) (l : Logger) (level : Level) (source : Text) (line : ℤ)
      (thread fiber now : ℕ) (text : Text) (k : Code World)
      → IsLogger w i l
      → IsAbove (store_rules top) held (logger i)
      → Onward top held w k
      → IsSafe
          (store_rules top)
          w
          held
          (log_macro local_time i level source line thread fiber now text k)
  unfolding log_macro new_event
  log_macro-IsSafe w i l level source line thread fiber now text k e above rest =
      read_logger-IsSafe top held w i l _ e λ w1 l1 a1 v1 e1.
        elim (Bool-cases (leb l1.level level)) [
          | inr off ↦ rw off (rest w1 a1 v1)
          | inl on ↦ rw on (
              log_chain-IsSafe local_time top level _ held w1 i l1 k v1 e1 above
                (Onward-Later top held w w1 k a1 rest))
        ]
