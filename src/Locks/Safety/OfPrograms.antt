-- ===== src/Locks/Safety/OfPrograms.antt =====
-- Every sequence of calls is safe.
use final_designer.Define.Applied.{new_manager-IsSound}
use final_designer.Locks.Code.{Code}
use final_designer.Locks.Managers.{get_logger}
use final_designer.Locks.Program.{
  Call, log_to, log_to_root, add_console, add_file, add_dressed, del, level_of, formatter_of,
  pattern_of, formatter_asked, describe, describe_all, files, call, program,
}
use final_designer.Locks.Safe.{IsSafe}
use final_designer.Locks.Safety.{Onward, Onward-Later, act-IsSafe}
use final_designer.Locks.Safety.OfAppenders
use final_designer.Locks.Safety.OfAppenders.{make_appender-IsSafe}
use final_designer.Locks.Safety.OfLoggers
use final_designer.Locks.Safety.OfLoggers.{
  add_appender-IsSafe, del_appender-IsSafe, set_pattern-IsSafe, get_logger_formatter-IsSafe,
}
use final_designer.Locks.Safety.OfLogging.{log_macro-IsSafe}
use final_designer.Locks.Safety.OfManagers.{
  get_root-IsSafe, get_logger-IsSafe, logger_to_yaml_string-IsSafe, manager_to_yaml_string-IsSafe,
}
use final_designer.Locks.Store.{Inv, Later, Later-trans, store_rules}
use final_designer.Locks.Store.Writes.{Same-Allowed}
use final_designer.Logging.Invariant.{IsLogger}
use final_designer.Logging.Logger.{add_appender, new_logger}
use final_designer.Logging.Manager.{new_manager}
use final_designer.Logging.Sink.{Disk}
use final_designer.Logging.World.{Logger, World}
use final_designer.Prelude.{ℕ, zero, suc, ◌≡◌, refl, List, [], ◌∷◌, Text, some, arith}
use final_designer.Yaml.{Api}

module _ (local_time : Text → ℕ → Text) (api : Api) (top : ℕ) where
  -- A call on the logger of a name, in front of the rest of the thread.
  on_named :
      (w : World) (name : Text) (body : ℕ → Code World)
      → ((w' : World) (i : ℕ) (l : Logger)
          → Later w w'
          → IsLogger w' i l
          → IsSafe (store_rules top) w' [] (body i))
      → IsSafe (store_rules top) w [] (get_logger name body)
  on_named w name body h = get_logger-IsSafe top [] w name body tt λ w' i l a v e n q. h w' i l a e

  call-IsSafe :
      (c : Call) (w : World) (k : Code World)
      → Onward top [] w k
      → Onward top [] w (call local_time api c k)
  unfolding call
  call-IsSafe (log_to name level source line thread fiber now text) w k rest = λ w1 a1 v1.
      on_named w1 name _ λ w2 i l a2 e.
        log_macro-IsSafe local_time top [] w2 i l level source line thread fiber now text k e tt
          (Onward-Later top [] w w2 k (Later-trans w w1 w2 a1 a2) rest)
  call-IsSafe (log_to_root level source line thread fiber now text) w k rest = λ w1 a1 v1.
      get_root-IsSafe top [] w1 _ λ w2 i l a2 v2 e.
        log_macro-IsSafe local_time top [] w2 i l level source line thread fiber now text k e tt
          (Onward-Later top [] w w2 k (Later-trans w w1 w2 a1 a2) rest)
  call-IsSafe (add_console name) w k rest = λ w1 a1 v1. on_named w1 name _ λ w2 i l a2 e.
      make_appender-IsSafe top [] w2 _ _ λ w3 j a3 v3 f.
        let (l3, e3, n, r) = a3.loggers i l e in
        add_appender-IsSafe top [] w3 i l3 e3 tt j _ k f
          (Onward-Later top [] w w3 k (Later-trans w w2 w3 (Later-trans w w1 w2 a1 a2) a3) rest)
  call-IsSafe (add_file name filename) w k rest = λ w1 a1 v1. on_named w1 name _ λ w2 i l a2 e.
      make_appender-IsSafe top [] w2 _ _ λ w3 j a3 v3 f.
        let (l3, e3, n, r) = a3.loggers i l e in
        add_appender-IsSafe top [] w3 i l3 e3 tt j _ k f
          (Onward-Later top [] w w3 k (Later-trans w w2 w3 (Later-trans w w1 w2 a1 a2) a3) rest)
  call-IsSafe (add_dressed name filename level g) w k rest = λ w1 a1 v1.
      on_named w1 name _ λ w2 i l a2 e. make_appender-IsSafe top [] w2 _ _ λ w3 j a3 v3 f.
        let b3 = Later-trans w w2 w3 (Later-trans w w1 w2 a1 a2) a3 in
        OfAppenders.set_level-IsSafe top [] w3 j _ level _ f λ w4 a4 v4.
          let (x4, f4) = a4.appenders j _ f in
          OfAppenders.set_formatter-IsSafe top [] w4 j x4 g _ tt f4 λ w5 a5 v5.
            let c5 = Later-trans w3 w4 w5 a4 a5 in
            let (x5, f5) = a5.appenders j x4 f4 in
            let (l5, e5, n, r) = (Later-trans w2 w3 w5 a3 c5).loggers i l e in
            add_appender-IsSafe top [] w5 i l5 e5 tt j x5 k f5
              (Onward-Later top [] w w5 k (Later-trans w w3 w5 b3 c5) rest)
  call-IsSafe (del name j) w k rest = λ w1 a1 v1. on_named w1 name _ λ w2 i l a2 e.
      del_appender-IsSafe top [] w2 i l e tt j k
        (Onward-Later top [] w w2 k (Later-trans w w1 w2 a1 a2) rest)
  call-IsSafe (level_of name level) w k rest = λ w1 a1 v1. on_named w1 name _ λ w2 i l a2 e.
      OfLoggers.set_level-IsSafe top [] w2 i l level k e
        (Onward-Later top [] w w2 k (Later-trans w w1 w2 a1 a2) rest)
  call-IsSafe (formatter_of name g) w k rest = λ w1 a1 v1. on_named w1 name _ λ w2 i l a2 e.
      OfLoggers.set_formatter-IsSafe top [] w2 i l e tt g k
        (Onward-Later top [] w w2 k (Later-trans w w1 w2 a1 a2) rest)
  call-IsSafe (pattern_of name val) w k rest = λ w1 a1 v1. on_named w1 name _ λ w2 i l a2 e.
      set_pattern-IsSafe top [] w2 i l e tt val k
        (Onward-Later top [] w w2 k (Later-trans w w1 w2 a1 a2) rest)
  call-IsSafe (formatter_asked name) w k rest = λ w1 a1 v1. on_named w1 name _ λ w2 i l a2 e.
      get_logger_formatter-IsSafe top [] w2 i l e tt _
        (λ f. Onward-Later top [] w w2 k (Later-trans w w1 w2 a1 a2) rest)
  call-IsSafe (describe name) w k rest = λ w1 a1 v1. on_named w1 name _ λ w2 i l a2 e.
      logger_to_yaml_string-IsSafe api top [] w2 i l _ e tt
        (λ o. Onward-Later top [] w w2 k (Later-trans w w1 w2 a1 a2) rest)
  call-IsSafe describe_all w k rest = λ w1 a1 v1.
      manager_to_yaml_string-IsSafe api top [] w1 _ tt λ o. Onward-Later top [] w w1 k a1 rest
  call-IsSafe (files d) w k rest = λ w1 a1 v1. act-IsSafe top [] w1 _ _ λ w2 a2 v2.
      let ok_ =
        Same-Allowed top [] w2 (record w2 { disk = d }) v2
          (record {
            loggers = refl;
            table = refl;
            main = refl;
            appenders = λ j a e. (a, e, refl, refl);
          }) in
      (ok_, rest _ (Later-trans w w2 _ (Later-trans w w1 w2 a1 a2) ok_.promise.later) ok_.inv)

  pub program-IsSafe : (cs : List Call) (w : World) → Onward top [] w (program local_time api cs)
  unfolding program IsSafe
  program-IsSafe [] w = λ w' a v. refl
  program-IsSafe (c ∷ cs) w = call-IsSafe c w _ (program-IsSafe cs w)

-- The store that the manager's constructor leaves.
pub new_manager-Inv : (d : Disk) → Inv 0 (new_manager d)
unfolding new_manager add_appender new_logger
new_manager-Inv d = record {
  valid = (new_manager-IsSound d).valid;
  named = (new_manager-IsSound d).named;
  entries = ((_, refl), tt);
  main = refl;
  under_main = under;
}
  where
    under : (i : ℕ) (l : Logger) (r : ℕ) → IsLogger (new_manager d) i l → l.root ≡ some r → r ≡ 0
    under zero l r e q = ground (arith, e, q)
    under (suc i) l r e q = cc
