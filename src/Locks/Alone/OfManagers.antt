-- ===== src/Locks/Alone/OfManagers.antt =====
-- The operations of the manager, and those that print, run alone.
use final_designer.Config.Var.{Outcome, returns, throws}
use final_designer.Define.Describe.{
  push_described, logger_to_yaml_string, push_loggers, manager_to_yaml_string, in_order,
  logger_node, dumped, appender_to_yaml_string,
}
use final_designer.Locks.Access.{follow}
use final_designer.Locks.Appenders
use final_designer.Locks.Code.{Code, alone, release, logger, appender, manager}
use final_designer.Locks.Loggers
use final_designer.Locks.Managers
use final_designer.Locks.Managers.{entering}
use final_designer.Logging.Logger.{new_logger}
use final_designer.Logging.Manager.{find_logger, get_logger}
use final_designer.Logging.World.{Appender, Logger, World}
use final_designer.Prelude.{
  ℕ, ◌≡◌, refl, ◌∙◌, List, [], ◌∷◌, ◌++◌, Text, Option, none, some, codes, get_elem?, length,
}
use final_designer.Yaml.{Api}

pub alone-get_logger :
    (w : World) (name : Text) (k : ℕ → Code World)
    → alone (Managers.get_logger name k) w ≡ alone (k (get_logger w name).1) (get_logger w name).0
unfolding Managers.get_logger get_logger alone
alone-get_logger w name k = found (find_logger w.table name)
  where
    found :
        (o : Option ℕ)
        → alone (elim o [ some i ↦ release manager (k i) | none ↦ entering name k ]) w ≡ (
            let p : World × ℕ = elim o [
              | some i ↦ (w, i)
              | none ↦ (
                record w {
                  loggers = w.loggers ++ record (new_logger name) { root = some w.main } ∷ [];
                  table = (name, length w.loggers) ∷ w.table;
                },
                length w.loggers,
              )
            ] in
            alone (k p.1) p.0)
    found none = refl
    found (some i) = refl

-- What a call that prints hands to the rest of the thread.
abbrev pub told : {A : Type 0} → Option (Outcome A) → (Outcome A → Option World) → Option World
told none k = none
told (some o) k = k o

module _ (api : Api) where
  open api use {Node, load, dump, null, push, push_at}

  abbrev and_then_text : Option Appender → (Text → Option World) → Option World
  and_then_text none k = none
  and_then_text (some a) k = k (appender_to_yaml_string api a)

  alone-to_yaml_string :
      (w : World) (j : ℕ) (k : Text → Code World)
      → alone (Appenders.to_yaml_string api j k) w
        ≡ and_then_text (get_elem? w.appenders j) (λ t. alone (k t) w)
  unfolding Appenders.to_yaml_string alone
  alone-to_yaml_string w j k = by_pointer (get_elem? w.appenders j)
    where
      by_pointer :
          (o : Option Appender)
          → alone (follow o λ a. release (appender j) (k (appender_to_yaml_string api a))) w
            ≡ and_then_text o (λ t. alone (k t) w)
      by_pointer none = refl
      by_pointer (some a) = refl

  alone-push_described :
      (js : List ℕ) (w : World) (node : Node) (k : Outcome Node → Code World)
      → alone (Loggers.push_described api js node k) w
        ≡ told (push_described api w js node) (λ o. alone (k o) w)
  unfolding Loggers.push_described push_described
  alone-push_described [] w node k = refl
  alone-push_described (j ∷ js) w node k =
      alone-to_yaml_string w j (λ text. pushed (load text))
      ∙ by_pointer (get_elem? w.appenders j)
          (λ n. alone-push_described js w (push_at node (codes "appenders") n) k)
    where
      pushed : Outcome Node → Code World
      pushed o = elim o [
        | throws e ↦ k (throws e)
        | returns n ↦ Loggers.push_described api js (push_at node (codes "appenders") n) k
      ]

      by_outcome :
          (o : Outcome Node)
          → ((n : Node)
              → alone (Loggers.push_described api js (push_at node (codes "appenders") n) k) w
                ≡ told
                    (push_described api w js (push_at node (codes "appenders") n))
                    (λ x. alone (k x) w))
          → alone (pushed o) w
            ≡ told
                (elim o [
                  | throws e ↦ some (throws e)
                  | returns n ↦ push_described api w js (push_at node (codes "appenders") n)
                ])
                (λ x. alone (k x) w)
      by_outcome (throws e) h = refl
      by_outcome (returns n) h = h n

      by_pointer :
          (o : Option Appender)
          → ((n : Node)
              → alone (Loggers.push_described api js (push_at node (codes "appenders") n) k) w
                ≡ told
                    (push_described api w js (push_at node (codes "appenders") n))
                    (λ x. alone (k x) w))
          → and_then_text o (λ t. alone (pushed (load t)) w)
            ≡ told
                (elim o [
                  | none ↦ none
                  | some a ↦ elim (load (appender_to_yaml_string api a)) [
                    | throws e ↦ some (throws e)
                    | returns n ↦ push_described api w js (push_at node (codes "appenders") n)
                  ]
                ])
                (λ x. alone (k x) w)
      by_pointer none h = refl
      by_pointer (some a) h = by_outcome (load (appender_to_yaml_string api a)) h

  pub alone-logger_to_yaml_string :
      (w : World) (i : ℕ) (k : Outcome Text → Code World)
      → alone (Loggers.logger_to_yaml_string api i k) w
        ≡ told (logger_to_yaml_string api w i) (λ o. alone (k o) w)
  unfolding Loggers.logger_to_yaml_string logger_to_yaml_string alone
  alone-logger_to_yaml_string w i k = by_pointer (get_elem? w.loggers i)
    where
      dumping :
          (o : Option (Outcome Node))
          → told o (λ x. alone (k (Loggers.dumped api x)) w)
            ≡ told (dumped api o) (λ x. alone (k x) w)
      dumping none = refl
      dumping (some (throws e)) = refl
      dumping (some (returns n)) = refl

      by_pointer :
          (o : Option Logger)
          → alone
              (follow o λ l.
                Loggers.push_described api l.appenders
                  (logger_node api l)
                  λ out. release (logger i) (k (Loggers.dumped api out)))
              w
            ≡ told
                (elim o [
                  | none ↦ none
                  | some l ↦ dumped api (push_described api w l.appenders (logger_node api l))
                ])
                (λ x. alone (k x) w)
      by_pointer none = refl
      by_pointer (some l) =
          alone-push_described l.appenders w (logger_node api l) _
          ∙ dumping (push_described api w l.appenders (logger_node api l))

  alone-push_loggers :
      (ts : List (Text × ℕ)) (w : World) (node : Node) (k : Outcome Node → Code World)
      → alone (Managers.push_loggers api ts node k) w
        ≡ told (push_loggers api w ts node) (λ o. alone (k o) w)
  unfolding Managers.push_loggers push_loggers
  alone-push_loggers [] w node k = refl
  alone-push_loggers ((name, i) ∷ ts) w node k =
      alone-logger_to_yaml_string w i _
      ∙ by_result (logger_to_yaml_string api w i) (λ n. alone-push_loggers ts w (push node n) k)
    where
      by_text :
          (o : Outcome Node)
          → ((n : Node)
              → alone (Managers.push_loggers api ts (push node n) k) w
                ≡ told (push_loggers api w ts (push node n)) (λ x. alone (k x) w))
          → alone
              (elim o [
                | throws e ↦ k (throws e)
                | returns n ↦ Managers.push_loggers api ts (push node n) k
              ])
              w
            ≡ told
                (elim o [
                  | throws e ↦ some (throws e)
                  | returns n ↦ push_loggers api w ts (push node n)
                ])
                (λ x. alone (k x) w)
      by_text (throws e) h = refl
      by_text (returns n) h = h n

      by_result :
          (o : Option (Outcome Text))
          → ((n : Node)
              → alone (Managers.push_loggers api ts (push node n) k) w
                ≡ told (push_loggers api w ts (push node n)) (λ x. alone (k x) w))
          → told o (λ out.
            alone
              (elim out [
                | throws e ↦ k (throws e)
                | returns text ↦ elim (load text) [
                  | throws e ↦ k (throws e)
                  | returns n ↦ Managers.push_loggers api ts (push node n) k
                ]
              ])
              w)
            ≡ told
                (elim o [
                  | none ↦ none
                  | some (throws e) ↦ some (throws e)
                  | some (returns text) ↦ elim (load text) [
                    | throws e ↦ some (throws e)
                    | returns n ↦ push_loggers api w ts (push node n)
                  ]
                ])
                (λ x. alone (k x) w)
      by_result none h = refl
      by_result (some (throws e)) h = refl
      by_result (some (returns text)) h = by_text (load text) h

  pub alone-manager_to_yaml_string :
      (w : World) (k : Outcome Text → Code World)
      → alone (Managers.manager_to_yaml_string api k) w
        ≡ told (manager_to_yaml_string api w) (λ o. alone (k o) w)
  unfolding Managers.manager_to_yaml_string manager_to_yaml_string alone
  alone-manager_to_yaml_string w k =
      alone-push_loggers (in_order api w.table) w null _
      ∙ dumping (push_loggers api w (in_order api w.table) null)
    where
      dumping :
          (o : Option (Outcome Node))
          → told o (λ x. alone (k (Loggers.dumped api x)) w)
            ≡ told (dumped api o) (λ x. alone (k x) w)
      dumping none = refl
      dumping (some (throws e)) = refl
      dumping (some (returns n)) = refl
