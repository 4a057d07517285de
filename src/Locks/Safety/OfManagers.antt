-- ===== src/Locks/Safety/OfManagers.antt =====
-- The operations of the manager are safe, and so are those that print a logger.
use final_designer.Cast.{set_insert}
use final_designer.Cast.Containers.{key_lt}
use final_designer.Config.Var.{Outcome, returns, throws}
use final_designer.Define.Describe.{in_order, logger_node}
use final_designer.Locks.Code.{Code, Hold, exclusive, manager, logger, appender, holds, owns}
use final_designer.Locks.Loggers.{push_described, logger_to_yaml_string}
use final_designer.Locks.Managers.{
  get_root, get_logger, entering, finding, push_loggers, manager_to_yaml_string,
}
use final_designer.Locks.Modes.{owns-holds}
use final_designer.Locks.Safe.{IsAbove, IsSafe}
use final_designer.Locks.Safety.{
  Onward, Onward-Later, read-IsSafe, read_logger-IsSafe, take-IsSafe, release-IsSafe, owns_head,
  IsAbove-lt, with_logger, IsAbove-logger, AreReady-Later,
}
use final_designer.Locks.Safety.OfAppenders.{to_yaml_string-IsSafe}
use final_designer.Locks.Store.{
  Inv, AreLoggers, AreLoggers-Later, Later, Later-refl, Later-trans, Guard, lock_rank, store_rules,
}
use final_designer.Locks.Store.Names.{make_logger, made, make_logger-Allowed, enter-Allowed}
use final_designer.Logging.Invariant.{AreReady, IsLogger}
use final_designer.Logging.Logger.{new_logger}
use final_designer.Logging.Manager.{find_logger}
use final_designer.Logging.World.{Logger, World}
use final_designer.Prelude.{
  ℕ, ◌≡◌, ◌<◌, ap, ◌∙◌, true, List, [], ◌∷◌, Text, none, some, length, arith, Bool-cases,
  Option-cases, inl, inr, get_elem?-append_last, text_eq_refl, codes,
}
use final_designer.Yaml.{Api}
use mathlib.Core.List.{foldl}

-- The locks of a thread behind the manager's.
abbrev with_manager : List Hold → List Hold
with_manager held = record { lock = manager; mode = exclusive } ∷ held

module _ (top : ℕ) (held : List Hold) where
  pub get_root-IsSafe :
      (w : World) (k : ℕ → Code World)
      → ((w' : World) (i : ℕ) (l : Logger)
          → Later w w'
          → Inv top w'
          → IsLogger w' i l
          → IsSafe (store_rules top) w' held (k i))
      → IsSafe (store_rules top) w held (get_root k)
  unfolding get_root
  get_root-IsSafe w k rest =
      read-IsSafe top held w _ λ w' a v. let (l, e, n) = v.valid.headed in rest w' w'.main l a v e

  -- What may follow a call of `getLogger` that returns `i`.
  abbrev pub Returned : World → Text → (ℕ → Code World) → Type 0
  Returned w name k =
      (w' : World) (i : ℕ) (l : Logger)
      → Later w w'
      → Inv top w'
      → IsLogger w' i l
      → l.name ≡ name
      → find_logger w'.table name ≡ some i
      → IsSafe (store_rules top) w' held (k i)

  own : owns (with_manager held) manager ≡ true
  own = owns_head top held manager

  own_too : holds (with_manager held) manager ≡ true
  own_too = owns-holds (with_manager held) manager own

  -- A name that is not in the map is entered.
  entering-IsSafe :
      (w : World) (name : Text) (k : ℕ → Code World)
      → find_logger w.table name ≡ none
      → Returned w name k
      → IsSafe (store_rules top) w (with_manager held) (entering name k)
  unfolding IsSafe Guard find_logger new_logger
  entering-IsSafe w name k q rest = λ w1 r1 v1.
      let m1 = make_logger-Allowed top (with_manager held) w1 v1 name in
      let e1 : IsLogger (make_logger w1 name) (length w1.loggers) (made w1 name) =
        get_elem?-append_last w1.loggers (made w1 name) in
      (
        m1.inv,
        m1.promise,
        λ w2 r2 v2.
            let (l2, e2, n2, p2) = r2.later.loggers (length w1.loggers) (made w1 name) e1 in
            let free : find_logger w2.table name ≡ none =
              ap (λ (t : List (Text × ℕ)). find_logger t name)
                (r2.guard manager own_too ∙ r1.guard manager own_too)
              ∙ q in
            let m2 =
              enter-Allowed top (with_manager held) w2 v2 name (length w1.loggers) l2 own free e2
                n2 in
            let a2 =
              Later-trans w w2 _
                (Later-trans w _ w2 (Later-trans w w1 _ r1.later m1.promise.later) r2.later)
                m2.promise.later in
            (
              m2.inv,
              m2.promise,
              release-IsSafe top held _ manager exclusive (k (length w1.loggers)) (
                  rest _ (length w1.loggers) l2 a2 m2.inv e2 n2
                    (ground (arith, text_eq_refl name))),
            ),
      )

  -- The map leads the name to the logger that is returned: from then on, since nothing that is in
  -- the map is taken out.
  pub get_logger-IsSafe :
      (w : World) (name : Text) (k : ℕ → Code World)
      → IsAbove (store_rules top) held manager
      → Returned w name k
      → IsSafe (store_rules top) w held (get_logger name k)
  unfolding get_logger
  get_logger-IsSafe w name k above rest =
      take-IsSafe top held w manager exclusive (finding name k) above λ w1 a1 v1.
        read-IsSafe top (with_manager held) w1 _ λ w2 a2 v2.
          let b2 = Later-trans w w1 w2 a1 a2 in
          elim (Option-cases (find_logger w2.table name)) [
            | inr (i, q) ↦
                let (l, e, n) = v2.named name i q in
                rw q (release-IsSafe top held w2 manager exclusive (k i) (rest w2 i l b2 v2 e n q))
            | inl q ↦
                rw q
                  (entering-IsSafe w2 name k q λ w3 i l a3. rest w3 i l (Later-trans w w2 w3 b2 a3))
          ]

AreLoggers-set_insert :
    (w : World) (ts : List (Text × ℕ)) (t : Text × ℕ)
    → AreLoggers w ts
    → AreLoggers w (t ∷ [])
    → AreLoggers w (set_insert key_lt ts t)
unfolding set_insert
AreLoggers-set_insert w [] t r q = q
AreLoggers-set_insert w (u ∷ ts) t (r, rs) q = elim (Bool-cases (key_lt t u)) [
  | inl e ↦ rw e (q.0, (r, rs))
  | inr e ↦ elim (Bool-cases (key_lt u t)) [
    | inl f ↦ rw (e, f) (r, AreLoggers-set_insert w ts t rs q)
    | inr f ↦ rw (e, f) (r, rs)
  ]
]

AreLoggers-foldl :
    (w : World) (ts us : List (Text × ℕ))
    → AreLoggers w ts
    → AreLoggers w us
    → AreLoggers w (foldl (set_insert key_lt) us ts)
AreLoggers-foldl w [] us r q = q
AreLoggers-foldl w (t ∷ ts) us (r, rs) q =
    AreLoggers-foldl w ts _ rs (AreLoggers-set_insert w us t q (r, tt))

AreLoggers-in_order :
    (api : Api) (w : World) (ts : List (Text × ℕ))
    → AreLoggers w ts
    → AreLoggers w (in_order api ts)
AreLoggers-in_order api w ts r = AreLoggers-foldl w ts [] r tt

module _ (api : Api) (top : ℕ) where
  open api use {Node, load, dump, null, push, push_at}

  push_described-IsSafe :
      (js : List ℕ) (held : List Hold) (w : World) (node : Node) (k : Outcome Node → Code World)
      → ((j : ℕ) → IsAbove (store_rules top) held (appender j))
      → AreReady w js
      → ((o : Outcome Node) → Onward top held w (k o))
      → Onward top held w (push_described api js node k)
  unfolding push_described
  push_described-IsSafe [] held w node k above r rest = rest (returns node)
  push_described-IsSafe (j ∷ js) held w node k above (r, rs) rest = λ w' a v.
      let (x, f, e, q) = a.ready j r in
      to_yaml_string-IsSafe top held w' j api x _ (above j) e λ text. loaded w' a (load text) (λ n.
        push_described-IsSafe js held w' (push_at node (codes "appenders") n) k above
          (AreReady-Later w w' js a rs) (λ o. Onward-Later top held w w' (k o) a (rest o)))
    where
      loaded :
          (w' : World)
          → Later w w'
          → (o : Outcome Node)
          → ((n : Node)
              → Onward top held w' (push_described api js (push_at node (codes "appenders") n) k))
          → Onward top held w' (elim o [
            | throws e ↦ k (throws e)
            | returns n ↦ push_described api js (push_at node (codes "appenders") n) k
          ])
      loaded w' a (throws e) go = Onward-Later top held w w' (k (throws e)) a (rest (throws e))
      loaded w' a (returns n) go = go n

  pub logger_to_yaml_string-IsSafe :
      (held : List Hold) (w : World) (i : ℕ) (l : Logger) (k : Outcome Text → Code World)
      → IsLogger w i l
      → IsAbove (store_rules top) held (logger i)
      → ((o : Outcome Text) → Onward top held w (k o))
      → IsSafe (store_rules top) w held (logger_to_yaml_string api i k)
  unfolding logger_to_yaml_string
  logger_to_yaml_string-IsSafe held w i l k e above rest =
      take-IsSafe top held w (logger i) exclusive _ above λ w1 a1 v1.
        let (l1, e1, n, r) = a1.loggers i l e in
        read_logger-IsSafe top (with_logger held i) w1 i l1 _ e1 λ w2 l2 a2 v2 e2.
          push_described-IsSafe l2.appenders (with_logger held i) w2 (logger_node api l2) _
            (λ j. IsAbove-logger top held i j above) (v2.valid.ready i l2 e2)
            (λ o w3 a3 v3.
              release-IsSafe top held w3 (logger i) exclusive _
                (rest _ w3 (Later-trans w w2 w3 (Later-trans w w1 w2 a1 a2) a3) v3))
            w2 (Later-refl w2) v2

  -- The loop over the manager's map.
  push_loggers-IsSafe :
      (ts : List (Text × ℕ)) (held : List Hold) (w : World) (node : Node)
      (k : Outcome Node → Code World)
      → ((i : ℕ) → IsAbove (store_rules top) held (logger i))
      → AreLoggers w ts
      → ((o : Outcome Node) → Onward top held w (k o))
      → Onward top held w (push_loggers api ts node k)
  unfolding push_loggers
  push_loggers-IsSafe [] held w node k above r rest = rest (returns node)
  push_loggers-IsSafe ((name, i) ∷ ts) held w node k above (r, rs) rest = λ w' a v.
      let (l, e) = r in
      let (l', e', n, p) = a.loggers i l e in
      logger_to_yaml_string-IsSafe held w' i l' _ e' (above i) λ out. described w' a out λ text.
        loaded w' a (load text) λ n.
          push_loggers-IsSafe ts held w' (push node n) k above (AreLoggers-Later w w' ts a rs)
            (λ o. Onward-Later top held w w' (k o) a (rest o))
    where
      loaded :
          (w' : World)
          → Later w w'
          → (o : Outcome Node)
          → ((n : Node) → Onward top held w' (push_loggers api ts (push node n) k))
          → Onward top held w'
              (elim o [ throws e ↦ k (throws e) | returns n ↦ push_loggers api ts (push node n) k ])
      loaded w' a (throws e) go = Onward-Later top held w w' (k (throws e)) a (rest (throws e))
      loaded w' a (returns n) go = go n

      described :
          (w' : World)
          → Later w w'
          → (o : Outcome Text)
          → ((t : Text)
              → Onward top held w' (elim (load t) [
                | throws e ↦ k (throws e)
                | returns n ↦ push_loggers api ts (push node n) k
              ]))
          → Onward top held w' (elim o [
            | throws e ↦ k (throws e)
            | returns t ↦ elim (load t) [
              | throws e ↦ k (throws e)
              | returns n ↦ push_loggers api ts (push node n) k
            ]
          ])
      described w' a (throws e) go = Onward-Later top held w w' (k (throws e)) a (rest (throws e))
      described w' a (returns t) go = go t

  pub manager_to_yaml_string-IsSafe :
      (held : List Hold) (w : World) (k : Outcome Text → Code World)
      → IsAbove (store_rules top) held manager
      → ((o : Outcome Text) → Onward top held w (k o))
      → IsSafe (store_rules top) w held (manager_to_yaml_string api k)
  unfolding manager_to_yaml_string
  manager_to_yaml_string-IsSafe held w k above rest =
      take-IsSafe top held w manager exclusive _ above λ w1 a1 v1.
        read-IsSafe top (with_manager held) w1 _ λ w2 a2 v2.
          push_loggers-IsSafe (in_order api w2.table) (with_manager held) w2 null _
            (λ i. (lt i, IsAbove-lt top held manager (logger i) above (lt i)))
            (AreLoggers-in_order api w2 w2.table v2.entries)
            (λ o w3 a3 v3.
              release-IsSafe top held w3 manager exclusive _
                (rest _ w3 (Later-trans w w2 w3 (Later-trans w w1 w2 a1 a2) a3) v3))
            w2 (Later-refl w2) v2
    where
      lt : (i : ℕ) → 2 < lock_rank top (logger i)
      lt i = ground arith
