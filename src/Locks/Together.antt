-- ===== src/Locks/Together.antt =====
-- Any number of threads that call the log system, from the manager's constructor on, in any order.
use final_designer.Locks.Code.{
  logger, Mode, Code, crash, Thread, System, holds, owns, turn, Reach, IsGrant,
}
use final_designer.Locks.Program.{Call, program, launch}
use final_designer.Locks.Progress.{is_done, IsSound-progress}
use final_designer.Locks.Running.{IsSound}
use final_designer.Locks.Safe.{Rules, IsSafe}
use final_designer.Locks.Safety.OfPrograms.{program-IsSafe, new_manager-Inv}
use final_designer.Locks.Store.{Later-refl, Guard, store_rules}
use final_designer.Locks.Turns.{Reach-IsSound, Reach-Later, turn-Guard}
use final_designer.Logging.Invariant.{IsLogger, IsValid}
use final_designer.Logging.Managing.{IsNamed}
use final_designer.Logging.Manager.{find_logger, new_manager}
use final_designer.Logging.Sink.{Disk}
use final_designer.Logging.World.{Logger, World}
use final_designer.Prelude.{
  ℕ, zero, suc, ◌≡◌, ◌≢◌, ◌⊎◌, refl, Bool, true, List, [], ◌∷◌, Text, some, get_elem?, all, arith,
  map, subst, some-injective,
}
use final_designer.Yaml.{Api}

module _ {W : Type 0} (rules : Rules W) where
  -- A thread that has not begun runs one of the codes, and holds no lock.
  launched :
      (w : W) (cs : List (Code W))
      → ((i : ℕ) (c : Code W) → get_elem? cs i ≡ some c → IsSafe rules w [] c)
      → (i : ℕ) (t : Thread W) → get_elem? (launch w cs).threads i ≡ some t
      → (t.held ≡ []) × IsSafe rules w t.held t.code
  launched w [] h i t e = cc
  launched w (c ∷ cs) h zero t e =
      subst (λ (x : Thread W). (x.held ≡ []) × IsSafe rules w x.held x.code) (some-injective _ _ e)
        (refl, h zero c refl)
  launched w (c ∷ cs) h (suc i) t e = launched w cs (λ j. h (suc j)) i t e

  pub launch-IsSound :
      (w : W) (cs : List (Code W))
      → rules.Inv w
      → ((i : ℕ) (c : Code W) → get_elem? cs i ≡ some c → IsSafe rules w [] c)
      → IsSound rules (launch w cs)
  unfolding owns
  launch-IsSound w cs v h = record {
    inv = v;
    safe = λ i t e. (launched w cs h i t e).1;
    apart = λ i j t u e f ne l o. absurd (ground (arith, rw ((launched w cs h i t e).0) at o));
  }

module _ (local_time : Text → ℕ → Text) (api : Api) (grant : List Mode → Mode → Bool)
    (law : IsGrant grant) (d : Disk) (css : List (List Call)) where
  -- One thread for each sequence of calls.
  abbrev pub started : System World
  started = launch (new_manager d) (map (program local_time api) css)

  codes_safe :
      (css : List (List Call)) (i : ℕ) (c : Code World)
      → get_elem? (map (program local_time api) css) i ≡ some c
      → IsSafe (store_rules 0) (new_manager d) [] c
  codes_safe [] i c e = cc
  codes_safe (cs ∷ css) zero c e =
      subst (IsSafe (store_rules 0) (new_manager d) []) (some-injective _ _ e) (
        program-IsSafe local_time api 0 cs (new_manager d) (new_manager d)
          (Later-refl (new_manager d)) (new_manager-Inv d))
  codes_safe (cs ∷ css) (suc i) c e = codes_safe css i c e

  reached : {s : System World} → Reach grant started s → IsSound (store_rules 0) s
  reached r =
      Reach-IsSound (store_rules 0) grant law
        (launch-IsSound (store_rules 0) (new_manager d) (map (program local_time api) css)
          (new_manager-Inv d) (codes_safe css))
        r

  -- However the steps of any number of threads that call the log system interleave, some thread can
  -- make a step until all have ended: the locks of the manager, of the loggers and of the appenders
  -- never lead to a deadlock, and no thread stops at a null pointer with the others all waiting.
  pub Reach-progress :
      {s : System World}
      → Reach grant started s
      → (all is_done s.threads ≡ true) ⊎ ((i : ℕ) × (t : System World) × (turn grant s i ≡ some t))
  Reach-progress {s} r = IsSound-progress (store_rules 0) grant law s (reached r)

  -- In whatever such threads reach, the store is valid, the manager's map leads each name to a
  -- logger of that name, and no thread is at a call through a null pointer.
  pub Reach-no_crash :
      {s : System World} (i : ℕ) (t : Thread World)
      → Reach grant started s
      → get_elem? s.threads i ≡ some t
      → IsValid s.world × IsNamed s.world × (t.code ≢ crash)
  unfolding IsSafe
  Reach-no_crash {s} i t r e =
      let v = reached r in
      (
        v.inv.valid,
        v.inv.named,
        λ q. subst (IsSafe (store_rules 0) s.world t.held) q (v.safe i t e),
      )

  -- The threads make the calls of `Call`, in any order, and `Logger::clearAppenders`, which takes no
  -- lock, is not one of these. While one of them holds the lock of a logger, no step of another
  -- changes the appenders or the formatter of that logger: a loop over its list meets the list that
  -- it began with.
  pub Reach-kept :
      {s s' : System World} (i j k : ℕ) (t : Thread World) (l : Logger)
      → Reach grant started s
      → get_elem? s.threads i ≡ some t
      → holds t.held (logger k) ≡ true
      → i ≢ j
      → turn grant s j ≡ some s'
      → IsLogger s.world k l
      → (l' : Logger) × IsLogger s'.world k l'
        × (l'.appenders ≡ l.appenders)
        × (l'.formatter ≡ l.formatter)
  unfolding Guard
  Reach-kept {s} {s'} i j k t l r e h ne g f =
      turn-Guard (store_rules 0) grant law s s' i j t (logger k) (reached r) e h ne g l f

  -- Once the manager's map leads a name to a logger, it leads the name to that logger in whatever
  -- the threads reach from there: threads that ask for one name at once get one logger.
  pub Reach-named :
      {s s' : System World} (n : Text) (i : ℕ)
      → Reach grant started s
      → Reach grant s s'
      → find_logger s.world.table n ≡ some i
      → (find_logger s'.world.table n ≡ some i)
        × ((l : Logger) × IsLogger s'.world i l × (l.name ≡ n))
  Reach-named {s} {s'} n i r q e =
      let v = reached r in
      let later = (Reach-Later (store_rules 0) grant law v q).table n i e in
      (later, (Reach-IsSound (store_rules 0) grant law v q).inv.named n i later)
