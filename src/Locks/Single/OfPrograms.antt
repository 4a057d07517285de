-- ===== src/Locks/Single/OfPrograms.antt =====
-- One thread that calls the log system, against the operations of `Logging` and `Define`.
use final_designer.Locks.Alone.OfPrograms.{run_calls, alone-program}
use final_designer.Locks.Code.{Mode, System, Reach, IsGrant}
use final_designer.Locks.Program.{Call, program, launch}
use final_designer.Locks.Progress.{is_done}
use final_designer.Locks.Safety.OfPrograms.{program-IsSafe}
use final_designer.Locks.Single.{Reach-alone}
use final_designer.Locks.Store.{Inv, Later-refl, store_rules}
use final_designer.Logging.World.{World}
use final_designer.Prelude.{
  ℕ, ◌≡◌, sym, ap, ◌∙◌, subst, Bool, true, List, [], ◌∷◌, Text, some, all, some-injective,
}
use final_designer.Yaml.{Api}

-- A thread that has the log system to itself, with the locks that it takes: from wherever it is in
-- its calls, it comes to its end, so that it never waits for a lock that it holds itself; and the
-- store that it leaves is the one that the operations of `Logging` and `Define`, one after another,
-- make without a call through a null pointer.
pub launch-program :
    (local_time : Text → ℕ → Text) (api : Api) (grant : List Mode → Mode → Bool) (top : ℕ)
    (cs : List Call) (w : World)
    → IsGrant grant
    → Inv top w
    → {t : System World} → Reach grant (launch w (program local_time api cs ∷ [])) t
    → (s : System World) × Reach grant t s
      × (all is_done s.threads ≡ true)
      × (run_calls local_time api cs w ≡ some s.world)
      × Inv top s.world
launch-program local_time api grant top cs w law v {t} r =
    let (s, q, over, made) =
      Reach-alone grant (store_rules top) law w (program local_time api cs) v
        (program-IsSafe local_time api top cs w w (Later-refl w) v) r in
    let (w', e, ran, v') = alone-program local_time api top cs w v in
    let same : w' ≡ s.world = some-injective _ _ (sym e ∙ made) in
    (s, q, over, ran ∙ ap some same, subst (Inv top) same v')
