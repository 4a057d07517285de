-- ===== src/Locks/Variables/Single.antt =====
-- `setValue` with its locks, in a thread that has the variable to itself.
use final_designer.Config.Var
use final_designer.Config.Var.{Outcome, Listener}
use final_designer.Locks.Code.{Mode, Code, System, Reach, IsGrant, alone}
use final_designer.Locks.Program.{launch}
use final_designer.Locks.Progress.{is_done}
use final_designer.Locks.Safe.{Rules}
use final_designer.Locks.Single.{Reach-alone}
use final_designer.Locks.Variables.{Shared, Caller, set_value}
use final_designer.Locks.Variables.Accesses.{rules, Onward, IsCaller}
use final_designer.Locks.Variables.Alone.{HasEffect, var_of, alone-set_value}
use final_designer.Locks.Variables.Uses.{set_value-IsSafe}
use final_designer.Prelude.{ℕ, ◌≡◌, sym, ◌∙◌, Bool, true, List, [], ◌∷◌, some, all}

-- A thread calls `setValue`, and then goes on with what it learns of exceptions. Its listeners take
-- no lock in front of that of the variable, and not that, and each has an effect when it is called.
-- From wherever the thread is, it comes to its end, so that it never waits for a lock that it holds
-- itself; and it leaves the state that its rest makes of the value, the effects of the listeners and
-- the exception that the sequential `setValue` gives.
pub launch-set_value :
    {T F V : Type 0} (rest : Rules V) (x : ℕ) (eq : T → T → Bool) (call : Caller T F V)
    (effect : F → Listener T V) (grant : List Mode → Mode → Bool) (v : T)
    (k : Outcome (Unit {0}) → Code (Shared T F V)) (s : Shared T F V)
    → IsGrant grant
    → IsCaller rest x call
    → HasEffect x eq call effect
    → ((r : Outcome (Unit {0})) → Onward rest x [] s (k r))
    → rest.Inv s.other
    → {t : System (Shared T F V)} → Reach grant (launch s (set_value x eq call v k ∷ [])) t
    → (u : System (Shared T F V)) × Reach grant t u
      × (all is_done u.threads ≡ true)
      × (alone (k (Var.set_value eq (var_of x eq call effect s) v s.other).2) (record s {
        val = (Var.set_value eq (var_of x eq call effect s) v s.other).0.val;
        other = (Var.set_value eq (var_of x eq call effect s) v s.other).1;
      })
          ≡ some u.world)
launch-set_value rest x eq call effect grant v k s law safe has onward inv r =
    let (u, q, over, made) =
      Reach-alone grant (rules rest x) law s (set_value x eq call v k) inv
        (set_value-IsSafe rest x eq call safe v s k onward) r in
    (u, q, over, sym (alone-set_value x eq call effect has v k s) ∙ made)
