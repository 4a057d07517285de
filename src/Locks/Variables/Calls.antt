-- ===== src/Locks/Variables/Calls.antt =====
-- Any number of threads that use a variable, with listeners that keep to the rules.
use final_designer.Config.Var.{Outcome}
use final_designer.Locks.Code.{variable, Mode, Code, Thread, System, holds, turn, Reach, IsGrant}
use final_designer.Locks.Ends.{IsNext, IsNext-Acc, IsSound-ends}
use final_designer.Locks.Program.{launch}
use final_designer.Locks.Progress.{is_done}
use final_designer.Locks.Running.{IsSound}
use final_designer.Locks.Safe.{Rules, IsSafe}
use final_designer.Locks.Together.{launch-IsSound}
use final_designer.Locks.Turns.{Reach-IsSound, turn-Guard}
use final_designer.Locks.Variables.{Shared, Caller}
use final_designer.Locks.Variables.Rules.{Steady}
use mathlib.Core.WellFounded.{Acc}
use final_designer.Prelude.{
  ℕ, zero, suc, ◌≡◌, ◌≢◌, refl, Bool, true, List, [], ◌∷◌, Text, some, get_elem?, all, map, subst,
  some-injective,
}
use final_designer.Locks.Variables.Accesses.{rules, IsCaller}
use final_designer.Locks.Variables.Uses.{Use, uses, uses-IsSafe}

module _ {T F V : Type 0} (rest : Rules V) (x : ℕ) (eq : T → T → Bool) (call : Caller T F V)
    (safe : IsCaller rest x call) (from_str : Text → Outcome T) (to_str : T → Outcome Text)
    (grant : List Mode → Mode → Bool) (law : IsGrant grant) (s : Shared T F V)
    (begins : rest.Inv s.other) (uss : List (List (Use T F))) where
  -- One thread for each sequence of uses.
  abbrev pub users : System (Shared T F V)
  users = launch s (map (uses x eq call from_str to_str) uss)

  users_safe :
      (uss : List (List (Use T F))) (i : ℕ) (c : Code (Shared T F V))
      → get_elem? (map (uses x eq call from_str to_str) uss) i ≡ some c
      → IsSafe (rules rest x) s [] c
  users_safe [] i c e = cc
  users_safe (us ∷ uss) zero c e =
      subst (IsSafe (rules rest x) s []) (some-injective _ _ e)
        (uses-IsSafe rest x eq call safe from_str to_str us s s (rest.later_refl s.other) begins)
  users_safe (us ∷ uss) (suc i) c e = users_safe uss i c e

  reached : {t : System (Shared T F V)} → Reach grant users t → IsSound (rules rest x) t
  reached r =
      Reach-IsSound (rules rest x) grant law
        (launch-IsSound (rules rest x) s (map (uses x eq call from_str to_str) uss) begins
          (users_safe uss))
        r

  -- Threads that use a variable in any order, with listeners that take no lock in front of
  -- that of the variable, and not that: no schedule goes on for ever, and from wherever they
  -- are they come to a state in which all have ended.
  pub users-end :
      {t : System (Shared T F V)}
      → Reach grant users t
      → Acc (IsNext grant) t
        × ((u : System (Shared T F V)) × Reach grant t u × (all is_done u.threads ≡ true))
  users-end {t} r = (IsNext-Acc grant t, IsSound-ends (rules rest x) grant law t (reached r))

  -- While such a thread holds the lock of the variable, as `setValue` does around its
  -- listeners, no step of another changes the value or the listeners.
  pub users-Steady :
      {t t' : System (Shared T F V)} (i j : ℕ) (a : Thread (Shared T F V))
      → Reach grant users t
      → get_elem? t.threads i ≡ some a
      → holds a.held (variable x) ≡ true
      → i ≢ j
      → turn grant t j ≡ some t'
      → (t'.world.val ≡ t.world.val) × (t'.world.cbs ≡ t.world.cbs)
  unfolding Steady
  users-Steady {t} {t'} i j a r e h ne g =
      (turn-Guard (rules rest x) grant law t t' i j a (variable x) (reached r) e h ne g).0 refl
