-- ===== src/Tests/Variables.antt =====
-- Threads that share a variable, on a concrete schedule.
use final_designer.Config.Var
use final_designer.Config.Var.{Outcome, returns, throws, Listener}
use final_designer.Locks.Code.{
  Lock, registry, variable, manager, logger, appender, done, act, Thread, System, holds, turn,
  advance, alone, Reach, start, next,
}
use final_designer.Locks.Ends.{IsNext}
use final_designer.Locks.Program.{launch}
use final_designer.Locks.Progress.{is_done}
use final_designer.Locks.Safe.{Rules, IsSafe}
use final_designer.Locks.Store.{lock_rank, lock_rank_le}
use final_designer.Locks.Variables.{Shared, Caller, add_listener, get_value, set_value}
use final_designer.Locks.Variables.Alone.{var_of}
use final_designer.Locks.Variables.Single.{launch-set_value}
use final_designer.Locks.Variables.Accesses.{IsCaller, Onward}
use final_designer.Locks.Variables.Calls.{users, users-end, users-Steady}
use final_designer.Locks.Variables.Uses.{Use, get, set, set_text, add, del, use_variable, uses}
use final_designer.Locks.Variables.Rules.{Steady}
use final_designer.Locks.Variables.Stuck.{set_value-stuck}
use final_designer.Prelude.{
  ℕ, ◌+◌, ◌≡◌, refl, true, false, List, [], ◌∷◌, Text, codes, decimal, Option, none, some, all,
  get_elem?, arith, ◌==◌,
}
use final_designer.Tests.Locks.{plain, plain-IsGrant}
use mathlib.Core.WellFounded.{Acc}

-- The state outside is a number, of which nothing is asked.
abbrev loose : Rules ℕ
loose = record {
  Inv = λ n. Unit;
  Later = λ m n. Unit;
  Guard = λ l m n. Unit;
  rank = lock_rank 0;
  bound = 5;
  rank_le = lock_rank_le 0;
  later_refl = λ n. tt;
  later_trans = λ m n o a b. tt;
  guard_refl = λ l n. tt;
  guard_trans = λ l m n o a b. tt;
}

-- A listener is a number, which it adds to the state.
abbrev adds : Caller ℕ ℕ ℕ
adds f old new k = act (λ s. record s { other = f + s.other }) λ s. k (returns tt)

abbrev sums : ℕ → Listener ℕ ℕ
sums f old new n = (f + n, returns tt)

adds-IsCaller : IsCaller loose 0 adds
unfolding IsSafe Steady
adds-IsCaller f old new s k h = λ t r i. (
  tt,
  record { later = tt; guard = λ l o. (steady t l, tt) },
  h (returns tt) (record t { other = f + t.other }) tt tt,
)
  where
    steady : (t : Shared ℕ ℕ ℕ) (l : Lock) → Steady loose 0 l t (record t { other = f + t.other })
    steady t (variable y) = λ e. (refl, refl)
    steady t registry = tt
    steady t manager = tt
    steady t (logger i) = tt
    steady t (appender j) = tt

abbrev from_str : Text → Outcome ℕ
from_str text = throws text

abbrev to_str : ℕ → Outcome Text
to_str n = returns (decimal n)

abbrev fresh : Shared ℕ ℕ ℕ
fresh = record { val = 1; cbs = (1, 10) ∷ (2, 30) ∷ []; count = 2; other = 0 }

-- One thread sets the variable and deletes a listener, the other adds one and reads.
abbrev uss : List (List (Use ℕ ℕ))
uss = (set 5 ∷ del 1 ∷ []) ∷ (get ∷ add 7 ∷ set_text (codes "x") ∷ []) ∷ []

abbrev two : System (Shared ℕ ℕ ℕ)
two = users loose 0 ◌==◌ adds adds-IsCaller from_str to_str plain plain-IsGrant fresh tt uss

record Run : Type 0 where
  last : System (Shared ℕ ℕ ℕ)
  open last use *
  reach : Reach plain two last

go : (r : Run) (i : ℕ) (o : Option (System (Shared ℕ ℕ ℕ))) → turn plain r.last i ≡ o → Run
go r i none e = r
go r i (some s) e = record { last = s; reach = next i r.reach e }

play : Run → List ℕ → Run
unfolding go turn
play r [] = r
play r (i ∷ is) = play (go r i (turn plain r.last i) refl) is

-- Thread 0 is in `setValue`, behind its first listener.
abbrev busy : Run
busy = play (record { last = two; reach = start }) (0 ∷ 0 ∷ 0 ∷ 0 ∷ [])

abbrev thread_of : Run → ℕ → Thread (Shared ℕ ℕ ℕ)
thread_of r i = elim (get_elem? r.threads i) [
  | none ↦ record { code = done; held = [] }
  | some t ↦ t
]

abbrev after : Run → ℕ → System (Shared ℕ ℕ ℕ)
after r i = elim (turn plain r.last i) [ none ↦ r.last | some s ↦ s ]

busy_runs : (holds (thread_of busy 0).held (variable 0) ≡ true) × (busy.world.other ≡ 10)
unfolding play turn advance uses use_variable set_value plain holds
busy_runs = (refl, refl)

users-end_example :
    Acc (IsNext plain) busy.last
    × ((u : System (Shared ℕ ℕ ℕ)) × Reach plain busy.last u × (all is_done u.threads ≡ true))
users-end_example =
    users-end loose 0 ◌==◌ adds adds-IsCaller from_str to_str plain plain-IsGrant fresh tt uss
      busy.reach

users-Steady_example :
    ((after busy 1).world.val ≡ busy.world.val) × ((after busy 1).world.cbs ≡ busy.world.cbs)
unfolding play turn advance uses use_variable set_value get_value plain holds
users-Steady_example =
    users-Steady loose 0 ◌==◌ adds adds-IsCaller from_str to_str plain plain-IsGrant fresh tt uss 0
      1 (thread_of busy 0) busy.reach refl refl (omega arith) refl

-- A listener that adds a listener.
abbrev registers : Caller ℕ ℕ ℕ
registers f old new k = add_listener 0 7 λ key. k (returns tt)

abbrev listening : System (Shared ℕ ℕ ℕ)
listening = launch fresh (set_value 0 ◌==◌ registers 5 (λ r. done) ∷ get_value 0 (λ v. done) ∷ [])

set_value-stuck_example :
    (t : System (Shared ℕ ℕ ℕ)) × Reach plain listening t
    × ((t' : System (Shared ℕ ℕ ℕ))
        → Reach plain t t'
        → (turn plain t' 0 ≡ none) × (all is_done t'.threads ≡ false))
set_value-stuck_example =
    set_value-stuck plain 0 ◌==◌ registers 10 7 1 ((2, 30) ∷ []) 5 (λ r. done) fresh
      (get_value 0 (λ v. done) ∷ []) plain-IsGrant refl refl (λ old new h. refl)

goes_on : (r : Outcome (Unit {0})) → Onward loose 0 [] fresh done
unfolding IsSafe
goes_on r s a i = refl

launch-set_value_example :
    (u : System (Shared ℕ ℕ ℕ)) × Reach plain
      (launch fresh (set_value 0 ◌==◌ adds 5 (λ r. done) ∷ []))
      u
    × (all is_done u.threads ≡ true)
    × (some (record {
      val = (Var.set_value ◌==◌ (var_of 0 ◌==◌ adds sums fresh) 5 0).0.val;
      cbs = fresh.cbs;
      count = 2;
      other = (Var.set_value ◌==◌ (var_of 0 ◌==◌ adds sums fresh) 5 0).1;
    })
        ≡ some u.world)
unfolding alone
launch-set_value_example =
    launch-set_value loose 0 ◌==◌ adds sums plain 5 (λ r. done) fresh plain-IsGrant adds-IsCaller
      (λ f old new k s. refl) goes_on tt Reach.start

-- `setValue` gives up the lock of a reader before it takes that of a writer: of two threads that
-- set a variable, one stores last and the other has called the listeners last.
abbrev tells : Caller ℕ ℕ ℕ
tells f old new k = act (λ s. record s { other = new }) λ s. k (returns tt)

abbrev setters : System (Shared ℕ ℕ ℕ)
setters = launch fresh (
    uses 0 ◌==◌ tells from_str to_str (set 5 ∷ [])
    ∷ uses 0 ◌==◌ tells from_str to_str (set 6 ∷ [])
    ∷ [])

abbrev drive : System (Shared ℕ ℕ ℕ) → List ℕ → System (Shared ℕ ℕ ℕ)
drive s [] = s
drive s (i ∷ is) = drive (elim (turn plain s i) [ none ↦ s | some t ↦ t ]) is

abbrev both_set : System (Shared ℕ ℕ ℕ)
both_set =
    drive setters
      (0 ∷ 0 ∷ 0 ∷ 0 ∷ 0 ∷ 0 ∷ 0 ∷ 1 ∷ 1 ∷ 1 ∷ 1 ∷ 1 ∷ 1 ∷ 1 ∷ 1 ∷ 1 ∷ 1 ∷ 0 ∷ 0 ∷ 0 ∷ [])

setters_differ :
    (all is_done both_set.threads ≡ true) × (both_set.world.val ≡ 5) × (both_set.world.other ≡ 6)
unfolding turn advance uses use_variable set_value plain
setters_differ = (refl, refl, refl)
