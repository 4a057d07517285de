-- ===== src/Locks/Variables/Accesses.antt =====
-- One access of a variable with its lock, beside other threads.
use final_designer.Config.Var.{Outcome}
use final_designer.Locks.Code.{
  Lock, variable, Mode, shared, exclusive, Code, act, take, release, Hold, lock_eq, registry,
  manager, logger, appender, owns,
}
use final_designer.Locks.Safe.{Rules, IsSafe}
use final_designer.Locks.Variables.{Shared, Caller, look}
use final_designer.Locks.Variables.Rules.{Steady, Steady-refl, variable_rules}
use final_designer.Prelude.{ℕ, ◌≡◌, refl, sym, false, List, [], ◌∷◌, arith, subst, ==_iff}

-- The one lock of a thread that is in a call of a variable.
abbrev pub in_call : ℕ → Mode → List Hold
in_call x m = record { lock = variable x; mode = m } ∷ []

module _ {T F V : Type 0} (rest : Rules V) (x : ℕ) where
  abbrev pub rules : Rules (Shared T F V)
  rules = variable_rules rest x

  -- Safe with some locks in whatever can come after `s`.
  abbrev pub Onward : List Hold → Shared T F V → Code (Shared T F V) → Type 0
  Onward held s k =
      (s' : Shared T F V) → rest.Later s.other s'.other → rest.Inv s'.other → IsSafe rules s' held k

  -- A listener may be called while the lock of the variable is held, if what follows may go on in
  -- whatever state it leaves: it takes no lock in front of that of the variable, and not that.
  abbrev pub IsCaller : Caller T F V → Type 0
  IsCaller call =
      (f : F) (old new : T) (s : Shared T F V) (k : Outcome (Unit {0}) → Code (Shared T F V))
      → ((r : Outcome (Unit {0})) → Onward (in_call x shared) s (k r))
      → IsSafe rules s (in_call x shared) (call f old new k)

  -- An access of the variable alone.
  pub act-IsSafe :
      (held : List Hold) (s : Shared T F V) (g : Shared T F V → Shared T F V)
      (k : Shared T F V → Code (Shared T F V))
      → ((t : Shared T F V) → (g t).other ≡ t.other)
      → ((t : Shared T F V) (l : Lock) → owns held l ≡ false → Steady rest x l t (g t))
      → ((t : Shared T F V)
          → rest.Later s.other t.other
          → rest.Inv t.other
          → IsSafe rules (g t) held (k t))
      → IsSafe rules s held (act g k)
  unfolding IsSafe
  act-IsSafe held s g k same steady h = λ t r i. (
    subst rest.Inv (sym (same t)) i,
    record {
      later = subst (rest.Later t.other) (sym (same t)) (rest.later_refl t.other);
      guard = λ l o.
          (steady t l o, subst (rest.Guard l t.other) (sym (same t)) (rest.guard_refl l t.other));
    },
    h t r.later i,
  )

  pub look-IsSafe :
      (held : List Hold) (s : Shared T F V) (k : Shared T F V → Code (Shared T F V))
      → ((t : Shared T F V)
          → rest.Later s.other t.other
          → rest.Inv t.other
          → IsSafe rules t held (k t))
      → IsSafe rules s held (look k)
  look-IsSafe held s k h =
      act-IsSafe held s (λ t. t) k (λ t. refl) (λ t l o. Steady-refl rest x l t) h

  -- A lock for one access, or for more.
  pub take-IsSafe :
      (s : Shared T F V) (m : Mode) (k : Code (Shared T F V))
      → Onward (record { lock = variable x; mode = m } ∷ []) s k
      → IsSafe rules s [] (take (variable x) m k)
  unfolding IsSafe
  take-IsSafe s m k h = (tt, λ t r i. h t r.later i)

  pub release-IsSafe :
      (s : Shared T F V) (m : Mode) (k : Code (Shared T F V))
      → IsSafe rules s [] k
      → IsSafe rules s (record { lock = variable x; mode = m } ∷ []) (release (variable x) k)
  unfolding IsSafe
  release-IsSafe s m k h = (m, [], refl, h)

  -- Every write of the variable is one under the lock of a writer.
  pub owned :
      (t t' : Shared T F V) (l : Lock) → owns (in_call x exclusive) l ≡ false → Steady rest x l t t'
  unfolding Steady owns lock_eq
  owned t t' (variable y) o = λ e. absurd (ground (arith, o, e, ==_iff x y))
  owned t t' registry o = tt
  owned t t' manager o = tt
  owned t t' (logger i) o = tt
  owned t t' (appender j) o = tt

  -- One write.
  pub write-IsSafe :
      (s : Shared T F V) (g : Shared T F V → Shared T F V) (k : Code (Shared T F V))
      → ((t : Shared T F V) → (g t).other ≡ t.other)
      → Onward [] s k
      → IsSafe rules s [] (take (variable x) exclusive (act g λ t. release (variable x) k))
  write-IsSafe s g k same h = take-IsSafe s exclusive _ λ t r i.
      act-IsSafe (in_call x exclusive) t g _ same (λ u l o. owned u (g u) l o)
        λ u q j. release-IsSafe (g u) exclusive k (
          h (g u)
            (subst (rest.Later s.other) (sym (same u))
              (rest.later_trans s.other t.other u.other r q))
            (subst rest.Inv (sym (same u)) j))

  -- One access that reads.
  pub read-IsSafe :
      (s : Shared T F V) (f : Shared T F V → Code (Shared T F V))
      → ((t : Shared T F V) → Onward [] s (f t))
      → IsSafe rules s [] (take (variable x) shared (look λ t. release (variable x) (f t)))
  read-IsSafe s f h = take-IsSafe s shared _ λ t r i. look-IsSafe (in_call x shared) t _ λ u q j.
      release-IsSafe u shared (f u) (h u u (rest.later_trans s.other t.other u.other r q) j)
