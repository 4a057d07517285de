-- ===== src/Locks/Variables/Rules.antt =====
-- The rules for a variable and the state that its listeners act on: its value and its listeners
-- are protected by its lock.
use final_designer.Locks.Code.{Lock, registry, variable, manager, logger, appender}
use final_designer.Locks.Safe.{Rules}
use final_designer.Locks.Variables.{Shared}
use final_designer.Prelude.{ℕ, ◌≡◌, refl, ◌∙◌}

module _ {T F V : Type 0} (rest : Rules V) (x : ℕ) where
  -- What the lock of the variable protects.
  unfoldable pub Steady : Lock → Shared T F V → Shared T F V → Type 0
  Steady (variable y) s s' = y ≡ x → (s'.val ≡ s.val) × (s'.cbs ≡ s.cbs)
  Steady registry s s' = Unit
  Steady manager s s' = Unit
  Steady (logger i) s s' = Unit
  Steady (appender j) s s' = Unit

  pub Steady-refl : (l : Lock) (s : Shared T F V) → Steady l s s
  unfolding Steady
  Steady-refl (variable y) s = λ e. (refl, refl)
  Steady-refl registry s = tt
  Steady-refl manager s = tt
  Steady-refl (logger i) s = tt
  Steady-refl (appender j) s = tt

  pub Steady-trans : (l : Lock) (s t u : Shared T F V) → Steady l s t → Steady l t u → Steady l s u
  unfolding Steady
  Steady-trans (variable y) s t u a b = λ e. ((b e).0 ∙ (a e).0, (b e).1 ∙ (a e).1)
  Steady-trans registry s t u a b = tt
  Steady-trans manager s t u a b = tt
  Steady-trans (logger i) s t u a b = tt
  Steady-trans (appender j) s t u a b = tt

  abbrev pub variable_rules : Rules (Shared T F V)
  variable_rules = record {
    Inv = λ s. rest.Inv s.other;
    Later = λ s t. rest.Later s.other t.other;
    Guard = λ l s t. Steady l s t × rest.Guard l s.other t.other;
    rank = rest.rank;
    bound = rest.bound;
    rank_le = rest.rank_le;
    later_refl = λ s. rest.later_refl s.other;
    later_trans = λ s t u. rest.later_trans s.other t.other u.other;
    guard_refl = λ l s. (Steady-refl l s, rest.guard_refl l s.other);
    guard_trans = λ l s t u (a, b) (c, d).
        (Steady-trans l s t u a c, rest.guard_trans l s.other t.other u.other b d);
  }
