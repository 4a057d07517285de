-- ===== src/Locks/Variables.antt =====
-- The operations of `ConfigVar`, with its lock, by any number of threads. Listeners are pointers
-- `F`, called by `call`; they act on a state `V` outside the variable.
pub mod Rules
pub mod Accesses
pub mod Uses
pub mod Calls
pub mod Stuck
pub mod Alone
pub mod Single
use final_designer.Config.Var
use final_designer.Config.Var.{Outcome, returns, throws, put, remove}
use final_designer.Locks.Code.{Code, act, take, release, variable, shared, exclusive}
use final_designer.Prelude.{ℕ, ◌+◌, ◌%◌, ◌^◌, Bool, List, [], ◌∷◌, Text, Option, if◌then◌else◌}

-- `m_val` and `m_cbs` of the variable, `s_fun_id` of its type, and the state outside.
pub record Shared (T F V : Type 0) : Type 0 where
  pub val : T
  pub cbs : List (ℕ × F)
  pub count : ℕ
  pub other : V

-- An access that reads.
abbrev pub look : {T F V : Type 0} → (Shared T F V → Code (Shared T F V)) → Code (Shared T F V)
look k = act (λ s. s) k

-- A listener, called with the old and the new value, in front of the rest of the thread, which
-- learns whether it threw.
abbrev pub Caller : Type 0 → Type 0 → Type 0 → Type 0
Caller T F V = F → T → T → (Outcome (Unit {0}) → Code (Shared T F V)) → Code (Shared T F V)

-- The variable of the lock `x`.
module _ {T F V : Type 0} (x : ℕ) where
  -- `ConfigVar::getValue`
  unfoldable pub get_value : (T → Code (Shared T F V)) → Code (Shared T F V)
  get_value k = take (variable x) shared (look λ s. release (variable x) (k s.val))

  -- `ConfigVar::toString`: the lock is released in front of the handler of an exception.
  unfoldable pub to_string :
      (T → Outcome Text) → (Outcome Text → Code (Shared T F V)) → Code (Shared T F V)
  to_string to_str k = take (variable x) shared (look λ s. release (variable x) (k (to_str s.val)))

  -- `m_val = v`, under the lock of a writer.
  abbrev pub storing : T → (Outcome (Unit {0}) → Code (Shared T F V)) → Code (Shared T F V)
  storing v k =
      take (variable x) exclusive
        (act (λ s. record s { val = v }) λ s. release (variable x) (k (returns tt)))

  -- `ConfigVar::addListener`: the counter of the type is raised, and then read twice.
  unfoldable pub add_listener : F → (ℕ → Code (Shared T F V)) → Code (Shared T F V)
  unfolding put
  add_listener f k = take (variable x) exclusive (
      act (λ s. record s { count = (s.count + 1) % 2 ^ 64 })
        λ s.
          act (λ s'. record s' { cbs = put s'.count f s'.cbs })
            λ s'. look λ s''. release (variable x) (k s''.count))

  -- `delListener`, `getListener` and `clearListener`
  unfoldable pub del_listener : ℕ → Code (Shared T F V) → Code (Shared T F V)
  unfolding remove
  del_listener key k =
      take (variable x) exclusive
        (act (λ s. record s { cbs = remove key s.cbs }) λ s. release (variable x) k)

  unfoldable pub get_listener : ℕ → (Option F → Code (Shared T F V)) → Code (Shared T F V)
  unfolding Var.find
  get_listener key k =
      take (variable x) shared (look λ s. release (variable x) (k (Var.find key s.cbs)))

  unfoldable pub clear_listener : Code (Shared T F V) → Code (Shared T F V)
  clear_listener k =
      take (variable x) exclusive (act (λ s. record s { cbs = [] }) λ s. release (variable x) k)

  module _ (eq : T → T → Bool) (call : Caller T F V) where
    -- The loop of `setValue`; an exception leaves it.
    unfoldable pub call_listeners :
        List (ℕ × F) → T → (Outcome (Unit {0}) → Code (Shared T F V)) → Code (Shared T F V)
    call_listeners [] v k = k (returns tt)
    call_listeners ((id, f) ∷ rest) v k = look λ s.
        call f s.val v
          λ result. elim result [ throws e ↦ k (throws e) | returns u ↦ call_listeners rest v k ]

    -- Behind the loop: the lock of a reader is released, and that of a writer taken.
    abbrev pub called :
        T → (Outcome (Unit {0}) → Code (Shared T F V)) → Outcome (Unit {0}) → Code (Shared T F V)
    called v k (throws e) = release (variable x) (k (throws e))
    called v k (returns u) = release (variable x) (storing v k)

    -- `ConfigVar::setValue`; `eq` is the `operator==` of `T`.
    unfoldable pub set_value : T → (Outcome (Unit {0}) → Code (Shared T F V)) → Code (Shared T F V)
    unfolding call_listeners
    set_value v k = take (variable x) shared (
        look λ s.
          if eq v s.val
          then release (variable x) (k (returns tt))
          else call_listeners s.cbs v (called v k))

    -- `ConfigVar::fromString`, in front of the handler of an exception.
    unfoldable pub from_string :
        (Text → Outcome T) → Text → (Outcome (Unit {0}) → Code (Shared T F V)) → Code (Shared T F V)
    unfolding set_value
    from_string from_str text k = elim (from_str text) [
      | throws e ↦ k (throws e)
      | returns v ↦ set_value v k
    ]
