-- ===== src/Thread/Scoped.antt =====
-- The scoped locks of nnysl/thread.h, over any mutex.
use final_designer.Prelude.{Bool, true, false, List, [], ◌∷◌, not, if◌then◌else◌}

-- A scoped lock, and the state of the mutex that it refers to.
pub record Guard (S : Type 0) : Type 0 where
  pub mutex : S
  pub locked : Bool

-- The calls that a program makes on a scoped lock.
pub data Call : Type 0 where
  lock : Call
  unlock : Call

module _ {S : Type 0} (acquire release : S → S) where
  -- `ScopedLockImpl`: the constructor, `lock`, `unlock`, and the destructor, with the mutex that it
  -- leaves. `acquire` is the mutex's `lock`.
  unfoldable pub new_scoped : S → Guard S
  new_scoped s = record { mutex = acquire s; locked = true }

  unfoldable pub scoped_lock : Guard S → Guard S
  scoped_lock g = if not g.locked then record { mutex = acquire g.mutex; locked = true } else g

  unfoldable pub scoped_unlock : Guard S → Guard S
  scoped_unlock g = if g.locked then record { mutex = release g.mutex; locked = false } else g

  unfoldable pub scoped_call : Call → Guard S → Guard S
  unfolding scoped_lock scoped_unlock
  scoped_call lock g = scoped_lock g
  scoped_call unlock g = scoped_unlock g

  unfoldable pub delete_scoped : Guard S → S
  unfolding scoped_unlock
  delete_scoped g = (scoped_unlock g).mutex

  -- `ReadScopedLockImpl` and `WriteScopedLockImpl` clear the flag before they unlock. `acquire` is
  -- the mutex's `rdlock` or `wrlock`.
  unfoldable pub shared_unlock : Guard S → Guard S
  shared_unlock g =
      if g.locked
      then (let g1 : Guard S = record g { locked = false } in
          record g1 { mutex = release g1.mutex })
      else g

  unfoldable pub shared_call : Call → Guard S → Guard S
  unfolding scoped_lock shared_unlock
  shared_call lock g = scoped_lock g
  shared_call unlock g = shared_unlock g

  unfoldable pub delete_shared : Guard S → S
  unfolding shared_unlock
  delete_shared g = (shared_unlock g).mutex

  -- A scoped lock from its construction to its destruction, with calls in between.
  unfoldable pub calls : (Call → Guard S → Guard S) → List Call → Guard S → Guard S
  calls call [] g = g
  calls call (c ∷ cs) g = calls call cs (call c g)

  unfoldable pub with_scoped : List Call → S → S
  unfolding calls new_scoped scoped_call delete_scoped
  with_scoped cs s = delete_scoped (calls scoped_call cs (new_scoped s))

  unfoldable pub with_shared : List Call → S → S
  unfolding calls new_scoped shared_call delete_shared
  with_shared cs s = delete_shared (calls shared_call cs (new_scoped s))
