-- ===== src/Thread/Guards.antt =====
-- What a scoped lock does to its mutex.
use final_designer.Prelude.{◌≡◌, refl, true, false, List, [], ◌∷◌, ap, ◌∙◌, Bool-cases, inl, inr}
use final_designer.Thread.Scoped.{
  Guard, Call, lock, unlock, new_scoped, scoped_unlock, scoped_call, delete_scoped, shared_unlock,
  shared_call, delete_shared, calls, with_scoped, with_shared,
}

module _ {S : Type 0} (acquire release : S → S) where
  -- A mutex after one section or more, each of which acquires it and releases it again.
  pub data Sections (s : S) : S → Type 0 where
    first : Sections s (release (acquire s))
    next : {t : S} → Sections s t → Sections s (release (acquire t))

  -- The flag of a scoped lock tells whether a section is open.
  data IsGuarded (s : S) : Guard S → Type 0 where
    open_first : IsGuarded s (record { mutex = acquire s; locked = true })
    open_next : {t : S} → Sections s t → IsGuarded s (record { mutex = acquire t; locked = true })
    closed : {t : S} → Sections s t → IsGuarded s (record { mutex = t; locked = false })

  scoped_call-IsGuarded :
      (s : S) (c : Call) (g : Guard S)
      → IsGuarded s g
      → IsGuarded s (scoped_call acquire release c g)
  unfolding scoped_call
  scoped_call-IsGuarded s lock _ open_first = open_first
  scoped_call-IsGuarded s lock _ (open_next h) = open_next h
  scoped_call-IsGuarded s lock _ (closed h) = open_next h
  scoped_call-IsGuarded s unlock _ open_first = closed first
  scoped_call-IsGuarded s unlock _ (open_next h) = closed (next h)
  scoped_call-IsGuarded s unlock _ (closed h) = closed h

  calls-IsGuarded :
      (s : S) (cs : List Call) (g : Guard S)
      → IsGuarded s g
      → IsGuarded s (calls acquire release (scoped_call acquire release) cs g)
  unfolding calls
  calls-IsGuarded s [] g h = h
  calls-IsGuarded s (c ∷ cs) g h = calls-IsGuarded s cs _ (scoped_call-IsGuarded s c g h)

  delete_scoped-Sections :
      (s : S) (g : Guard S) → IsGuarded s g → Sections s (delete_scoped acquire release g)
  unfolding delete_scoped
  delete_scoped-Sections s _ open_first = first
  delete_scoped-Sections s _ (open_next h) = next h
  delete_scoped-Sections s _ (closed h) = h

  -- Whatever calls a program makes on a `ScopedLockImpl` between its construction and its
  -- destruction, the mutex is acquired and released in turn, and released at the end.
  pub with_scoped-Sections :
      (cs : List Call) (s : S) → Sections s (with_scoped acquire release cs s)
  unfolding with_scoped
  with_scoped-Sections cs s = delete_scoped-Sections s _ (calls-IsGuarded s cs _ open_first)

  shared_unlock-scoped_unlock :
      (g : Guard S) → shared_unlock acquire release g ≡ scoped_unlock acquire release g
  unfolding shared_unlock scoped_unlock
  shared_unlock-scoped_unlock g = elim (Bool-cases g.locked) [
    | inl t ↦ rw t refl
    | inr f ↦ rw f refl
  ]

  shared_call-scoped_call :
      (c : Call) (g : Guard S) → shared_call acquire release c g ≡ scoped_call acquire release c g
  unfolding shared_call scoped_call
  shared_call-scoped_call lock g = refl
  shared_call-scoped_call unlock g = shared_unlock-scoped_unlock g

  calls_same :
      (cs : List Call) (g : Guard S)
      → calls acquire release (shared_call acquire release) cs g
        ≡ calls acquire release (scoped_call acquire release) cs g
  unfolding calls
  calls_same [] g = refl
  calls_same (c ∷ cs) g =
      ap (calls acquire release (shared_call acquire release) cs) (shared_call-scoped_call c g)
      ∙ calls_same cs _

  -- `ReadScopedLockImpl` and `WriteScopedLockImpl`, which clear their flag before they unlock, come
  -- to the same as `ScopedLockImpl` under any calls.
  pub with_shared-with_scoped :
      (cs : List Call) (s : S) → with_shared acquire release cs s ≡ with_scoped acquire release cs s
  unfolding with_shared with_scoped delete_shared delete_scoped
  with_shared-with_scoped cs s =
      ap (λ g. (shared_unlock acquire release g).mutex)
        (calls_same cs (new_scoped acquire release s))
      ∙ ap (λ (g : Guard S). g.mutex)
          (shared_unlock-scoped_unlock
            (calls acquire release (scoped_call acquire release) cs (new_scoped acquire release s)))
