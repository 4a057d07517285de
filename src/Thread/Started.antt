-- ===== src/Thread/Started.antt =====
-- What holds when the constructor of a `Thread` returns, and that it does.
use final_designer.Thread.Starting.{is_past, created, given_name, Reach-IsStarting}
use final_designer.Prelude.{
  ℕ, ◌+◌, ◌≤◌, ◌≡◌, refl, sym, ap, ◌∙◌, true, Text, Option, none, ℤ, arith, ◌⊎◌, if◌then◌else◌,
  Bool-cases, inl, inr,
}
use final_designer.Thread.Start.{
  waiting, done, Runner, absent, ended, Thread, is_running, Step, acquires, runs, Reach,
}

module _ {C : Type 0} (cb : Option C) (name : Text) (tid : ℤ) where
  past_notify :
      (r : Runner) (n : ℕ) → n + 1 ≡ (if is_past 7 r then 1 else 0) → (is_past 7 r ≡ true) × (n ≡ 0)
  past_notify r n h = elim (Bool-cases (is_past 7 r)) [
    | inl y ↦ (y, omega (arith, rw y at h))
    | inr y ↦ absurd (omega (arith, rw y at h))
  ]

  past_earlier : (n : ℕ) (r : Runner) → n ≤ 7 → is_past 7 r ≡ true → is_past n r ≡ true
  past_earlier n r h y = ground (arith, h, y)

  -- When the constructor of a `Thread` has returned, the new thread has set its id, its name and
  -- the pointer to the object, the callback has been moved out of the object, and the semaphore is
  -- as before, whatever the order in which the two threads ran.
  pub Reach-done :
      {t : Thread C}
      → Reach cb name tid t
      → t.creator ≡ done
      → (t.id ≡ tid)
        × (t.t_thread ≡ true)
        × (t.t_thread_name ≡ given_name name)
        × (t.name ≡ given_name name)
        × (t.cb ≡ none)
        × (t.semaphore ≡ 0)
  Reach-done {t} r e =
      let h = Reach-IsStarting cb name tid r in
      let (y, zero_left) = past_notify t.runner t.semaphore (rw e at h.counted) in
      (
        rw (past_earlier 4 t.runner (omega arith) y) at h.identified,
        h.this ∙ past_earlier 2 t.runner (omega arith) y,
        rw (past_earlier 3 t.runner (omega arith) y) at h.thread_named,
        h.named,
        rw (past_earlier 6 t.runner (omega arith) y) at h.moved,
        zero_left,
      )

  running_or_ended : (r : Runner) → is_past 1 r ≡ true → (is_running r ≡ true) ⊎ (r ≡ ended)
  running_or_ended absent h = cc
  running_or_ended ended h = inr refl
  running_or_ended _ h = inl refl

  -- The constructor and the new thread never block each other: as long as the constructor waits,
  -- one of the two can go on.
  pub Reach-waiting :
      {t : Thread C}
      → Reach cb name tid t
      → t.creator ≡ waiting
      → (u : Thread C) × Step name tid t u
  Reach-waiting {t} r e =
      let h = Reach-IsStarting cb name tid r in
      elim (running_or_ended t.runner (sym h.present ∙ ap created e)) [
        | inl i ↦ (_, runs t.runner refl i)
        | inr q ↦
            let count : t.semaphore + 0 ≡ 1 = rw (e, q) at h.counted in
            (_, acquires e (omega (arith, count)))
      ]
