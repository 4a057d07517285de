-- ===== src/Thread/Starting.antt =====
-- An invariant of the start of a `Thread`, in every order of its steps.
use final_designer.Prelude.{
  ℕ, ◌+◌, ◌<◌, ◌≡◌, refl, sym, ap, ◌∙◌, Bool, true, false, Text, codes, Option, none, is_empty, ℤ,
  negsuc, leb, arith, if◌then◌else◌, Bool-cases, inl, inr,
}
use final_designer.Thread.Start.{
  Creator, creating, waiting, done, Runner, absent, at_this, at_name, at_id, at_system_name, at_cb,
  at_notify, at_start, at_call, ended, Thread, new_thread, create, acquire, run_at, is_running,
  is_code, creates, acquires, runs, Reach, start, next,
}

-- How many statements of `run` are behind, with the start of the thread as one.
abbrev pub rank : Runner → ℕ
rank absent = 0
rank at_this = 1
rank at_name = 2
rank at_id = 3
rank at_system_name = 4
rank at_cb = 5
rank at_notify = 6
rank at_start = 7
rank at_call = 8
rank ended = 9

abbrev pub is_past : ℕ → Runner → Bool
is_past n r = leb n (rank r)

abbrev pub taken : Creator → ℕ
taken done = 1
taken _ = 0

-- Whether `pthread_create` has succeeded.
abbrev pub created : Creator → Bool
created waiting = true
created done = true
created _ = false

abbrev pub given_name : Text → Text
given_name name = if is_empty name then codes "UNKNOW" else name

module _ {C : Type 0} (cb : Option C) (name : Text) (tid : ℤ) where
  pub record IsStarting (t : Thread C) : Type 0 where
    pub named : t.name ≡ given_name name
    pub counted : t.semaphore + taken t.creator ≡ (if is_past 7 t.runner then 1 else 0)
    pub present : created t.creator ≡ is_past 1 t.runner
    pub this : t.t_thread ≡ is_past 2 t.runner
    pub thread_named :
        t.t_thread_name ≡ (if is_past 3 t.runner then given_name name else codes "UNKOWN")
    pub identified : t.id ≡ (if is_past 4 t.runner then tid else negsuc 0)
    pub moved : t.cb ≡ (if is_past 6 t.runner then none else cb)

  new_thread-IsStarting : IsStarting (new_thread cb name)
  unfolding new_thread
  new_thread-IsStarting = record {
    named = refl;
    counted = refl;
    present = refl;
    this = refl;
    thread_named = refl;
    identified = refl;
    moved = refl;
  }

  run-counted :
      (t : Thread C) (p : Runner)
      → is_running p ≡ true
      → t.semaphore + taken t.creator ≡ (if is_past 7 p then 1 else 0)
      → (run_at tid p t).semaphore + taken (run_at tid p t).creator
        ≡ (if is_past 7 (run_at tid p t).runner then 1 else 0)
  unfolding run_at
  run-counted t at_notify i h = omega (arith, h)
  run-counted t absent i h = cc
  run-counted t ended i h = cc
  run-counted t _ i h = h

  run-present :
      (t : Thread C) (p : Runner)
      → is_running p ≡ true
      → created t.creator ≡ is_past 1 p
      → created (run_at tid p t).creator ≡ is_past 1 (run_at tid p t).runner
  unfolding run_at
  run-present t absent i h = cc
  run-present t ended i h = cc
  run-present t _ i h = h

  run-this :
      (t : Thread C) (p : Runner)
      → is_running p ≡ true
      → t.t_thread ≡ is_past 2 p
      → (run_at tid p t).t_thread ≡ is_past 2 (run_at tid p t).runner
  unfolding run_at
  run-this t at_this i h = refl
  run-this t absent i h = cc
  run-this t ended i h = cc
  run-this t _ i h = h

  run-thread_named :
      (t : Thread C) (p : Runner)
      → is_running p ≡ true
      → t.name ≡ given_name name
      → t.t_thread_name ≡ (if is_past 3 p then given_name name else codes "UNKOWN")
      → (run_at tid p t).t_thread_name
        ≡ (if is_past 3 (run_at tid p t).runner then given_name name else codes "UNKOWN")
  unfolding run_at
  run-thread_named t at_name i n h = n
  run-thread_named t absent i n h = cc
  run-thread_named t ended i n h = cc
  run-thread_named t _ i n h = h

  run-identified :
      (t : Thread C) (p : Runner)
      → is_running p ≡ true
      → t.id ≡ (if is_past 4 p then tid else negsuc 0)
      → (run_at tid p t).id ≡ (if is_past 4 (run_at tid p t).runner then tid else negsuc 0)
  unfolding run_at
  run-identified t at_id i h = refl
  run-identified t absent i h = cc
  run-identified t ended i h = cc
  run-identified t _ i h = h

  run-moved :
      (t : Thread C) (p : Runner)
      → is_running p ≡ true
      → t.cb ≡ (if is_past 6 p then none else cb)
      → (run_at tid p t).cb ≡ (if is_past 6 (run_at tid p t).runner then none else cb)
  unfolding run_at
  run-moved t at_cb i h = refl
  run-moved t absent i h = cc
  run-moved t ended i h = cc
  run-moved t _ i h = h

  run-named :
      (t : Thread C) (p : Runner)
      → t.name ≡ given_name name
      → (run_at tid p t).name ≡ given_name name
  unfolding run_at
  run-named t absent h = h
  run-named t _ h = h

  run_at-IsStarting :
      (t : Thread C) (p : Runner)
      → t.runner ≡ p
      → is_running p ≡ true
      → IsStarting t
      → IsStarting (run_at tid p t)
  run_at-IsStarting t p e i h = record {
    named = run-named t p h.named;
    counted = run-counted t p i (rw e at h.counted);
    present = run-present t p i (rw e at h.present);
    this = run-this t p i (rw e at h.this);
    thread_named = run-thread_named t p i h.named (rw e at h.thread_named);
    identified = run-identified t p i (rw e at h.identified);
    moved = run-moved t p i (rw e at h.moved);
  }

  -- Before the thread is created nothing of it has run.
  pub at_start_only : (r : Runner) → is_past 1 r ≡ false → r ≡ absent
  at_start_only absent h = refl
  at_start_only _ h = cc

  create-IsStarting :
      (t : Thread C) (rt : ℤ) → t.creator ≡ creating → IsStarting t → IsStarting (create name rt t)
  unfolding create
  create-IsStarting t rt e h =
      let r : t.runner ≡ absent = at_start_only t.runner (sym h.present ∙ ap created e) in
      elim (Bool-cases (is_code rt 0)) [
        | inl y ↦
            rw (y, create)
              (record {
                named = h.named;
                counted = rw (e, r) at h.counted;
                present = refl;
                this = rw r at h.this;
                thread_named = rw r at h.thread_named;
                identified = rw r at h.identified;
                moved = rw r at h.moved;
              })
        | inr y ↦
            rw (y, create)
              (record {
                named = h.named;
                counted = rw e at h.counted;
                present = rw e at h.present;
                this = h.this;
                thread_named = h.thread_named;
                identified = h.identified;
                moved = h.moved;
              })
      ]

  acquire-IsStarting :
      (t : Thread C) → t.creator ≡ waiting → 0 < t.semaphore → IsStarting t → IsStarting (acquire t)
  unfolding acquire
  acquire-IsStarting t e p h = record {
    named = h.named;
    counted = omega (arith, p) ∙ (rw e at h.counted);
    present = rw e at h.present;
    this = h.this;
    thread_named = h.thread_named;
    identified = h.identified;
    moved = h.moved;
  }

  pub Reach-IsStarting : {t : Thread C} → Reach cb name tid t → IsStarting t
  Reach-IsStarting start = new_thread-IsStarting
  Reach-IsStarting (next r (creates rt e)) = create-IsStarting _ rt e (Reach-IsStarting r)
  Reach-IsStarting (next r (acquires e p)) = acquire-IsStarting _ e p (Reach-IsStarting r)
  Reach-IsStarting (next r (runs p e i)) = run_at-IsStarting _ p e i (Reach-IsStarting r)
