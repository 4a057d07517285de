-- ===== src/Thread/Names.antt =====
-- The names of a running thread: `Thread::GetThis`, `GetName`, `SetName`, and the name that the
-- system gets.
use final_designer.Prelude.{
  ℕ, zero, suc, ◌≤◌, Bool, [], ◌∷◌, Text, Option, ℤ, length, take, substr, arith, if◌then◌else◌,
  Bool-cases, inl, inr,
}
use final_designer.Thread.Start.{
  Thread, Runner, absent, at_this, at_name, at_id, at_system_name, at_cb, at_notify, at_start,
  at_call, ended, new_thread, create, acquire, run_at, is_code, creates, acquires, runs, Reach,
  start, next,
}

length-take : (n : ℕ) (xs : Text) → length (take n xs) ≤ n
length-take zero xs = omega arith
length-take (suc n) [] = omega arith
length-take (suc n) (x ∷ xs) = omega (arith, length-take n xs)

short_name : (s : Text) → length (substr s 0 15) ≤ 15
unfolding substr
short_name s = length-take 15 s

module _ {C : Type 0} where
  -- Called by the new thread: whether its `t_thread` points to the object.
  unfoldable pub get_this : Thread C → Bool
  get_this t = t.t_thread

  unfoldable pub get_name : Thread C → Text
  get_name t = t.t_thread_name

  -- Called by the new thread.
  unfoldable pub set_name : Text → Thread C → Thread C
  set_name name t = record t { name = if t.t_thread then name else t.name; t_thread_name = name }

  run_at-system_name :
      (tid : ℤ) (p : Runner) (t : Thread C)
      → length t.system_name ≤ 15
      → length (run_at tid p t).system_name ≤ 15
  unfolding run_at
  run_at-system_name tid absent t h = h
  run_at-system_name tid at_this t h = h
  run_at-system_name tid at_name t h = h
  run_at-system_name tid at_id t h = h
  run_at-system_name tid at_system_name t h = short_name t.name
  run_at-system_name tid at_cb t h = h
  run_at-system_name tid at_notify t h = h
  run_at-system_name tid at_start t h = h
  run_at-system_name tid at_call t h = h
  run_at-system_name tid ended t h = h

  create-system_name :
      (name : Text) (rt : ℤ) (t : Thread C)
      → length t.system_name ≤ 15
      → length (create name rt t).system_name ≤ 15
  unfolding create
  create-system_name name rt t h = elim (Bool-cases (is_code rt 0)) [
    | inl e ↦ rw e h
    | inr e ↦ rw e h
  ]

  -- However long the name of a thread is, the name that `pthread_setname_np` gets has 15 bytes at
  -- most, in every state that the constructor and the new thread reach.
  Reach-system_name :
      {cb : Option C} {name : Text} {tid : ℤ} {t : Thread C}
      → Reach cb name tid t
      → length t.system_name ≤ 15
  unfolding new_thread acquire
  Reach-system_name start = omega arith
  Reach-system_name {name = name} (next {t} r (creates rt e)) =
      create-system_name name rt t (Reach-system_name r)
  Reach-system_name (next r (acquires e h)) = Reach-system_name r
  Reach-system_name {tid = tid} (next {t} r (runs p e h)) =
      run_at-system_name tid p t (Reach-system_name r)
