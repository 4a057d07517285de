-- ===== src/Tests/Threads.antt =====
-- Locks and threads: nnysl/thread.h and nnysl/thread.cpp.
use final_designer.Prelude.{
  ℕ, ◌≡◌, refl, true, false, List, [], ◌∷◌, ◌++◌, Text, codes, none, some, pos, arith,
}
use final_designer.Thread.Exclusion.{Reach-exclusive}
use final_designer.Thread.Guards.{Sections, with_scoped-Sections}
use final_designer.Thread.Scoped.{lock, unlock, with_scoped}
use final_designer.Thread.Handle.{Handle}
use final_designer.Thread.Spin
use final_designer.Util.{backtrace_to_string}
use final_designer.Thread.Start
use final_designer.Thread.Started.{Reach-done, Reach-waiting}
use final_designer.Thread.Starting.{given_name}

-- A mutex that keeps a record of the calls on it: 1 for `lock`, 0 for `unlock`.
abbrev acquires : List ℕ → List ℕ
acquires s = s ++ 1 ∷ []

abbrev releases : List ℕ → List ℕ
releases s = s ++ 0 ∷ []

with_scoped_runs :
    with_scoped acquires releases (lock ∷ unlock ∷ unlock ∷ lock ∷ []) [] ≡ 1 ∷ 0 ∷ 1 ∷ 0 ∷ []
unfolding with_scoped
with_scoped_runs = refl

with_scoped-Sections_example :
    Sections acquires releases [] (with_scoped acquires releases (lock ∷ unlock ∷ lock ∷ []) [])
with_scoped-Sections_example = with_scoped-Sections acquires releases (lock ∷ unlock ∷ lock ∷ []) []

-- Two threads call `lock`, and the first gets it.
abbrev both_looping : Spin.Threads
both_looping = record { flag = false; places = Spin.looping ∷ Spin.looping ∷ [] }

abbrev first_behind : Spin.Threads
first_behind = record { flag = true; places = Spin.behind ∷ Spin.looping ∷ [] }

both_looping-Reach : Spin.Reach 2 both_looping
both_looping-Reach =
    Spin.next (Spin.next Spin.start (Spin.calls_lock 0 refl)) (Spin.calls_lock 1 refl)

first_behind-Reach : Spin.Reach 2 first_behind
unfolding Spin.lock_round
first_behind-Reach = Spin.next both_looping-Reach (Spin.tries 0 refl)

abbrev front : ℕ
front = 0

Reach-exclusive_example : front ≡ front
Reach-exclusive_example = Reach-exclusive front front first_behind-Reach refl refl

abbrev errno : Start.Codes
errno = record { einval = 22; eagain = 11; etimedout = 110 }

-- A thread with the callback 7, at the constructor's wait, before `run` begins and at its end.
abbrev given : Text
given = codes "worker"

abbrev begun : Start.Thread ℕ
begun = Start.create given (pos 0) (Start.new_thread (some 7) given)

begun-Reach : Start.Reach (some 7) given (pos 42) begun
unfolding Start.new_thread
begun-Reach = Start.next Start.start (Start.creates (pos 0) refl)

abbrev run_six : Start.Thread ℕ → Start.Thread ℕ
run_six t = Start.run_at (pos 42) Start.at_notify (
    Start.run_at (pos 42) Start.at_cb (
      Start.run_at (pos 42) Start.at_system_name (
        Start.run_at (pos 42) Start.at_id
          (Start.run_at (pos 42) Start.at_name (Start.run_at (pos 42) Start.at_this t)))))

abbrev finished : Start.Thread ℕ
finished = Start.acquire (run_six begun)

finished-Reach : Start.Reach (some 7) given (pos 42) finished
unfolding Start.new_thread Start.create Start.run_at
finished-Reach =
    Start.next
      (Start.next
        (Start.next
          (Start.next
            (Start.next
              (Start.next (Start.next begun-Reach (Start.runs Start.at_this refl refl))
                (Start.runs Start.at_name refl refl))
              (Start.runs Start.at_id refl refl))
            (Start.runs Start.at_system_name refl refl))
          (Start.runs Start.at_cb refl refl))
        (Start.runs Start.at_notify refl refl))
      (Start.acquires refl (omega arith))

Reach-done_example :
    (finished.id ≡ pos 42)
    × (finished.t_thread ≡ true)
    × (finished.t_thread_name ≡ given_name given)
    × (finished.name ≡ given_name given)
    × (finished.cb ≡ none)
    × (finished.semaphore ≡ 0)
unfolding Start.acquire
Reach-done_example = Reach-done (some 7) given (pos 42) finished-Reach refl

Reach-waiting_example : (u : Start.Thread ℕ) × Start.Step given (pos 42) begun u
unfolding Start.create
Reach-waiting_example = Reach-waiting (some 7) given (pos 42) begun-Reach refl

-- A thread with the handle 5 that is joined at the second try.
abbrev handle : Handle
handle = record { m_thread = 5; m_name = codes "worker"; releases = []; log = [] }

abbrev frames : List Text
frames = codes "main" ∷ codes "f" ∷ codes "g" ∷ []

backtrace_to_string_runs : backtrace_to_string 3 (some frames) 2 (codes "  ") ≡ codes "  g\n"
unfolding backtrace_to_string
backtrace_to_string_runs = refl
