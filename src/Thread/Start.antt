-- ===== src/Thread/Start.antt =====
-- `Semaphore` and `Thread` of nnysl/thread.cpp: the constructor and the new thread beside it.
use final_designer.Prelude.{
  ℕ, ◌+◌, ◌-◌, ◌<◌, ◌≡◌, Bool, true, false, List, [], ◌∷◌, ◌++◌, Text, codes, Option, none, some,
  is_empty, substr, ℤ, pos, negsuc, ◌==◌, if◌then◌else◌, decimal_signed,
}

-- How a call ends.
pub data Ending : Type 0 where
  returned : Ending
  threw : Text → Ending

abbrev pub is_code : ℤ → ℕ → Bool
is_code (pos n) m = n == m
is_code (negsuc n) m = false

-- The system's codes that `Semaphore::wait` names.
pub record Codes : Type 0 where
  pub einval : ℕ
  pub eagain : ℕ
  pub etimedout : ℕ

-- One round of the loop of `Semaphore::wait`, at the result of `sem_wait`; with `none` it goes on.
unfoldable pub wait_round : Codes → ℤ → Option Ending
wait_round c flag =
    if is_code flag 0
    then some returned
    else if is_code flag c.einval
    then some (threw (codes "sem_initEINVALerror"))
    else if is_code flag c.eagain
    then some (threw (codes "sem_initEAGAINerror"))
    else if is_code flag c.etimedout
    then some (threw (codes "sem_initETIMEDOUTerror"))
    else some (threw (codes "sem_wait error"))

-- `Semaphore::wait`, at the results that `sem_wait` gives one after another; `none` if these do not
-- bring it to an end.
unfoldable pub wait : Codes → List ℤ → Option Ending
unfolding wait_round
wait c [] = none
wait c (flag ∷ flags) =
    let rest : Option Ending = wait c flags in
    elim (wait_round c flag) [ some e ↦ some e | none ↦ rest ]

-- `Semaphore::Semaphore`, at the result of `sem_init`
unfoldable pub new_semaphore : ℤ → Ending
new_semaphore flag = if is_code flag 0 then returned else threw (codes "sem_init error")

-- `Semaphore::notify`, at the result of `sem_post`
unfoldable pub notify : ℤ → Ending
notify flag = if is_code flag 0 then returned else threw (codes "sem_post error")

-- Where the constructor of a `Thread` is.
pub data Creator : Type 0 where
  creating : Creator
  waiting : Creator
  done : Creator
  failed : Creator

-- Which statement of `Thread::run` the new thread is at.
pub data Runner : Type 0 where
  absent : Runner
  at_this : Runner
  at_name : Runner
  at_id : Runner
  at_system_name : Runner
  at_cb : Runner
  at_notify : Runner
  at_start : Runner
  at_call : Runner
  ended : Runner

-- A `Thread` whose callback is of a type `C`, `none` for an empty one; its semaphore's count; and
-- the variables of the new thread, of which `t_thread` is whether it points to this object.
pub record Thread (C : Type 0) : Type 0 where
  pub id : ℤ
  pub cb : Option C
  pub name : Text
  pub semaphore : ℕ
  pub t_thread : Bool
  pub t_thread_name : Text
  pub system_name : Text
  pub local_cb : Option C
  pub called : List C
  pub log : List Text
  pub creator : Creator
  pub runner : Runner

-- Whether `run` has a statement at a place.
abbrev pub is_running : Runner → Bool
is_running absent = false
is_running ended = false
is_running _ = true

module _ {C : Type 0} where
  -- The constructor, up to `pthread_create`.
  unfoldable pub new_thread : Option C → Text → Thread C
  new_thread cb name = record {
    id = negsuc 0;
    cb = cb;
    name = if is_empty name then codes "UNKNOW" else name;
    semaphore = 0;
    t_thread = false;
    t_thread_name = codes "UNKOWN";
    system_name = [];
    local_cb = none;
    called = [];
    log = [];
    creator = creating;
    runner = absent;
  }

  -- `pthread_create` and the test of its result; `name` is the constructor's argument.
  unfoldable pub create : Text → ℤ → Thread C → Thread C
  create name rt t =
      if is_code rt 0 then record t { creator = waiting; runner = at_this } else record t {
        log =
            t.log
            ++ (codes "pthread_create thread fail, rt = "
                ++ (decimal_signed rt ++ (codes " name = " ++ name)))
              ∷ [];
        creator = failed;
      }

  -- `m_semaphore.wait()`, once the count is not 0.
  unfoldable pub acquire : Thread C → Thread C
  acquire t = record t { semaphore = t.semaphore - 1; creator = done }

  -- The statement of `Thread::run` at a place; `tid` is what `GetThreadId` gives.
  unfoldable pub run_at : ℤ → Runner → Thread C → Thread C
  run_at tid absent t = t
  run_at tid at_this t = record t { t_thread = true; runner = at_name }
  run_at tid at_name t = record t { t_thread_name = t.name; runner = at_id }
  run_at tid at_id t = record t { id = tid; runner = at_system_name }
  run_at tid at_system_name t = record t { system_name = substr t.name 0 15; runner = at_cb }
  run_at tid at_cb t = record t { cb = none; local_cb = t.cb; runner = at_notify }
  run_at tid at_notify t = record t { semaphore = t.semaphore + 1; runner = at_start }
  run_at tid at_start t = record t { log = t.log ++ codes "thread start" ∷ []; runner = at_call }
  run_at tid at_call t = record t {
    called = elim t.local_cb [ none ↦ t.called | some c ↦ t.called ++ c ∷ [] ];
    runner = ended;
  }
  run_at tid ended t = t

  pub data Step (name : Text) (tid : ℤ) (t : Thread C) : Thread C → Type 0 where
    creates : (rt : ℤ) → t.creator ≡ creating → Step name tid t (create name rt t)
    acquires : t.creator ≡ waiting → 0 < t.semaphore → Step name tid t (acquire t)
    runs : (p : Runner) → t.runner ≡ p → is_running p ≡ true → Step name tid t (run_at tid p t)

  -- What the constructor and the new thread reach, in any order of their steps.
  pub data Reach (cb : Option C) (name : Text) (tid : ℤ) : Thread C → Type 0 where
    start : Reach cb name tid (new_thread cb name)
    next : {t u : Thread C} → Reach cb name tid t → Step name tid t u → Reach cb name tid u
