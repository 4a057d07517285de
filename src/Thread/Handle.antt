-- ===== src/Thread/Handle.antt =====
-- The thread's handle in a `Thread`: `join` and the destructor of nnysl/thread.cpp.
use final_designer.Prelude.{
  ℕ, List, [], ◌∷◌, ◌++◌, Text, codes, ℤ, ◌==◌, if◌then◌else◌, decimal_signed,
}
use final_designer.Thread.Start.{Ending, returned, threw, is_code}

-- A call that gives a thread back to the system, with its handle.
pub data Release : Type 0 where
  joined : ℕ → Release
  detached : ℕ → Release

-- `m_thread`, which is 0 for none, and what has been given back and logged.
pub record Handle : Type 0 where
  pub m_thread : ℕ
  pub m_name : Text
  pub releases : List Release
  pub log : List Text

-- `Thread::join`, at the result of `pthread_join`
unfoldable pub join : ℤ → Handle → Handle × Ending
join rt h =
    if h.m_thread == 0
    then (h, returned)
    else if is_code rt 0
    then (record h { m_thread = 0; releases = h.releases ++ joined h.m_thread ∷ [] }, returned)
    else (
      record h {
        log =
            h.log
            ++ (codes "pthread_create thread fail, rt = "
                ++ (decimal_signed rt ++ (codes " name = " ++ h.m_name)))
              ∷ [];
      },
      threw (codes "pthread_join error"),
    )

-- `Thread::~Thread`
unfoldable pub delete : Handle → Handle
delete h =
    if h.m_thread == 0 then h else record h { releases = h.releases ++ detached h.m_thread ∷ [] }

-- Calls of `join` one after another, whose exceptions the program handles.
unfoldable pub joins : List ℤ → Handle → Handle
unfolding join
joins [] h = h
joins (rt ∷ rts) h = joins rts (join rt h).0
