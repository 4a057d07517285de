-- ===== src/Thread/Spin.antt =====
-- `CASLock` of nnysl/thread.h, and threads that lock it and unlock it.
use final_designer.Prelude.{
  ℕ, Bool, true, false, List, [], ◌∷◌, ◌≡◌, some, get_elem?, set, suc, zero,
}

-- The constructor clears `m_mutex`; `atomic_flag_test_and_set` gives the old value and sets it.
abbrev pub cleared : Bool
cleared = false

unfoldable test_and_set : Bool → Bool × Bool
test_and_set flag = (flag, true)

-- One round of the loop of `lock`: the flag, and whether the loop goes on.
unfoldable pub lock_round : Bool → Bool × Bool
unfolding test_and_set
lock_round flag = let (old, flag') = test_and_set flag in (flag', old)

-- `unlock`
unfoldable pub unlock : Bool → Bool
unlock flag = false

-- Where a thread is: beside the lock, in the loop of `lock`, or behind it.
pub data Place : Type 0 where
  beside : Place
  looping : Place
  behind : Place

pub record Threads : Type 0 where
  pub flag : Bool
  pub places : List Place

-- Where a round leaves a thread.
abbrev pub after_round : Bool → Place
after_round true = looping
after_round false = behind

-- A thread calls `lock`, makes a round of its loop, or, behind it, calls `unlock`.
pub data Step (s : Threads) : Threads → Type 0 where
  calls_lock :
      (i : ℕ)
      → get_elem? s.places i ≡ some beside
      → Step s (record s { places = set s.places i looping })
  tries :
      (i : ℕ)
      → get_elem? s.places i ≡ some looping
      → Step s (record {
        flag = (lock_round s.flag).0;
        places = set s.places i (after_round (lock_round s.flag).1);
      })
  calls_unlock :
      (i : ℕ)
      → get_elem? s.places i ≡ some behind
      → Step s (record { flag = unlock s.flag; places = set s.places i beside })

abbrev pub all_beside : ℕ → List Place
all_beside zero = []
all_beside (suc n) = beside ∷ all_beside n

-- What `n` threads can reach with a new lock.
pub data Reach (n : ℕ) : Threads → Type 0 where
  start : Reach n (record { flag = cleared; places = all_beside n })
  next : {s t : Threads} → Reach n s → Step s t → Reach n t
