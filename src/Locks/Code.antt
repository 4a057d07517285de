-- ===== src/Locks/Code.antt =====
-- What threads do with the locks of the program: code that takes and releases them and acts on a
-- shared state `W`, and the steps of any number of threads that run such code.
use final_designer.Prelude.{
  ℕ, Bool, true, false, List, [], ◌∷◌, ◌++◌, Option, none, some, get_elem?, set, any, ◌==◌, ◌||◌,
  ◌≡◌, refl, if◌then◌else◌,
}

-- `m_mutex` of a `ConfigVar`, of the `LoggerManager`, of a logger and of an appender, the last two
-- by their addresses, and the mutex of `Config::GetMutex`.
pub data Lock : Type 0 where
  registry : Lock
  variable : ℕ → Lock
  manager : Lock
  logger : ℕ → Lock
  appender : ℕ → Lock

unfoldable pub lock_eq : Lock → Lock → Bool
lock_eq registry registry = true
lock_eq (variable i) (variable j) = i == j
lock_eq manager manager = true
lock_eq (logger i) (logger j) = i == j
lock_eq (appender i) (appender j) = i == j
lock_eq _ _ = false

-- A `ReadLock` is shared; a `WriteLock`, and the `Lock` of the other mutexes, is exclusive.
pub data Mode : Type 0 where
  shared : Mode
  exclusive : Mode

-- What is left to do: an access of the shared state, which decides what comes next, the calls that
-- take and release a lock, the end, or a call through a null pointer.
pub data Code (W : Type 0) : Type 0 where
  done : Code W
  crash : Code W
  act : (W → W) → (W → Code W) → Code W
  take : Lock → Mode → Code W → Code W
  release : Lock → Code W → Code W

-- A scoped lock: its constructor takes the lock, its destructor releases it. A thread that waits
-- makes no step, also where `CASLock` goes round in a loop, which is in `Thread/Spin.antt`.
abbrev pub scoped : {W : Type 0} → Lock → Mode → (Code W → Code W) → Code W → Code W
scoped l m body rest = take l m (body (release l rest))

pub record Hold : Type 0 where
  pub lock : Lock
  pub mode : Mode

pub record Thread (W : Type 0) : Type 0 where
  pub code : Code W
  pub held : List Hold

pub record System (W : Type 0) : Type 0 where
  pub world : W
  pub threads : List (Thread W)

-- Whether a thread holds a lock, and whether it holds it alone.
unfoldable pub holds : List Hold → Lock → Bool
unfolding lock_eq
holds [] l = false
holds (h ∷ hs) l = lock_eq h.lock l || holds hs l

abbrev pub is_exclusive : Mode → Bool
is_exclusive shared = false
is_exclusive exclusive = true

unfoldable pub owns : List Hold → Lock → Bool
unfolding lock_eq
owns [] l = false
owns (h ∷ hs) l = (if lock_eq h.lock l then is_exclusive h.mode else false) || owns hs l

-- In which modes the threads hold a lock.
unfoldable pub modes : List Hold → Lock → List Mode
unfolding lock_eq
modes [] l = []
modes (h ∷ hs) l = let rest = modes hs l in if lock_eq h.lock l then h.mode ∷ rest else rest

unfoldable pub all_modes : {W : Type 0} → List (Thread W) → Lock → List Mode
unfolding modes
all_modes [] l = []
all_modes (t ∷ ts) l = modes t.held l ++ all_modes ts l

unfoldable pub drop_hold : Lock → List Hold → List Hold
unfolding lock_eq
drop_hold l [] = []
drop_hold l (h ∷ hs) = let rest = drop_hold l hs in if lock_eq h.lock l then hs else h ∷ rest

-- `grant` says whether a lock that is held in some modes can be taken in another.
module _ {W : Type 0} (grant : List Mode → Mode → Bool) where
  -- The next step of the thread at a place, `none` if it has ended or has to wait.
  unfoldable pub advance : System W → ℕ → List Hold → Code W → Option (System W)
  unfolding all_modes drop_hold
  advance s i held done = none
  advance s i held crash = none
  advance s i held (act g k) = some (record {
    world = g s.world;
    threads = set s.threads i (record { code = k s.world; held = held });
  })
  advance s i held (take l m k) =
      if grant (all_modes s.threads l) m
      then some (record {
        world = s.world;
        threads =
            set s.threads i (record { code = k; held = record { lock = l; mode = m } ∷ held });
      })
      else none
  advance s i held (release l k) = some (record {
    world = s.world;
    threads = set s.threads i (record { code = k; held = drop_hold l held });
  })

  unfoldable pub turn : System W → ℕ → Option (System W)
  unfolding advance
  turn s i = elim (get_elem? s.threads i) [ none ↦ none | some t ↦ advance s i t.held t.code ]

  pub turn-advance :
      (s : System W) (i : ℕ) (t : Thread W) (c : Code W)
      → get_elem? s.threads i ≡ some t
      → t.code ≡ c
      → turn s i ≡ advance s i t.held c
  unfolding turn
  turn-advance s i t c e q = rw (e, turn, q) refl

  pub advance-take :
      (s : System W) (i : ℕ) (held : List Hold) (l : Lock) (m : Mode) (k : Code W)
      → grant (all_modes s.threads l) m ≡ true
      → advance s i held (take l m k)
        ≡ some (record {
          world = s.world;
          threads =
              set s.threads i (record { code = k; held = record { lock = l; mode = m } ∷ held });
        })
  unfolding advance
  advance-take s i held l m k e = rw (e, advance) refl

  -- What a system can reach by the steps of its threads in any order.
  pub data Reach (s : System W) : System W → Type 0 where
    start : Reach s s
    next : {t u : System W} (i : ℕ) → Reach s t → turn t i ≡ some u → Reach s u

-- What `pthread_rwlock_rdlock` and the others, and the lock of `CASLock`, are documented to do: a
-- lock that no thread holds is given, one that a thread holds alone is not, and one that any thread
-- holds is not given to be held alone.
pub record IsGrant (grant : List Mode → Mode → Bool) : Type 0 where
  pub free : (m : Mode) → grant [] m ≡ true
  pub alone : (ms : List Mode) → grant ms exclusive ≡ true → ms ≡ []
  pub beside : (ms : List Mode) → grant ms shared ≡ true → any is_exclusive ms ≡ false

-- One thread with the state to itself, `none` for a call through a null pointer.
unfoldable pub alone : {W : Type 0} → Code W → W → Option W
alone done w = some w
alone crash w = none
alone (act g k) w = alone (k w) (g w)
alone (take l m k) w = alone k w
alone (release l k) w = alone k w
