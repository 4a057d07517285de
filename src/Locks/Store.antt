-- ===== src/Locks/Store.antt =====
-- The rules for the store of the log system: its invariant, what no thread takes back, and what the
-- locks of its objects protect.
pub mod Writes
pub mod Puts
pub mod Names
use final_designer.Locks.Code.{Lock, registry, variable, manager, logger, appender}
use final_designer.Locks.Safe.{Rules}
use final_designer.Logging.Invariant.{IsReady, AreReady, IsLogger, IsValid}
use final_designer.Logging.Managing.{IsNamed}
use final_designer.Logging.Manager.{find_logger}
use final_designer.Logging.World.{Appender, Logger, World}
use final_designer.Prelude.{
  ℕ, ◌≡◌, ◌≤◌, refl, ◌∙◌, List, [], ◌∷◌, Text, some, get_elem?, if◌then◌else◌, ◌==◌, arith,
}

-- The map's entries lead to loggers.
abbrev pub AreLoggers : World → List (Text × ℕ) → Type 0
AreLoggers w [] = Unit
AreLoggers w ((n, i) ∷ ts) = ((l : Logger) × IsLogger w i l) × AreLoggers w ts

-- A valid store with one main logger for all.
pub record Inv (top : ℕ) (w : World) : Type 0 where
  pub valid : IsValid w
  pub named : IsNamed w
  pub entries : AreLoggers w w.table
  pub main : w.main ≡ top
  pub under_main : (i : ℕ) (l : Logger) (r : ℕ) → IsLogger w i l → l.root ≡ some r → r ≡ top

-- A pointer that leads to an appender.
abbrev pub IsAppender : World → ℕ → Appender → Type 0
IsAppender w j a = get_elem? w.appenders j ≡ some a

-- No object goes away, no logger gets another name or root, no formatter of an appender becomes
-- null, and a name of the manager's map goes on leading where it leads.
pub record Later (w w' : World) : Type 0 where
  pub loggers :
      (i : ℕ) (l : Logger)
      → IsLogger w i l
      → (l' : Logger) × IsLogger w' i l' × (l'.name ≡ l.name) × (l'.root ≡ l.root)
  pub appenders : (j : ℕ) (a : Appender) → IsAppender w j a → (a' : Appender) × IsAppender w' j a'
  pub ready : (j : ℕ) → IsReady w j → IsReady w' j
  pub table : (n : Text) (i : ℕ) → find_logger w.table n ≡ some i → find_logger w'.table n ≡ some i

pub AreLoggers-Later :
    (w w' : World) (ts : List (Text × ℕ)) → Later w w' → AreLoggers w ts → AreLoggers w' ts
AreLoggers-Later w w' [] a r = tt
AreLoggers-Later w w' ((n, i) ∷ ts) a ((l, e), rs) =
    let (l', e', p, q) = a.loggers i l e in ((l', e'), AreLoggers-Later w w' ts a rs)

-- The lock of a logger protects its list and its formatter, that of an appender its formatter, and
-- that of the manager its map. The levels are not protected, nor is the stream of a file appender.
unfoldable pub Guard : Lock → World → World → Type 0
Guard registry w w' = Unit
Guard (variable i) w w' = Unit
Guard manager w w' = w'.table ≡ w.table
Guard (logger i) w w' =
    (l : Logger)
    → IsLogger w i l
    → (l' : Logger) × IsLogger w' i l' × (l'.appenders ≡ l.appenders) × (l'.formatter ≡ l.formatter)
Guard (appender j) w w' =
    (a : Appender)
    → IsAppender w j a
    → (a' : Appender) × IsAppender w' j a'
      × (a'.formatter ≡ a.formatter)
      × (a'.have_formatter ≡ a.have_formatter)

pub Guard-refl : (l : Lock) (w : World) → Guard l w w
unfolding Guard
Guard-refl registry w = tt
Guard-refl (variable i) w = tt
Guard-refl manager w = refl
Guard-refl (logger i) w = λ l e. (l, e, refl, refl)
Guard-refl (appender j) w = λ a e. (a, e, refl, refl)

pub Guard-trans : (l : Lock) (u v w : World) → Guard l u v → Guard l v w → Guard l u w
unfolding Guard
Guard-trans registry u v w a b = tt
Guard-trans (variable i) u v w a b = tt
Guard-trans manager u v w a b = b ∙ a
Guard-trans (logger i) u v w a b =
    λ l e. let (m, f, p, q) = a l e in let (n, g, p', q') = b m f in (n, g, p' ∙ p, q' ∙ q)
Guard-trans (appender j) u v w a b =
    λ x e. let (y, f, p, q) = a x e in let (z, g, p', q') = b y f in (z, g, p' ∙ p, q' ∙ q)

pub Later-refl : (w : World) → Later w w
Later-refl w = record {
  loggers = λ i l e. (l, e, refl, refl);
  appenders = λ j a e. (a, e);
  ready = λ j r. r;
  table = λ n i e. e;
}

pub Later-trans : (u v w : World) → Later u v → Later v w → Later u w
Later-trans u v w a b = record {
  loggers = λ i l e.
      let (m, f, p, q) = a.loggers i l e in
      let (n, g, p', q') = b.loggers i m f in (n, g, p' ∙ p, q' ∙ q);
  appenders = λ j x e. let (y, f) = a.appenders j x e in b.appenders j y f;
  ready = λ j r. b.ready j (a.ready j r);
  table = λ n i e. b.table n i (a.table n i e);
}

-- The order of the locks: the manager's, a logger's, the main logger's, an appender's.
abbrev pub lock_rank : ℕ → Lock → ℕ
lock_rank main registry = 0
lock_rank main (variable i) = 1
lock_rank main manager = 2
lock_rank main (logger i) = if i == main then 4 else 3
lock_rank main (appender j) = 5

pub lock_rank_le : (main : ℕ) (l : Lock) → lock_rank main l ≤ 5
lock_rank_le main registry = omega arith
lock_rank_le main (variable i) = omega arith
lock_rank_le main manager = omega arith
lock_rank_le main (logger i) = ground arith
lock_rank_le main (appender j) = omega arith

-- The rules, for the address of the main logger.
abbrev pub store_rules : ℕ → Rules World
store_rules main = record {
  Inv = Inv main;
  Later = Later;
  Guard = Guard;
  rank = lock_rank main;
  bound = 5;
  rank_le = lock_rank_le main;
  later_refl = Later-refl;
  later_trans = Later-trans;
  guard_refl = Guard-refl;
  guard_trans = Guard-trans;
}
