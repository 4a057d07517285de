-- ===== src/Locks/Safe.antt =====
-- What code has to keep to so that any number of threads can run it together: the order of the
-- locks, and what it may do to the shared state with the locks it holds.
use final_designer.Locks.Code.{Lock, Mode, Code, done, crash, act, take, release, Hold, holds, owns}
use final_designer.Prelude.{ℕ, ◌<◌, ◌≤◌, ◌≡◌, true, false, List, [], ◌∷◌, arith, subst}

-- The shared state's invariant; what stays as it is whatever the threads do, `Later`; what stays as
-- it is while another holds a lock, `Guard`; and the order in which the locks are taken.
pub record Rules (W : Type 0) : Type 1 where
  pub Inv : W → Type 0
  pub Later : W → W → Type 0
  pub Guard : Lock → W → W → Type 0
  pub rank : Lock → ℕ
  pub bound : ℕ
  pub rank_le : (l : Lock) → rank l ≤ bound
  pub later_refl : (w : W) → Later w w
  pub later_trans : (u v w : W) → Later u v → Later v w → Later u w
  pub guard_refl : (l : Lock) (w : W) → Guard l w w
  pub guard_trans : (l : Lock) (u v w : W) → Guard l u v → Guard l v w → Guard l u w

module _ {W : Type 0} (rules : Rules W) where
  open rules use {
    Inv, Later, Guard, rank, bound, rank_le, later_refl, later_trans, guard_refl, guard_trans,
  }

  -- What the others may do to the state behind the back of a thread.
  pub record Rely (held : List Hold) (w w' : W) : Type 0 where
    pub later : Later w w'
    pub guard : (l : Lock) → holds held l ≡ true → Guard l w w'

  -- What a thread may do to it.
  pub record Promise (held : List Hold) (w w' : W) : Type 0 where
    pub later : Later w w'
    pub guard : (l : Lock) → owns held l ≡ false → Guard l w w'

  -- A lock behind all that are held.
  abbrev pub IsAbove : List Hold → Lock → Type 0
  IsAbove [] l = Unit
  IsAbove (h ∷ hs) l = (rank h.lock < rank l) × IsAbove hs l

  -- Code that a thread may run in a state, with the locks that it holds.
  unfoldable pub IsSafe : W → List Hold → Code W → Type 0
  IsSafe w held done = held ≡ []
  IsSafe w held crash = ⊥
  IsSafe w held (act g k) =
      (w' : W)
      → Rely held w w'
      → Inv w'
      → Inv (g w') × Promise held w' (g w') × IsSafe (g w') held (k w')
  IsSafe w held (take l m k) =
      IsAbove held l
      × ((w' : W) → Rely held w w' → Inv w' → IsSafe w' (record { lock = l; mode = m } ∷ held) k)
  IsSafe w held (release l k) =
      (m : Mode) × (hs : List Hold) × (held ≡ record { lock = l; mode = m } ∷ hs) × IsSafe w hs k

  pub Rely-refl : (held : List Hold) (w : W) → Rely held w w
  Rely-refl held w = record { later = later_refl w; guard = λ l h. guard_refl l w }

  pub Promise-refl : (held : List Hold) (w : W) → Promise held w w
  Promise-refl held w = record { later = later_refl w; guard = λ l h. guard_refl l w }

  pub Rely-trans : {held : List Hold} {u v w : W} → Rely held u v → Rely held v w → Rely held u w
  Rely-trans {u} {v} {w} a b = record {
    later = later_trans u v w a.later b.later;
    guard = λ l h. guard_trans l u v w (a.guard l h) (b.guard l h);
  }

  Rely-tail : {h : Hold} {hs : List Hold} {w w' : W} → Rely (h ∷ hs) w w' → Rely hs w w'
  unfolding holds
  Rely-tail r = record { later = r.later; guard = λ l e. r.guard l (ground (arith, e)) }

  -- What the others may do leaves it safe.
  pub IsSafe-Rely :
      (c : Code W) (held : List Hold) (w w' : W)
      → Rely held w w'
      → IsSafe w held c
      → IsSafe w' held c
  unfolding IsSafe
  IsSafe-Rely done held w w' r s = s
  IsSafe-Rely crash held w w' r s = s
  IsSafe-Rely (act g k) held w w' r s = λ v q i. s v (Rely-trans r q) i
  IsSafe-Rely (take l m k) held w w' r s = (s.0, λ v q i. s.1 v (Rely-trans r q) i)
  IsSafe-Rely (release l k) held w w' r (m, hs, e, s) =
      (m, hs, e, IsSafe-Rely k hs w w' (Rely-tail (subst (λ x. Rely x w w') e r)) s)
