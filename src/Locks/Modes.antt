-- ===== src/Locks/Modes.antt =====
-- Which locks the threads hold: lemmas on the lists of what they hold.
use final_designer.Locks.Code.{
  Lock, registry, variable, manager, logger, appender, Mode, shared, exclusive, Hold, Thread, holds,
  owns, is_exclusive, modes, all_modes, drop_hold, lock_eq,
}
use final_designer.Prelude.{
  ℕ, zero, suc, ◌≡◌, ◌↔◌, Bool, true, false, List, [], ◌∷◌, ◌++◌, refl, arith, subst, get_elem?,
  any, List-cases, Bool-cases, inl, inr, some, some-injective, ==_iff, sym, ◌||◌,
}

pub lock_eq_iff : (a b : Lock) → (lock_eq a b ≡ true) ↔ (a ≡ b)
unfolding lock_eq
lock_eq_iff registry registry = ground arith
lock_eq_iff (variable i) (variable j) = ground (arith, ==_iff i j)
lock_eq_iff manager manager = ground arith
lock_eq_iff (logger i) (logger j) = ground (arith, ==_iff i j)
lock_eq_iff (appender i) (appender j) = ground (arith, ==_iff i j)
lock_eq_iff _ _ = ground arith

pub lock_eq_refl : (a : Lock) → lock_eq a a ≡ true
lock_eq_refl a = (lock_eq_iff a a).1 refl

pub drop_hold_head :
    (l : Lock) (m : Mode) (hs : List Hold) → drop_hold l (record { lock = l; mode = m } ∷ hs) ≡ hs
unfolding drop_hold
drop_hold_head l m hs = rw (lock_eq_refl l) refl

-- Two threads' locks, where what one holds alone the other does not hold.
abbrev pub IsApart : List Hold → List Hold → Type 0
IsApart held others =
    (l : Lock)
    → (owns held l ≡ true → holds others l ≡ false) × (owns others l ≡ true → holds held l ≡ false)

-- One of them takes a lock that the other does not hold, or that both hold shared.
module _ (x : Lock) (held others : List Hold) where
  taken :
      (m : Mode)
      → (m ≡ exclusive → holds others x ≡ false)
      → (owns held x ≡ true → holds others x ≡ false)
      → owns (record { lock = x; mode = m } ∷ held) x ≡ true
      → holds others x ≡ false
  unfolding owns
  taken shared f old o = old (ground (arith, o, lock_eq_refl x))
  taken exclusive f old o = f refl

  taken_other :
      (l : Lock) (m : Mode)
      → lock_eq l x ≡ false
      → (owns held x ≡ true → holds others x ≡ false)
        × (owns others x ≡ true → holds held x ≡ false)
      → (owns (record { lock = l; mode = m } ∷ held) x ≡ true → holds others x ≡ false)
        × (owns others x ≡ true → holds (record { lock = l; mode = m } ∷ held) x ≡ false)
  unfolding owns holds
  taken_other l m other old =
      (λ o. old.0 (ground (arith, other, o)), λ o. ground (arith, other, old.1 o))

pub IsApart-take :
    (l : Lock) (m : Mode) (x : Lock) (held others : List Hold)
    → (m ≡ exclusive → holds others l ≡ false) × (owns others l ≡ false)
    → (owns held x ≡ true → holds others x ≡ false) × (owns others x ≡ true → holds held x ≡ false)
    → (owns (record { lock = l; mode = m } ∷ held) x ≡ true → holds others x ≡ false)
      × (owns others x ≡ true → holds (record { lock = l; mode = m } ∷ held) x ≡ false)
IsApart-take l m x held others free old = elim (Bool-cases (lock_eq l x)) [
  | inr other ↦ taken_other x held others l m other old
  | inl same ↦
      subst
        (λ (y : Lock).
          (m ≡ exclusive → holds others y ≡ false) × (owns others y ≡ false)
          → (owns (record { lock = y; mode = m } ∷ held) x ≡ true → holds others x ≡ false)
            × (owns others x ≡ true → holds (record { lock = y; mode = m } ∷ held) x ≡ false))
        (sym ((lock_eq_iff l x).0 same))
        (λ f. (λ o. taken x held others m f.0 old.0 o, λ o. absurd (ground (arith, f.1, o)))) free
]

-- A lock that is held alone is held.
pub owns-holds : (hs : List Hold) (l : Lock) → owns hs l ≡ true → holds hs l ≡ true
unfolding owns holds
owns-holds [] l e = cc
owns-holds (h ∷ hs) l e = ground (arith, e, owns-holds hs l)

-- The modes in which a thread holds a lock.
modes-nil : (hs : List Hold) (l : Lock) → modes hs l ≡ [] → holds hs l ≡ false
unfolding modes holds
modes-nil [] l e = refl
modes-nil (h ∷ hs) l e = ground (arith, e, modes-nil hs l)

modes-shared :
    (hs : List Hold) (l : Lock) → any is_exclusive (modes hs l) ≡ false → owns hs l ≡ false
unfolding modes owns
modes-shared [] l e = refl
modes-shared (h ∷ hs) l e = ground (arith, e, modes-shared hs l)

modes-held :
    (hs : List Hold) (l : Lock) (m : Mode) (ms : List Mode)
    → modes hs l ≡ m ∷ ms
    → holds hs l ≡ true
unfolding modes holds
modes-held [] l m ms e = cc
modes-held (h ∷ hs) l m ms e = ground (arith, e, modes-held hs l m ms)

append-nil_both : {A : Type 0} (xs ys : List A) → xs ++ ys ≡ [] → (xs ≡ []) × (ys ≡ [])
append-nil_both [] ys e = (refl, e)
append-nil_both (x ∷ xs) ys e = cc

any-append :
    {A : Type 0} (p : A → Bool) (xs ys : List A) → any p (xs ++ ys) ≡ (any p xs || any p ys)
any-append p [] ys = refl
any-append p (x ∷ xs) ys = ground (arith, any-append p xs ys)

module _ {W : Type 0} where
  -- A lock that no thread holds.
  pub all_modes-nil :
      (ts : List (Thread W)) (l : Lock) (i : ℕ) (t : Thread W)
      → all_modes ts l ≡ []
      → get_elem? ts i ≡ some t
      → holds t.held l ≡ false
  unfolding all_modes
  all_modes-nil [] l i t e h = cc
  all_modes-nil (u ∷ ts) l zero t e h =
      subst (λ (x : Thread W). holds x.held l ≡ false) (some-injective _ _ h)
        (modes-nil u.held l (append-nil_both _ _ e).0)
  all_modes-nil (u ∷ ts) l (suc i) t e h = all_modes-nil ts l i t (append-nil_both _ _ e).1 h

  pub all_modes-shared :
      (ts : List (Thread W)) (l : Lock) (i : ℕ) (t : Thread W)
      → any is_exclusive (all_modes ts l) ≡ false
      → get_elem? ts i ≡ some t
      → owns t.held l ≡ false
  unfolding all_modes
  all_modes-shared [] l i t e h = cc
  all_modes-shared (u ∷ ts) l zero t e h =
      subst (λ (x : Thread W). owns x.held l ≡ false) (some-injective _ _ h)
        (modes-shared u.held l
          (ground (arith, e, any-append is_exclusive (modes u.held l) (all_modes ts l))))
  all_modes-shared (u ∷ ts) l (suc i) t e h =
      all_modes-shared ts l i t
        (ground (arith, e, any-append is_exclusive (modes u.held l) (all_modes ts l))) h

  -- A lock that is held is held by some thread.
  pub all_modes-held :
      (ts : List (Thread W)) (l : Lock) (m : Mode) (ms : List Mode)
      → all_modes ts l ≡ m ∷ ms
      → (i : ℕ) × (t : Thread W) × (get_elem? ts i ≡ some t) × (holds t.held l ≡ true)
  unfolding all_modes
  all_modes-held [] l m ms e = cc
  all_modes-held (u ∷ ts) l m ms e = elim (List-cases (modes u.held l)) [
    | inl q ↦
        let (i, t, h, k) = all_modes-held ts l m ms (rw (q, all_modes) at e) in (suc i, t, h, k)
    | inr (n, ns, q) ↦ (zero, u, refl, modes-held u.held l n ns q)
  ]
