-- ===== src/Thread/Exclusion.antt =====
-- `CASLock` excludes: one thread at most is behind `lock`.
use final_designer.Prelude.{
  ℕ, zero, suc, ◌+◌, ◌≤◌, ◌≡◌, refl, Bool, true, false, List, [], ◌∷◌, some, get_elem?, set, arith,
  ap, some-injective, subst, Bool-cases, inl, inr,
}
use final_designer.Thread.Spin.{
  lock_round, unlock, Place, beside, looping, behind, Threads, after_round, Step, calls_lock, tries,
  calls_unlock, all_beside, Reach, start, next,
}

abbrev weight : Place → ℕ
weight behind = 1
weight _ = 0

-- How many threads are behind the lock.
abbrev pub holders : List Place → ℕ
holders [] = 0
holders (p ∷ ps) = weight p + holders ps

abbrev bit : Bool → ℕ
bit true = 1
bit false = 0

holders-set :
    (ps : List Place) (i : ℕ) (p q : Place)
    → get_elem? ps i ≡ some p
    → holders (set ps i q) + weight p ≡ holders ps + weight q
holders-set [] i p q e = cc
holders-set (r ∷ ps) zero p q e = let same : r ≡ p = some-injective _ _ e in rw same (omega arith)
holders-set (r ∷ ps) (suc i) p q e = omega (arith, holders-set ps i p q e)

holders-all_beside : (n : ℕ) → holders (all_beside n) ≡ 0
holders-all_beside zero = refl
holders-all_beside (suc n) = omega (arith, holders-all_beside n)

Step-holders :
    (s t : Threads) → holders s.places ≡ bit s.flag → Step s t → holders t.places ≡ bit t.flag
unfolding lock_round unlock
Step-holders s _ h (calls_lock i e) = omega (arith, holders-set s.places i beside looping e)
Step-holders s _ h (tries i e) = elim (Bool-cases s.flag) [
  | inl f ↦ rw f (omega (arith, holders-set s.places i looping looping e, rw f at h))
  | inr f ↦ rw f (omega (arith, holders-set s.places i looping behind e, rw f at h))
]
Step-holders s _ h (calls_unlock i e) = elim (Bool-cases s.flag) [
  | inl f ↦ omega (arith, holders-set s.places i behind beside e, rw f at h)
  | inr f ↦ omega (arith, holders-set s.places i behind beside e, rw f at h)
]

-- In every state that the threads reach, as many threads are behind the lock as the flag says, one
-- or none.
Reach-holders : {n : ℕ} {s : Threads} → Reach n s → holders s.places ≡ bit s.flag
Reach-holders {n} start = holders-all_beside n
Reach-holders (next r step) = Step-holders _ _ (Reach-holders r) step

holders-behind : (ps : List Place) (i : ℕ) → get_elem? ps i ≡ some behind → 1 ≤ holders ps
holders-behind [] i e = cc
holders-behind (r ∷ ps) zero e =
    let same : r ≡ behind = some-injective _ _ e in rw same (omega arith)
holders-behind (r ∷ ps) (suc i) e = omega (arith, holders-behind ps i e)

one_holder :
    (ps : List Place) (i j : ℕ)
    → holders ps ≤ 1
    → get_elem? ps i ≡ some behind
    → get_elem? ps j ≡ some behind
    → i ≡ j
one_holder [] i j h e f = cc
one_holder (r ∷ ps) zero zero h e f = refl
one_holder (r ∷ ps) zero (suc j) h e f =
    let w : weight r ≡ 1 = ap weight (some-injective _ _ e) in
    absurd (omega (arith, h, w, holders-behind ps j f))
one_holder (r ∷ ps) (suc i) zero h e f =
    let w : weight r ≡ 1 = ap weight (some-injective _ _ f) in
    absurd (omega (arith, h, w, holders-behind ps i e))
one_holder (r ∷ ps) (suc i) (suc j) h e f = ap suc (one_holder ps i j (omega (arith, h)) e f)

-- Of any number of threads that lock and unlock a `CASLock` in any order, two are never behind
-- `lock` at a time.
pub Reach-exclusive :
    {n : ℕ} {s : Threads} (i j : ℕ)
    → Reach n s
    → get_elem? s.places i ≡ some behind
    → get_elem? s.places j ≡ some behind
    → i ≡ j
Reach-exclusive {s} i j r e f = one_holder s.places i j (at_most_one (Reach-holders r)) e f
  where
    at_most_one : holders s.places ≡ bit s.flag → holders s.places ≤ 1
    at_most_one h = elim (Bool-cases s.flag) [
      | inl t ↦ omega (arith, rw t at h)
      | inr t ↦ omega (arith, rw t at h)
    ]

-- If no thread is behind `lock`, any thread in its loop gets there by its next round.
Reach-enters :
    {n : ℕ} {s : Threads} (i : ℕ)
    → Reach n s
    → holders s.places ≡ 0
    → get_elem? s.places i ≡ some looping
    → Step s (record { flag = true; places = set s.places i behind })
unfolding lock_round
Reach-enters {s} i r free e =
    let h = Reach-holders r in
    let t : Step s (record { flag = true; places = set s.places i (after_round s.flag) }) =
      tries i e in
    elim (Bool-cases s.flag) [
      | inl f ↦ absurd (omega (arith, free, rw f at h))
      | inr f ↦
          subst (λ b. Step s (record { flag = true; places = set s.places i (after_round b) })) f t
    ]
