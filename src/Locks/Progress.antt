-- ===== src/Locks/Progress.antt =====
-- No deadlock: threads that run safe code never all wait.
use final_designer.Locks.Code.{
  Lock, Mode, Code, done, crash, act, take, release, Hold, Thread, System, holds, all_modes,
  lock_eq, advance, turn, turn-advance, advance-take, IsGrant,
}
use final_designer.Locks.Modes.{lock_eq_iff, all_modes-held}
use final_designer.Locks.Running.{IsSound}
use final_designer.Locks.Safe.{Rules, IsAbove, IsSafe}
use final_designer.Prelude.{
  ℕ, zero, suc, ◌+◌, ◌<◌, ◌≡◌, ◌⊎◌, Bool, true, false, List, [], ◌∷◌, refl, ◌∙◌, arith, subst,
  get_elem?, inl, inr, some, Bool-cases, List-cases, all,
}

abbrev pub is_done : {W : Type 0} → Thread W → Bool
is_done t = elim t.code [ done ↦ true | _ ↦ false ]

-- A thread that has not ended.
find_live :
    {W : Type 0} (ts : List (Thread W))
    → (all is_done ts ≡ true)
      ⊎ ((i : ℕ) × (t : Thread W) × (get_elem? ts i ≡ some t) × (is_done t ≡ false))
find_live [] = inl refl
find_live (t ∷ ts) = elim (Bool-cases (is_done t)) [
  | inr live ↦ inr (zero, t, refl, live)
  | inl over ↦ elim (find_live ts) [
    | inl rest ↦ inl (ground (arith, over, rest))
    | inr (i, u, e, live) ↦ inr (suc i, u, e, live)
  ]
]

module _ {W : Type 0} (rules : Rules W) (grant : List Mode → Mode → Bool)
    (law : IsGrant grant) where
  open rules use {rank, bound, rank_le}

  held_below :
      (hs : List Hold) (l x : Lock) → IsAbove rules hs l → holds hs x ≡ true → rank x < rank l
  unfolding holds
  held_below [] l x a h = cc
  held_below (y ∷ hs) l x (a, rest) h = elim (Bool-cases (lock_eq y.lock x)) [
    | inl same ↦ subst (λ (z : Lock). rank z < rank l) ((lock_eq_iff y.lock x).0 same) a
    | inr other ↦ held_below hs l x rest (ground (arith, other, h))
  ]

  -- Some thread can make a step.
  abbrev pub CanGo : System W → Type 0
  CanGo s = (i : ℕ) × (s' : System W) × (turn grant s i ≡ some s')

  abbrev Limit : ℕ → Code W → Type 0
  Limit fuel (take l m k) = bound < fuel + rank l
  Limit fuel _ = Unit

  -- A thread that holds a lock has not ended, and waits only for one behind it.
  holder-Limit :
      (w : W) (fuel : ℕ) (l : Lock) (u : Thread W) (c : Code W)
      → u.code ≡ c
      → IsSafe rules w u.held c
      → holds u.held l ≡ true
      → bound < suc fuel + rank l
      → (is_done u ≡ false) × Limit fuel c
  unfolding IsSafe holds
  holder-Limit w fuel l u done q safe h lim =
      absurd (ground (arith, subst (λ (x : List Hold). holds x l ≡ true) safe h))
  holder-Limit w fuel l u crash q safe h lim = absurd safe
  holder-Limit w fuel l u (act g k) q safe h lim = (rw q refl, tt)
  holder-Limit w fuel l u (release x k) q safe h lim = (rw q refl, tt)
  holder-Limit w fuel l u (take x m k) q safe h lim =
      (rw q refl, omega (arith, lim, held_below u.held x l safe.0 h))

  can_go :
      (s : System W)
      → IsSound rules s
      → (fuel i : ℕ) (t : Thread W) (c : Code W) → get_elem? s.threads i ≡ some t
      → t.code ≡ c
      → is_done t ≡ false
      → Limit fuel c
      → CanGo s
  unfolding turn advance IsSafe holds
  can_go s v fuel i t done e q live lim = absurd (ground (arith, q, live))
  can_go s v fuel i t crash e q live lim =
      absurd (subst (IsSafe rules s.world t.held) q (v.safe i t e))
  can_go s v fuel i t (act g k) e q live lim = (i, _, turn-advance grant s i t _ e q)
  can_go s v fuel i t (release l k) e q live lim = (i, _, turn-advance grant s i t _ e q)
  can_go s v zero i t (take l m k) e q live lim = absurd (omega (arith, lim, rank_le l))
  can_go s v (suc fuel) i t (take l m k) e q live lim =
      elim (Bool-cases (grant (all_modes s.threads l) m)) [
        | inl yes_ ↦
            (i, _, turn-advance grant s i t _ e q ∙ advance-take grant s i t.held l m k yes_)
        | inr no_ ↦ elim (List-cases (all_modes s.threads l)) [
          | inl free ↦ absurd (ground (arith, no_, free, law.free m))
          | inr (n, ns, taken) ↦
              let (j, u, f, h) = all_modes-held s.threads l n ns taken in
              let (live', lim') = holder-Limit s.world fuel l u u.code refl (v.safe j u f) h lim in
              can_go s v fuel j u u.code f refl live' lim'
        ]
      ]

  -- Some thread can make a step, unless all have ended.
  pub IsSound-progress : (s : System W) → IsSound rules s → (all is_done s.threads ≡ true) ⊎ CanGo s
  IsSound-progress s v = elim (find_live s.threads) [
    | inl over ↦ inl over
    | inr (i, t, e, live) ↦ inr (can_go s v (suc bound) i t t.code e refl live (start t.code))
  ]
    where
      start : (c : Code W) → Limit (suc bound) c
      start (take l m k) = omega arith
      start done = tt
      start crash = tt
      start (act g k) = tt
      start (release l k) = tt
