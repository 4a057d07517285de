-- ===== src/Locks/Turns.antt =====
-- The steps of threads that run safe code, and whatever these reach.
use final_designer.Locks.Code.{
  Lock, Mode, shared, exclusive, Code, done, crash, act, take, release, Thread, System, holds, owns,
  all_modes, advance, turn, Reach, start, next, IsGrant,
}
use final_designer.Locks.Modes.{owns-holds, all_modes-nil, all_modes-shared}
use final_designer.Locks.Running.{IsSound, after_act, after_take, after_release}
use final_designer.Locks.Safe.{Rules, Promise, IsSafe, Rely-refl, Promise-refl}
use final_designer.Prelude.{
  ℕ, ◌≡◌, ◌≢◌, Bool, true, false, List, refl, sym, arith, subst, get_elem?, inl, inr, some,
  some-injective, Bool-cases, Option-cases,
}

module _ {W : Type 0} (rules : Rules W) (grant : List Mode → Mode → Bool)
    (law : IsGrant grant) where
  open rules use {Inv, Later, Guard}

  -- What the others hold of a lock that is granted.
  granted :
      (s : System W) (l : Lock) (m : Mode)
      → grant (all_modes s.threads l) m ≡ true
      → (j : ℕ) (u : Thread W) → get_elem? s.threads j ≡ some u
      → (m ≡ exclusive → holds u.held l ≡ false) × (owns u.held l ≡ false)
  granted s l exclusive e j u f =
      let none_ = all_modes-nil s.threads l j u (law.alone _ e) f in
      (λ q. none_, ground (arith, none_, owns-holds u.held l))
  granted s l shared e j u f = (λ q. cc, all_modes-shared s.threads l j u (law.beside _ e) f)

  advance-IsSound :
      (s s' : System W) (i : ℕ) (t : Thread W) (c : Code W)
      → get_elem? s.threads i ≡ some t
      → t.code ≡ c
      → IsSound rules s
      → advance grant s i t.held c ≡ some s'
      → IsSound rules s'
  unfolding advance
  advance-IsSound s s' i t done e q v h = cc
  advance-IsSound s s' i t crash e q v h = cc
  advance-IsSound s s' i t (act g k) e q v h =
      subst (IsSound rules) (some-injective _ _ h)
        (after_act rules s i t e v g k (subst (IsSafe rules s.world t.held) q (v.safe i t e)))
  advance-IsSound s s' i t (release l k) e q v h =
      subst (IsSound rules) (some-injective _ _ h)
        (after_release rules s i t e v l k (subst (IsSafe rules s.world t.held) q (v.safe i t e)))
  advance-IsSound s s' i t (take l m k) e q v h =
      elim (Bool-cases (grant (all_modes s.threads l) m)) [
        | inr no_ ↦ absurd (ground (arith, h, no_))
        | inl yes_ ↦ subst (IsSound rules) (some-injective _ _ (rw yes_ at h)) (
            after_take rules s i t e v l m k (granted s l m yes_)
              (subst (IsSafe rules s.world t.held) q (v.safe i t e)))
      ]

  pub turn-IsSound :
      (s s' : System W) (i : ℕ) → IsSound rules s → turn grant s i ≡ some s' → IsSound rules s'
  unfolding turn
  turn-IsSound s s' i v h = elim (Option-cases (get_elem? s.threads i)) [
    | inl e ↦ absurd (ground (arith, rw (e, turn) at h))
    | inr (t, e) ↦ advance-IsSound s s' i t t.code e refl v (rw (e, turn) at h)
  ]

  pub Reach-IsSound : {s s' : System W} → IsSound rules s → Reach grant s s' → IsSound rules s'
  Reach-IsSound v start = v
  Reach-IsSound {s' = u} v (next {t} i r e) = turn-IsSound t u i (Reach-IsSound v r) e

  -- A step of a thread keeps what the thread promises.
  advance-Promise :
      (s s' : System W) (i : ℕ) (t : Thread W) (c : Code W)
      → get_elem? s.threads i ≡ some t
      → t.code ≡ c
      → IsSound rules s
      → advance grant s i t.held c ≡ some s'
      → Promise rules t.held s.world s'.world
  unfolding advance IsSafe
  advance-Promise s s' i t done e q v h = cc
  advance-Promise s s' i t crash e q v h = cc
  advance-Promise s s' i t (act g k) e q v h =
      let (inv, p, rest) =
        (subst (IsSafe rules s.world t.held) q (v.safe i t e)) s.world
          (Rely-refl rules t.held s.world) v.inv in
      subst (λ (x : System W). Promise rules t.held s.world x.world) (some-injective _ _ h) p
  advance-Promise s s' i t (release x k) e q v h =
      subst (λ (y : System W). Promise rules t.held s.world y.world) (some-injective _ _ h)
        (Promise-refl rules t.held s.world)
  advance-Promise s s' i t (take x m k) e q v h =
      elim (Bool-cases (grant (all_modes s.threads x) m)) [
        | inr no_ ↦ absurd (ground (arith, h, no_))
        | inl yes_ ↦
            subst (λ (y : System W). Promise rules t.held s.world y.world)
              (some-injective _ _ (rw yes_ at h)) (Promise-refl rules t.held s.world)
      ]

  turn-Promise :
      (s s' : System W) (j : ℕ)
      → IsSound rules s
      → turn grant s j ≡ some s'
      → (u : Thread W) × (get_elem? s.threads j ≡ some u) × Promise rules u.held s.world s'.world
  unfolding turn
  turn-Promise s s' j v g = elim (Option-cases (get_elem? s.threads j)) [
    | inl f ↦ absurd (ground (arith, rw (f, turn) at g))
    | inr (u, f) ↦ (u, f, advance-Promise s s' j u u.code f refl v (rw (f, turn) at g))
  ]

  -- What no thread takes back is there for good.
  pub Reach-Later : {s s' : System W} → IsSound rules s → Reach grant s s' → Later s.world s'.world
  Reach-Later {s} v start = rules.later_refl s.world
  Reach-Later {s} {s' = u} v (next {t} i r e) =
      let (x, f, p) = turn-Promise t u i (Reach-IsSound v r) e in
      rules.later_trans s.world t.world u.world (Reach-Later v r) p.later

  -- While a thread holds a lock, no step of another changes what the lock protects.
  pub turn-Guard :
      (s s' : System W) (i j : ℕ) (t : Thread W) (l : Lock)
      → IsSound rules s
      → get_elem? s.threads i ≡ some t
      → holds t.held l ≡ true
      → i ≢ j
      → turn grant s j ≡ some s'
      → Guard l s.world s'.world
  turn-Guard s s' i j t l v e h ne g =
      let (u, f, p) = turn-Promise s s' j v g in
      p.guard l (elim (Bool-cases (owns u.held l)) [
        | inr no_ ↦ no_
        | inl yes_ ↦ absurd (ground (arith, h, v.apart j i u t f e (λ q. ne (sym q)) l yes_))
      ])
