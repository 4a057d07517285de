-- ===== src/Locks/Ends.antt =====
-- Every run of threads comes to an end: the code that is left gets smaller with every step.
use final_designer.Locks.Code.{
  Mode, Code, done, crash, act, take, release, Hold, Thread, System, all_modes, advance, turn,
  Reach, start, next, IsGrant,
}
use final_designer.Locks.Progress.{is_done, IsSound-progress}
use final_designer.Locks.Running.{IsSound}
use final_designer.Locks.Safe.{Rules}
use final_designer.Locks.Turns.{turn-IsSound}
use final_designer.Prelude.{
  ℕ, zero, suc, ◌≡◌, refl, sym, ap, ◌∙◌, Bool, true, List, [], ◌∷◌, some, get_elem?, set, all,
  arith, map, subst, some-injective, Bool-cases, Option-cases, inl, inr,
}
use mathlib.Core.WellFounded.{Acc}

module _ {W : Type 0} where
  -- What a step leaves of a thread's code.
  abbrev IsRest : Code W → Code W → Type 0
  IsRest d done = ⊥
  IsRest d crash = ⊥
  IsRest d (act g k) = (w : W) × (d ≡ k w)
  IsRest d (take l m k) = d ≡ k
  IsRest d (release l k) = d ≡ k

  code-Acc : (c : Code W) → Acc IsRest c
  code-Acc done = Acc.intro _ λ d e. absurd e
  code-Acc crash = Acc.intro _ λ d e. absurd e
  code-Acc (act g k) = Acc.intro _ λ d (w, e). subst (Acc IsRest) (sym e) (code-Acc (k w))
  code-Acc (take l m k) = Acc.intro _ λ d e. subst (Acc IsRest) (sym e) (code-Acc k)
  code-Acc (release l k) = Acc.intro _ λ d e. subst (Acc IsRest) (sym e) (code-Acc k)

  -- The same of the codes of all threads, one of which makes a step.
  abbrev AreRest : List (Code W) → List (Code W) → Type 0
  AreRest ds cs =
      (i : ℕ) × (c : Code W) × (d : Code W) × (get_elem? cs i ≡ some c)
      × IsRest d c
      × (ds ≡ set cs i d)

  cons_step :
      (c : Code W) (cs ds : List (Code W))
      → ((d : Code W) → IsRest d c → Acc AreRest (d ∷ cs))
      → ((es : List (Code W)) → AreRest es cs → Acc AreRest (c ∷ es))
      → AreRest ds (c ∷ cs)
      → Acc AreRest ds
  cons_step c cs ds f g (zero, x, d, e, n, q) =
      subst (Acc AreRest) (sym q) (f d (subst (IsRest d) (sym (some-injective _ _ e)) n))
  cons_step c cs ds f g (suc i, x, d, e, n, q) =
      subst (Acc AreRest) (sym q) (g (set cs i d) (i, x, d, e, n, refl))

  cons-Acc :
      (c : Code W) (cs : List (Code W)) → Acc IsRest c → Acc AreRest cs → Acc AreRest (c ∷ cs)
  cons-Acc c cs (Acc.intro _ f) (Acc.intro _ g) = Acc.intro _ λ ds.
      cons_step c cs ds (λ d n. cons-Acc d cs (f d n) (Acc.intro _ g))
        (λ es n. cons-Acc c es (Acc.intro _ f) (g es n))

  codes-Acc : (cs : List (Code W)) → Acc AreRest cs
  codes-Acc [] = Acc.intro _ λ ds (i, c, d, e, n, q). cc
  codes-Acc (c ∷ cs) = cons-Acc c cs (code-Acc c) (codes-Acc cs)

  abbrev codes_of : List (Thread W) → List (Code W)
  codes_of ts = map (λ t. t.code) ts

  codes_of-get :
      (ts : List (Thread W)) (i : ℕ) (t : Thread W)
      → get_elem? ts i ≡ some t
      → get_elem? (codes_of ts) i ≡ some t.code
  codes_of-get [] i t e = cc
  codes_of-get (u ∷ ts) zero t e = ap some (ap (λ (x : Thread W). x.code) (some-injective _ _ e))
  codes_of-get (u ∷ ts) (suc i) t e = codes_of-get ts i t e

  codes_of-set :
      (ts : List (Thread W)) (i : ℕ) (t : Thread W)
      → codes_of (set ts i t) ≡ set (codes_of ts) i t.code
  codes_of-set [] i t = refl
  codes_of-set (u ∷ ts) zero t = refl
  codes_of-set (u ∷ ts) (suc i) t = ap (◌∷◌ u.code) (codes_of-set ts i t)

  module _ (grant : List Mode → Mode → Bool) where
    -- A step's result.
    abbrev Leaves : System W → Code W → ℕ → System W → Type 0
    Leaves s c i s' =
        (d : Code W) × (hs : List Hold) × IsRest d c
        × (s'.threads ≡ set s.threads i (record { code = d; held = hs }))

    leaves :
        (s s' : System W) (i : ℕ) (held : List Hold) (c : Code W)
        → advance grant s i held c ≡ some s'
        → Leaves s c i s'
    unfolding advance
    leaves s s' i held done h = cc
    leaves s s' i held crash h = cc
    leaves s s' i held (act g k) h =
        (_, _, (s.world, refl), ap (λ (x : System W). x.threads) (sym (some-injective _ _ h)))
    leaves s s' i held (release l k) h =
        (_, _, refl, ap (λ (x : System W). x.threads) (sym (some-injective _ _ h)))
    leaves s s' i held (take l m k) h = elim (Bool-cases (grant (all_modes s.threads l) m)) [
      | inr no_ ↦ absurd (ground (arith, h, no_))
      | inl yes_ ↦
          (_, _, refl, ap (λ (x : System W). x.threads) (sym (some-injective _ _ (rw yes_ at h))))
    ]

    -- One step leads from the second system to the first.
    abbrev pub IsNext : System W → System W → Type 0
    IsNext s' s = (i : ℕ) × (turn grant s i ≡ some s')

    turn-AreRest :
        (s s' : System W) → IsNext s' s → AreRest (codes_of s'.threads) (codes_of s.threads)
    unfolding turn
    turn-AreRest s s' (i, h) = elim (Option-cases (get_elem? s.threads i)) [
      | inl e ↦ absurd (ground (arith, rw (e, turn) at h))
      | inr (t, e) ↦
          let (d, hs, n, q) = leaves s s' i t.held t.code (rw (e, turn) at h) in
          (
            i,
            t.code,
            d,
            codes_of-get s.threads i t e,
            n,
            ap codes_of q ∙ codes_of-set s.threads i (record { code = d; held = hs }),
          )
    ]

    ending :
        (s : System W) (cs : List (Code W))
        → codes_of s.threads ≡ cs
        → Acc AreRest cs
        → Acc IsNext s
    ending s cs e (Acc.intro _ f) = Acc.intro _ λ s' h.
        ending s' (codes_of s'.threads) refl
          (f (codes_of s'.threads) (subst (AreRest (codes_of s'.threads)) e (turn-AreRest s s' h)))

    -- No schedule goes on for ever, whatever the threads run and whatever the locks grant.
    pub IsNext-Acc : (s : System W) → Acc IsNext s
    IsNext-Acc s = ending s (codes_of s.threads) refl (codes-Acc (codes_of s.threads))

    Reach-trans : {s t u : System W} → Reach grant s t → Reach grant t u → Reach grant s u
    Reach-trans r start = r
    Reach-trans r (next i q e) = next i (Reach-trans r q) e

  module _ (rules : Rules W) (grant : List Mode → Mode → Bool) (law : IsGrant grant) where
    ends :
        (s : System W)
        → IsSound rules s
        → Acc (IsNext grant) s
        → (t : System W) × Reach grant s t × (all is_done t.threads ≡ true)
    ends s v (Acc.intro _ f) = elim (IsSound-progress rules grant law s v) [
      | inl over ↦ (s, start, over)
      | inr (i, s', e) ↦
          let (t, r, over) = ends s' (turn-IsSound rules grant law s s' i v e) (f s' (i, e)) in
          (t, Reach-trans grant (next i start e) r, over)
    ]

    -- From wherever they are, threads that run safe code come to a state in which all have ended.
    pub IsSound-ends :
        (s : System W)
        → IsSound rules s
        → (t : System W) × Reach grant s t × (all is_done t.threads ≡ true)
    IsSound-ends s v = ends s v (IsNext-Acc grant s)
