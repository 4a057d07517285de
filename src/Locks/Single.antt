-- ===== src/Locks/Single.antt =====
-- One thread by itself: what its schedules come to is what its code, run alone, makes.
pub mod OfPrograms
use final_designer.Locks.Code.{
  Mode, Code, done, crash, act, take, release, Hold, Thread, System, advance, turn, Reach, start,
  next, IsGrant, alone, all_modes, drop_hold,
}
use final_designer.Locks.Ends.{IsSound-ends}
use final_designer.Locks.Program.{launch}
use final_designer.Locks.Progress.{is_done}
use final_designer.Locks.Running.{IsSound}
use final_designer.Locks.Safe.{Rules, IsSafe}
use final_designer.Locks.Together.{launch-IsSound}
use final_designer.Locks.Turns.{Reach-IsSound}
use final_designer.Prelude.{
  ℕ, zero, suc, ◌≡◌, refl, sym, ap, ◌∙◌, Bool, true, List, [], ◌∷◌, some, none, get_elem?, set, all,
  arith, subst, some-injective, Bool-cases, inl, inr,
}

module _ {W : Type 0} (grant : List Mode → Mode → Bool) where
  -- What one step of the only thread leaves.
  abbrev After : System W → Code W → System W → Type 0
  After s c t =
      (d : Code W) × (gs : List Hold) × (t.threads ≡ record { code = d; held = gs } ∷ [])
      × (alone d t.world ≡ alone c s.world)

  placed :
      (s : System W) (c d : Code W) (hs gs : List Hold)
      → s.threads ≡ record { code = c; held = hs } ∷ []
      → set s.threads 0 (record { code = d; held = gs }) ≡ record { code = d; held = gs } ∷ []
  placed s c d hs gs e = ap (λ (ts : List (Thread W)). set ts 0 (record { code = d; held = gs })) e

  stepped :
      (s t : System W) (c : Code W) (held hs : List Hold)
      → s.threads ≡ record { code = c; held = hs } ∷ []
      → advance grant s 0 held c ≡ some t
      → After s c t
  unfolding advance alone
  stepped s t done held hs e h = cc
  stepped s t crash held hs e h = cc
  stepped s t (act g k) held hs e h =
      subst (After s (act g k)) (some-injective _ _ h)
        (k s.world, held, placed s (act g k) (k s.world) hs held e, refl)
  stepped s t (release l k) held hs e h =
      subst (After s (release l k)) (some-injective _ _ h)
        (k, drop_hold l held, placed s (release l k) k hs (drop_hold l held) e, refl)
  stepped s t (take l m k) held hs e h = elim (Bool-cases (grant (all_modes s.threads l) m)) [
    | inr no_ ↦ absurd (ground (arith, h, no_))
    | inl yes_ ↦ subst (After s (take l m k)) (some-injective _ _ (rw yes_ at h)) (
      k,
      record { lock = l; mode = m } ∷ held,
      placed s (take l m k) k hs (record { lock = l; mode = m } ∷ held) e,
      refl,
    )
  ]

  turned :
      (s t : System W) (c : Code W) (hs : List Hold) (i : ℕ)
      → s.threads ≡ record { code = c; held = hs } ∷ []
      → turn grant s i ≡ some t
      → After s c t
  unfolding turn
  turned s t c hs zero e h = stepped s t c hs hs e (rw (e, turn) at h)
  turned s t c hs (suc i) e h = absurd (ground (arith, rw (e, turn) at h))

  reached :
      (w : W) (c : Code W) {t : System W}
      → Reach grant (launch w (c ∷ [])) t
      → After (launch w (c ∷ [])) c t
  reached w c start = (c, [], refl, refl)
  reached w c (next {t = u} {u = t} i r h) =
      let (d, hs, e, q) = reached w c r in
      let (d', gs, e', q') = turned u t d hs i e h in (d', gs, e', q' ∙ q)

  ended :
      (t : System W) (d : Code W) (hs : List Hold)
      → t.threads ≡ record { code = d; held = hs } ∷ []
      → all is_done t.threads ≡ true
      → alone d t.world ≡ some t.world
  unfolding alone
  ended t done hs e h = refl
  ended t crash hs e h = absurd (ground (arith, rw e at h))
  ended t (act g k) hs e h = absurd (ground (arith, rw e at h))
  ended t (take l m k) hs e h = absurd (ground (arith, rw e at h))
  ended t (release l k) hs e h = absurd (ground (arith, rw e at h))

  -- From wherever one thread that runs safe code is, it comes to its end, in the state that its
  -- code makes when locks are left out.
  pub Reach-alone :
      (rules : Rules W) (law : IsGrant grant) (w : W) (c : Code W)
      → rules.Inv w
      → IsSafe rules w [] c
      → {t : System W} → Reach grant (launch w (c ∷ [])) t
      → (s : System W) × Reach grant t s
        × (all is_done s.threads ≡ true)
        × (alone c w ≡ some s.world)
  Reach-alone rules law w c v safe {t} r =
      let sound = launch-IsSound rules w (c ∷ []) v (only safe) in
      let (s, q, over) = IsSound-ends rules grant law t (Reach-IsSound rules grant law sound r) in
      let (d, hs, e, p) = reached w c (both r q) in (s, q, over, sym p ∙ ended s d hs e over)
    where
      only :
          IsSafe rules w [] c
          → (i : ℕ) (d : Code W) → get_elem? (c ∷ []) i ≡ some d
          → IsSafe rules w [] d
      only safe zero d e = subst (IsSafe rules w []) (some-injective _ _ e) safe
      only safe (suc i) d e = cc

      both : {a b e : System W} → Reach grant a b → Reach grant b e → Reach grant a e
      both r start = r
      both r (next i q h) = next i (both r q) h
