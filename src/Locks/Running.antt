-- ===== src/Locks/Running.antt =====
-- Any number of threads that run safe code: what holds of them at every moment.
use final_designer.Locks.Code.{
  Lock, Mode, exclusive, Code, act, take, release, Hold, Thread, System, holds, owns, drop_hold,
}
use final_designer.Locks.Modes.{drop_hold_head, IsApart, IsApart-take}
use final_designer.Locks.Safe.{Rules, Rely, IsSafe, Rely-refl, IsSafe-Rely}
use final_designer.Prelude.{
  ℕ, ◌≡◌, ◌≢◌, true, false, List, ◌∷◌, sym, ap, ◌∙◌, arith, subst, get_elem?, set, inl, inr, some,
  get_elem?-set_view,
}

module _ {W : Type 0} (rules : Rules W) where
  open rules use {Inv, Later, Guard}

  -- Every thread's code is safe, and what one holds alone no other holds.
  pub record IsSound (s : System W) : Type 0 where
    pub inv : Inv s.world
    pub safe :
        (i : ℕ) (t : Thread W) → get_elem? s.threads i ≡ some t → IsSafe rules s.world t.held t.code
    pub apart :
        (i j : ℕ) (t u : Thread W)
        → get_elem? s.threads i ≡ some t
        → get_elem? s.threads j ≡ some u
        → i ≢ j
        → (l : Lock) → owns t.held l ≡ true
        → holds u.held l ≡ false

  -- A step of the thread at `i`, to a state and a thread.
  module _ (s : System W) (i : ℕ) (t : Thread W) (e : get_elem? s.threads i ≡ some t)
      (v : IsSound s) where
    before : (j : ℕ) (u : Thread W) → get_elem? s.threads j ≡ some u → i ≢ j → IsApart t.held u.held
    before j u f ne = λ l. (v.apart i j t u e f ne l, v.apart j i u t f e (λ q. ne (sym q)) l)

    step-IsSound :
        (w' : W) (t' : Thread W)
        → Inv w'
        → IsSafe rules w' t'.held t'.code
        → ((j : ℕ) (u : Thread W)
            → get_elem? s.threads j ≡ some u
            → i ≢ j
            → Rely rules u.held s.world w' × IsApart t'.held u.held)
        → IsSound (record { world = w'; threads = set s.threads i t' })
    step-IsSound w' t' inv safe others = record {
      inv = inv;
      safe = λ j u f. elim (get_elem?-set_view s.threads i j t' t u e f) [
        | inl (p, q) ↦ rw q safe
        | inr (p, q) ↦ IsSafe-Rely rules u.code u.held s.world w' (others j u q p).0 (v.safe j u q)
      ];
      apart = λ j k u x f g ne l o. elim (get_elem?-set_view s.threads i j t' t u e f) [
        | inl (p, q) ↦ elim (get_elem?-set_view s.threads i k t' t x e g) [
          | inl (p', q') ↦ absurd (ne (sym p ∙ p'))
          | inr (p', q') ↦ ((others k x q' p').1 l).0 (rw q at o)
        ]
        | inr (p, q) ↦ elim (get_elem?-set_view s.threads i k t' t x e g) [
          | inl (p', q') ↦ rw q' (((others j u q p).1 l).1 o)
          | inr (p', q') ↦ v.apart j k u x q q' ne l o
        ]
      ];
    }

    -- A step that takes or releases a lock, and leaves the state as it is.
    lock_step :
        (t' : Thread W)
        → IsSafe rules s.world t'.held t'.code
        → ((j : ℕ) (u : Thread W) → get_elem? s.threads j ≡ some u → i ≢ j → IsApart t'.held u.held)
        → IsSound (record { world = s.world; threads = set s.threads i t' })
    lock_step t' safe others =
        step-IsSound s.world t' v.inv safe
          λ j u f ne. (Rely-refl rules u.held s.world, others j u f ne)

    pub after_act :
        (g : W → W) (k : W → Code W)
        → IsSafe rules s.world t.held (act g k)
        → IsSound (record {
          world = g s.world;
          threads = set s.threads i (record { code = k s.world; held = t.held });
        })
    unfolding IsSafe
    after_act g k safe =
        let (inv, p, rest) = safe s.world (Rely-refl rules t.held s.world) v.inv in
        step-IsSound (g s.world) _ inv rest λ j u f ne. (
          record {
            later = p.later;
            guard = λ l h. p.guard l (unowned l u.held (before j u f ne) h);
          },
          before j u f ne,
        )
      where
        unowned :
            (l : Lock) (others : List Hold)
            → IsApart t.held others
            → holds others l ≡ true
            → owns t.held l ≡ false
        unowned l others a h = ground (arith, h, a l)

    pub after_release :
        (l : Lock) (k : Code W)
        → IsSafe rules s.world t.held (release l k)
        → IsSound (record {
          world = s.world;
          threads = set s.threads i (record { code = k; held = drop_hold l t.held });
        })
    unfolding IsSafe holds owns
    after_release l k (m, hs, q, safe) =
        let same : hs ≡ drop_hold l t.held = sym (ap (drop_hold l) q ∙ drop_hold_head l m hs) in
        lock_step (record { code = k; held = drop_hold l t.held })
          (subst (λ (x : List Hold). IsSafe rules s.world x k) same safe)
          λ j u f ne.
            subst (λ (x : List Hold). IsApart x u.held) same
              λ x.
                let b = subst (λ (y : List Hold). IsApart y u.held) q (before j u f ne) x in
                (λ o. b.0 (ground (arith, o)), λ o. ground (arith, b.1 o))

    pub after_take :
        (l : Lock) (m : Mode) (k : Code W)
        → ((j : ℕ) (u : Thread W)
            → get_elem? s.threads j ≡ some u
            → (m ≡ exclusive → holds u.held l ≡ false) × (owns u.held l ≡ false))
        → IsSafe rules s.world t.held (take l m k)
        → IsSound (record {
          world = s.world;
          threads =
              set s.threads i (record { code = k; held = record { lock = l; mode = m } ∷ t.held });
        })
    unfolding IsSafe
    after_take l m k free (above, safe) =
        lock_step (record { code = k; held = record { lock = l; mode = m } ∷ t.held })
          (safe s.world (Rely-refl rules t.held s.world) v.inv)
          λ j u f ne x. IsApart-take l m x t.held u.held (free j u f) (before j u f ne x)
