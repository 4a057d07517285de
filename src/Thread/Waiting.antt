-- ===== src/Thread/Waiting.antt =====
-- What `Semaphore::wait` makes of the results of `sem_wait`.
use final_designer.Prelude.{ℕ, ap, List, ◌∷◌, ◌≡◌, ◌↔◌, refl, codes, some, ℤ, pos, negsuc, arith}
use final_designer.Thread.Start.{returned, threw, Codes, wait_round, wait}

abbrev number : ℤ → ℕ
number (pos n) = n
number (negsuc n) = 0

-- The loop of `wait` never goes round: `wait` ends with the first result of `sem_wait`, whatever
-- would follow, and returns exactly if that is 0; for -1, which `sem_wait` gives for every error,
-- a signal's interruption included, it throws.
wait_once :
    (c : Codes) (flag : ℤ) (flags : List ℤ)
    → (wait c (flag ∷ flags) ≡ wait_round c flag)
      × ((wait c (flag ∷ flags) ≡ some returned) ↔ (flag ≡ pos 0))
      × (wait c (negsuc 0 ∷ flags) ≡ some (threw (codes "sem_wait error")))
unfolding wait wait_round
wait_once c (pos n) flags =
    (ground arith, (λ h. ap pos (ground (arith, h)), λ h. rw (ap number h) refl), refl)
wait_once c (negsuc n) flags = (refl, (λ h. cc, λ h. cc), refl)
