-- ===== src/Config/Listeners.antt =====
-- The listeners of a `ConfigVar` and their keys.
use final_designer.Config.Var.{
  Listener, Var, put, remove, find, add_listener, del_listener, get_listener,
}
use final_designer.Prelude.{
  ℕ, ◌+◌, ◌%◌, ◌^◌, ◌<◌, ◌≡◌, refl, Bool, true, List, [], ◌∷◌, ◌++◌, some, if◌then◌else◌, ◌==◌,
  arith, ap, all, leb, &&-eq-true,
}

-- Every key was taken from the counter: none is above it.
abbrev pub are_taken : {A : Type 0} → ℕ → List (ℕ × A) → Bool
are_taken count cbs = all (λ c. leb c.0 count) cbs

module _ {T W : Type 0} where
  find-put :
      (key : ℕ) (cb : Listener T W) (cbs : List (ℕ × Listener T W)) (k : ℕ)
      → find k (put key cb cbs) ≡ (if key == k then some cb else find k cbs)
  unfolding find put
  find-put key cb [] k = refl
  find-put key cb ((l, c) ∷ rest) k = let ih = find-put key cb rest k in ground (arith, ih)

  put_last :
      (key : ℕ) (cb : Listener T W) (cbs : List (ℕ × Listener T W)) (count : ℕ)
      → are_taken count cbs ≡ true
      → count < key
      → put key cb cbs ≡ cbs ++ (key, cb) ∷ []
  unfolding put
  put_last key cb [] count h lt = refl
  put_last key cb ((l, c) ∷ rest) count h lt =
      let ih = put_last key cb rest count (&&-eq-true (leb l count) _ h).1 lt in
      let below = (&&-eq-true (leb l count) _ h).0 in rw ih (ground (arith, below, lt))

  remove_last :
      (key : ℕ) (cb : Listener T W) (cbs : List (ℕ × Listener T W)) (count : ℕ)
      → are_taken count cbs ≡ true
      → count < key
      → remove key (cbs ++ (key, cb) ∷ []) ≡ cbs
  unfolding remove
  remove_last key cb [] count h lt = ground arith
  remove_last key cb ((l, c) ∷ rest) count h lt =
      let ih = remove_last key cb rest count (&&-eq-true (leb l count) _ h).1 lt in
      let below = (&&-eq-true (leb l count) _ h).0 in rw ih (ground (arith, below, lt))

  are_taken-append :
      (cb : Listener T W) (cbs : List (ℕ × Listener T W)) (count : ℕ)
      → are_taken count cbs ≡ true
      → are_taken (count + 1) (cbs ++ (count + 1, cb) ∷ []) ≡ true
  are_taken-append cb [] count h = ground arith
  are_taken-append cb ((l, c) ∷ rest) count h =
      let ih = are_taken-append cb rest count (&&-eq-true (leb l count) _ h).1 in
      let below = (&&-eq-true (leb l count) _ h).0 in ground (arith, below, ih)

  -- `getListener` behind `addListener` finds the new listener under the key that was returned, and
  -- under any other key what was there.
  pub add_listener-get_listener :
      (count : ℕ) (var : Var T W) (cb : Listener T W) (k : ℕ)
      → get_listener (add_listener count var cb).1 k
        ≡ (if (add_listener count var cb).0 == k then some cb else get_listener var k)
  unfolding add_listener get_listener
  add_listener-get_listener count var cb k = find-put _ cb var.cbs k

  -- If the counter has not reached the end of 64 bits and all keys were taken from it,
  -- `addListener` gives a key that no listener has and calls the new listener last, and
  -- `delListener` with that key takes back just that.
  pub add_listener-del_listener :
      (count : ℕ) (var : Var T W) (cb : Listener T W)
      → are_taken count var.cbs ≡ true
      → count + 1 < 2 ^ 64
      → ((add_listener count var cb).0 ≡ count + 1)
        × ((add_listener count var cb).1.cbs ≡ var.cbs ++ (count + 1, cb) ∷ [])
        × (are_taken (count + 1) (add_listener count var cb).1.cbs ≡ true)
        × (del_listener (add_listener count var cb).1 (add_listener count var cb).0 ≡ var)
  unfolding add_listener del_listener
  add_listener-del_listener count var cb h lt =
      let key : (count + 1) % 2 ^ 64 ≡ count + 1 = omega (arith, lt) in
      let last = put_last (count + 1) cb var.cbs count h (omega arith) in
      rw (key, last)
        (
          refl,
          refl,
          are_taken-append cb var.cbs count h,
          ap (λ (l : List (ℕ × Listener T W)). record var { cbs = l })
              (remove_last (count + 1) cb var.cbs count h (omega arith)),
        )
