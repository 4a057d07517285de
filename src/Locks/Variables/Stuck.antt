-- ===== src/Locks/Variables/Stuck.antt =====
-- A listener that changes the variable that calls it waits for ever.
use final_designer.Locks.Code.{
  Lock, variable, Mode, exclusive, Code, done, crash, act, take, release, Hold, Thread, System,
  holds, all_modes, advance, turn, turn-advance, advance-take, lock_eq, shared, Reach, start, next,
  IsGrant,
}
use final_designer.Locks.Modes.{all_modes-nil}
use final_designer.Config.Var.{Outcome, returns, throws}
use final_designer.Locks.Program.{launch}
use final_designer.Locks.Progress.{is_done}
use final_designer.Locks.Variables.{
  Shared, Caller, look, add_listener, call_listeners, called, set_value,
}
use final_designer.Prelude.{
  ℕ, [], ◌∷◌, false, all, if◌then◌else◌, ◌&&◌, ◌≡◌, ◌≢◌, refl, sym, ap, ◌∙◌, Bool, true, List, some,
  none, get_elem?, arith, subst, some-injective, Bool-cases, Option-cases, inl, inr, ◌==◌, ==_iff,
  get_elem?-set_ne,
}

module _ {W : Type 0} (grant : List Mode → Mode → Bool) (law : IsGrant grant) where
  -- A thread that waits for a lock that it holds makes no step.
  waits :
      (s : System W) (i : ℕ) (t : Thread W) (l : Lock) (k : Code W)
      → get_elem? s.threads i ≡ some t
      → t.code ≡ take l exclusive k
      → holds t.held l ≡ true
      → turn grant s i ≡ none
  unfolding advance
  waits s i t l k e q h =
      turn-advance grant s i t (take l exclusive k) e q
      ∙ elim (Bool-cases (grant (all_modes s.threads l) exclusive)) [
        | inr no_ ↦ rw no_ refl
        | inl yes_ ↦ absurd (ground (arith, h, all_modes-nil s.threads l i t (law.alone _ yes_) e))
      ]

  -- A step leaves the other threads as they are.
  others :
      (s s' : System W) (j : ℕ) (held : List Hold) (c : Code W) (i : ℕ)
      → i ≢ j
      → advance grant s j held c ≡ some s'
      → get_elem? s'.threads i ≡ get_elem? s.threads i
  unfolding advance
  others s s' j held done i ne h = cc
  others s s' j held crash i ne h = cc
  others s s' j held (act g k) i ne h =
      subst (λ (x : System W). get_elem? x.threads i ≡ get_elem? s.threads i) (some-injective _ _ h)
        (get_elem?-set_ne s.threads _ (λ q. ne (sym q)))
  others s s' j held (release l k) i ne h =
      subst (λ (x : System W). get_elem? x.threads i ≡ get_elem? s.threads i) (some-injective _ _ h)
        (get_elem?-set_ne s.threads _ (λ q. ne (sym q)))
  others s s' j held (take l m k) i ne h = elim (Bool-cases (grant (all_modes s.threads l) m)) [
    | inr no_ ↦ absurd (ground (arith, h, no_))
    | inl yes_ ↦
        subst (λ (x : System W). get_elem? x.threads i ≡ get_elem? s.threads i)
          (some-injective _ _ (rw yes_ at h)) (get_elem?-set_ne s.threads _ (λ q. ne (sym q)))
  ]

  turn-others :
      (s s' : System W) (i j : ℕ)
      → i ≢ j
      → turn grant s j ≡ some s'
      → get_elem? s'.threads i ≡ get_elem? s.threads i
  unfolding turn
  turn-others s s' i j ne h = elim (Option-cases (get_elem? s.threads j)) [
    | inl e ↦ absurd (ground (arith, rw (e, turn) at h))
    | inr (t, e) ↦ others s s' j t.held t.code i ne (rw (e, turn) at h)
  ]

  stays :
      (s s' : System W) (i : ℕ) (t : Thread W) (l : Lock) (k : Code W)
      → get_elem? s.threads i ≡ some t
      → t.code ≡ take l exclusive k
      → holds t.held l ≡ true
      → Reach grant s s'
      → get_elem? s'.threads i ≡ some t
  stays s s' i t l k e q h start = e
  stays s s' i t l k e q h (next {t = u} j r g) =
      let there = stays s u i t l k e q h r in
      elim (Bool-cases (i == j)) [
        | inr other ↦ turn-others u s' i j (λ p. ground (arith, other, (==_iff i j).1 p)) g ∙ there
        | inl same ↦
            let p : i ≡ j = (==_iff i j).0 same in
            absurd (ground (arith, waits u i t l k there q h, ap (turn grant u) p, g))
      ]

-- A thread that holds the lock of a variable and calls `addListener` of it is in that call for ever.
add_listener-stuck :
    {T F V : Type 0} (grant : List Mode → Mode → Bool) (x : ℕ) (s s' : System (Shared T F V))
    (i : ℕ) (t : Thread (Shared T F V)) (f : F) (k : ℕ → Code (Shared T F V))
    → IsGrant grant
    → get_elem? s.threads i ≡ some t
    → t.code ≡ add_listener x f k
    → holds t.held (variable x) ≡ true
    → Reach grant s s'
    → (get_elem? s'.threads i ≡ some t) × (turn grant s' i ≡ none)
unfolding add_listener
add_listener-stuck grant x s s' i t f k law e q h r =
    let there = stays grant law s s' i t (variable x) _ e q h r in
    (there, waits grant law s' i t (variable x) _ there q h)

-- Threads that have not begun hold nothing.
launched-modes :
    {W : Type 0} (w : W) (cs : List (Code W)) (l : Lock) → all_modes (launch w cs).threads l ≡ []
unfolding all_modes
launched-modes w [] l = refl
launched-modes w (c ∷ cs) l = launched-modes w cs l

-- A thread calls `setValue` with a new value, and its first listener calls `addListener` of the same
-- variable: beside whatever other threads, there is a schedule that brings the thread to a place
-- that it never leaves, whatever the others do from there.
pub set_value-stuck :
    {T F V : Type 0} (grant : List Mode → Mode → Bool) (x : ℕ) (eq : T → T → Bool)
    (call : Caller T F V) (f g : F) (id : ℕ) (more : List (ℕ × F)) (v : T)
    (k : Outcome (Unit {0}) → Code (Shared T F V)) (s : Shared T F V)
    (cs : List (Code (Shared T F V)))
    → IsGrant grant
    → s.cbs ≡ (id, f) ∷ more
    → eq v s.val ≡ false
    → ((old new : T) (h : Outcome (Unit {0}) → Code (Shared T F V))
        → call f old new h ≡ add_listener x g λ key. h (returns tt))
    → (t : System (Shared T F V)) × Reach grant (launch s (set_value x eq call v k ∷ cs)) t
      × ((t' : System (Shared T F V))
          → Reach grant t t'
          → (turn grant t' 0 ≡ none) × (all is_done t'.threads ≡ false))
unfolding set_value call_listeners add_listener turn advance holds lock_eq
set_value-stuck {T} {F} {V} grant x eq call f g id more v k s cs law listed new adds =
    (t3, reach, forever)
  where
    at : Code (Shared T F V) → List Hold → System (Shared T F V)
    at c held = record {
      world = s;
      threads = record { code = c; held = held } ∷ (launch s cs).threads;
    }

    held : List Hold
    held = record { lock = variable x; mode = shared } ∷ []

    onward : Outcome (Unit {0}) → Code (Shared T F V)
    onward = λ result. elim result [
      | throws e ↦ called x eq call v k (throws e)
      | returns u ↦ call_listeners x eq call more v (called x eq call v k)
    ]

    tested : Code (Shared T F V)
    tested =
        if eq v s.val
        then release (variable x) (k (returns tt))
        else call_listeners x eq call s.cbs v (called x eq call v k)

    looping : Code (Shared T F V)
    looping = call_listeners x eq call ((id, f) ∷ more) v (called x eq call v k)

    t3 : System (Shared T F V)
    t3 = at (call f s.val v onward) held

    looped : tested ≡ looping
    looped =
        ap
          (λ b.
            if b
            then release (variable x) (k (returns tt))
            else call_listeners x eq call s.cbs v (called x eq call v k))
          new
        ∙ ap (λ cbs. call_listeners x eq call cbs v (called x eq call v k)) listed

    granted :
        grant (all_modes (launch s (set_value x eq call v k ∷ cs)).threads (variable x)) shared
        ≡ true
    granted = ap (λ ms. grant ms shared) (launched-modes s cs (variable x)) ∙ law.free shared

    taken :
        turn grant (launch s (set_value x eq call v k ∷ cs)) 0
        ≡ some (
            at
              (look λ u.
                if eq v u.val
                then release (variable x) (k (returns tt))
                else call_listeners x eq call u.cbs v (called x eq call v k))
              held)
    taken =
        advance-take grant (launch s (set_value x eq call v k ∷ cs)) 0 [] (variable x) shared
          (look λ u.
            if eq v u.val
            then release (variable x) (k (returns tt))
            else call_listeners x eq call u.cbs v (called x eq call v k))
          granted

    reach : Reach grant (launch s (set_value x eq call v k ∷ cs)) t3
    reach = next 0 (next 0 (next 0 start taken) (ap (λ c. some (at c held)) looped)) refl

    holds_it : holds held (variable x) ≡ true
    holds_it = ground (arith, (==_iff x x).1 refl)

    unfinished :
        (ts : List (Thread (Shared T F V)))
        → get_elem? ts 0 ≡ some (record { code = call f s.val v onward; held = held })
        → call f s.val v onward ≡ add_listener x g (λ key. onward (returns tt))
        → all is_done ts ≡ false
    unfinished [] e q = cc
    unfinished (u ∷ ts) e q =
        ap (λ (c : Bool). c && all is_done ts)
          (ap is_done (some-injective _ _ e)
            ∙ ap (λ c. is_done (record { code = c; held = held })) q)

    forever :
        (t' : System (Shared T F V))
        → Reach grant t3 t'
        → (turn grant t' 0 ≡ none) × (all is_done t'.threads ≡ false)
    forever t' r =
        let (there, waits_) =
          add_listener-stuck grant x t3 t' 0 _ g _ law refl (adds s.val v onward) holds_it r in
        (waits_, unfinished t'.threads there (adds s.val v onward))
