-- ===== src/Config/Changes.antt =====
-- What `ConfigVar::setValue` and `ConfigVar::fromString` do to a variable and its listeners.
use final_designer.Config.Var.{
  Outcome, returns, throws, Listener, Var, call_listeners, set_value, from_string,
}
use final_designer.Prelude.{
  ℕ, ◌≡◌, refl, Bool, true, false, List, [], ◌∷◌, Text, inl, inr, ◌⊎◌, Bool-cases, ap,
}

outcome-cases :
    {A : Type 0} (x : Outcome A) → ((a : A) × (x ≡ returns a)) ⊎ ((e : Text) × (x ≡ throws e))
outcome-cases (returns a) = inl (a, refl)
outcome-cases (throws e) = inr (e, refl)

module _ {T W : Type 0} where
  -- Every listener is called, in order, and returns: the state goes from the first to the second.
  pub data AllTold (old new : T) : List (ℕ × Listener T W) → W → W → Type 0 where
    told_none : {w : W} → AllTold old new [] w w
    told :
        {id : ℕ} {cb : Listener T W} {rest : List (ℕ × Listener T W)} {w w' : W}
        → (cb old new w).1 ≡ returns tt
        → AllTold old new rest (cb old new w).0 w'
        → AllTold old new ((id, cb) ∷ rest) w w'

  -- The listeners are called in order up to one that throws, and none behind it.
  pub data Stopped (old new : T) (e : Text) : List (ℕ × Listener T W) → W → W → Type 0 where
    stops :
        {id : ℕ} {cb : Listener T W} {rest : List (ℕ × Listener T W)} {w : W}
        → (cb old new w).1 ≡ throws e
        → Stopped old new e ((id, cb) ∷ rest) w (cb old new w).0
    passes :
        {id : ℕ} {cb : Listener T W} {rest : List (ℕ × Listener T W)} {w w' : W}
        → (cb old new w).1 ≡ returns tt
        → Stopped old new e rest (cb old new w).0 w'
        → Stopped old new e ((id, cb) ∷ rest) w w'

  call_listeners-cases :
      (cbs : List (ℕ × Listener T W)) (old new : T) (w : W)
      → ((w' : W) × AllTold old new cbs w w' × (call_listeners cbs old new w ≡ (w', returns tt)))
        ⊎ ((w' : W) × (e : Text) × Stopped old new e cbs w w'
            × (call_listeners cbs old new w ≡ (w', throws e)))
  unfolding call_listeners
  call_listeners-cases [] old new w = inl (w, told_none, refl)
  call_listeners-cases ((id, cb) ∷ rest) old new w = elim (outcome-cases (cb old new w).1) [
    | inr (e, p) ↦ inr (_, e, stops p, rw p refl)
    | inl (u, p) ↦ elim (call_listeners-cases rest old new (cb old new w).0) [
      | inl (w2, all, q) ↦ inl (w2, told p all, rw (p, q) refl)
      | inr (w2, e, s, q) ↦ inr (w2, e, passes p s, rw (p, q) refl)
    ]
  ]

  -- What `setValue` may come to: nothing for an equal value; all listeners told of the old and the
  -- new value, and the new one stored; or a listener that threw, and the variable as before.
  abbrev pub SetsValue : (T → T → Bool) → Var T W → T → W → Type 0
  SetsValue eq var v w =
      ((eq v var.val ≡ true) × (set_value eq var v w ≡ (var, w, returns tt)))
      ⊎ (((w' : W) × (eq v var.val ≡ false)
            × AllTold var.val v var.cbs w w'
            × (set_value eq var v w ≡ (record var { val = v }, w', returns tt)))
          ⊎ ((w' : W) × (e : Text) × (eq v var.val ≡ false)
              × Stopped var.val v e var.cbs w w'
              × (set_value eq var v w ≡ (var, w', throws e))))

  -- `setValue` does nothing for an equal value; otherwise it calls the listeners in order with the
  -- old and the new value, and stores the new one if all return; if one throws, those behind it are
  -- not called, the variable is as before and the exception is passed on.
  pub set_value-cases : (eq : T → T → Bool) (var : Var T W) (v : T) (w : W) → SetsValue eq var v w
  unfolding set_value
  set_value-cases eq var v w = elim (Bool-cases (eq v var.val)) [
    | inl same ↦ inl (same, rw same refl)
    | inr other ↦ elim (call_listeners-cases var.cbs var.val v w) [
      | inl (w', all, p) ↦
          inr (inl (w', other, all, rw (other, ap (λ x. x.1) p, ap (λ x. x.0) p) refl))
      | inr (w', e, s, p) ↦
          inr (inr (w', e, other, s, rw (other, ap (λ x. x.1) p, ap (λ x. x.0) p) refl))
    ]
  ]

  -- What `fromString` may come to: false and the variable as before, or true and the value set.
  abbrev pub SetsFrom :
      (T → T → Bool) → (Text → Outcome T) → (Text → W → W) → Var T W → Text → W → Type 0
  SetsFrom eq from_str note var s w =
      ((w' : W) × (from_string eq from_str note var s w ≡ (var, w', false)))
      ⊎ ((w' : W) × (v : T) × (var' : Var T W) × (from_str s ≡ returns v)
          × (from_string eq from_str note var s w ≡ (var', w', true))
          × ((var' ≡ record var { val = v }) ⊎ ((eq v var.val ≡ true) × (var' ≡ var))))

  -- `fromString` is all or nothing: it gives false and leaves the variable as it was, or it gives
  -- true, the text converts to a value, and the variable then has that value, or it is as it was
  -- and the value is one that `operator==` takes for its own.
  pub from_string-cases :
      (eq : T → T → Bool) (from_str : Text → Outcome T) (note : Text → W → W) (var : Var T W)
      (s : Text) (w : W)
      → SetsFrom eq from_str note var s w
  unfolding from_string
  from_string-cases eq from_str note var s w = elim (outcome-cases (from_str s)) [
    | inr (e, p) ↦ inl (note e w, rw (p, from_string) refl)
    | inl (v, p) ↦ elim (set_value-cases eq var v w) [
      | inl (same, q) ↦ inr (w, v, var, p, accepted v p q, inr (same, refl))
      | inr (inl (w', other, all, q)) ↦ inr (w', v, _, p, accepted v p q, inl refl)
      | inr (inr (w', e, other, stop, q)) ↦
          inl
            (note e w', rw (p, from_string, ap (λ x. x.2) q, ap (λ x. x.1) q, ap (λ x. x.0) q) refl)
    ]
  ]
    where
      accepted :
          (v : T) {var' : Var T W} {w' : W}
          → from_str s ≡ returns v
          → set_value eq var v w ≡ (var', w', returns tt)
          → from_string eq from_str note var s w ≡ (var', w', true)
      accepted v p q = rw (p, from_string, ap (λ x. x.2) q, ap (λ x. x.1) q, ap (λ x. x.0) q) refl
