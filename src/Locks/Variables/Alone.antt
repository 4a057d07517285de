-- ===== src/Locks/Variables/Alone.antt =====
-- `setValue` by a thread that has the variable to itself is that of `Config/Var.antt`.
use final_designer.Config.Var
use final_designer.Config.Var.{Outcome, returns, throws, Listener, Var}
use final_designer.Locks.Code.{Code, alone, release, variable}
use final_designer.Locks.Variables.{Shared, Caller, call_listeners, called, set_value}
use final_designer.Prelude.{ℕ, ◌≡◌, refl, ◌∙◌, Bool, true, false, List, [], ◌∷◌, if◌then◌else◌}

module _ {T F V : Type 0} (x : ℕ) (eq : T → T → Bool) (call : Caller T F V)
    (effect : F → Listener T V) where
  -- A listener that is called alone has this effect, and then the thread goes on.
  abbrev pub HasEffect : Type 0
  HasEffect =
      (f : F) (old new : T) (k : Outcome (Unit {0}) → Code (Shared T F V)) (s : Shared T F V)
      → alone (call f old new k) s
        ≡ alone (k (effect f old new s.other).1) (record s { other = (effect f old new s.other).0 })

  abbrev effects : List (ℕ × F) → List (ℕ × Listener T V)
  effects [] = []
  effects ((key, f) ∷ cbs) = (key, effect f) ∷ effects cbs

  -- The variable, with its listeners for their pointers.
  abbrev pub var_of : Shared T F V → Var T V
  var_of s = record { name = []; description = []; val = s.val; cbs = effects s.cbs }

  module _ (has : HasEffect) where
    alone-call_listeners :
        (cbs : List (ℕ × F)) (v : T) (k : Outcome (Unit {0}) → Code (Shared T F V))
        (s : Shared T F V)
        → alone (call_listeners x eq call cbs v k) s
          ≡ alone
              (k (Var.call_listeners (effects cbs) s.val v s.other).1)
              (record s { other = (Var.call_listeners (effects cbs) s.val v s.other).0 })
    unfolding call_listeners Var.call_listeners alone
    alone-call_listeners [] v k s = refl
    alone-call_listeners ((key, f) ∷ cbs) v k s =
        has f s.val v _ s
        ∙ resulted (effect f s.val v s.other).1 (effect f s.val v s.other).0
            (alone-call_listeners cbs v k (record s { other = (effect f s.val v s.other).0 }))
      where
        resulted :
            (r : Outcome (Unit {0})) (w : V)
            → alone (call_listeners x eq call cbs v k) (record s { other = w })
              ≡ alone
                  (k (Var.call_listeners (effects cbs) s.val v w).1)
                  (record s { other = (Var.call_listeners (effects cbs) s.val v w).0 })
            → alone
                (elim r [ throws e ↦ k (throws e) | returns u ↦ call_listeners x eq call cbs v k ])
                (record s { other = w })
              ≡ (let p : V × Outcome (Unit {0}) = elim r [
                | returns u ↦ Var.call_listeners (effects cbs) s.val v w
                | throws e ↦ (w, throws e)
              ] in
                  alone (k p.1) (record s { other = p.0 }))
        resulted (throws e) w h = refl
        resulted (returns u) w h = h

    -- With the locks left out, `setValue` has the value, the effects of the listeners and the
    -- exception that the sequential operation gives.
    pub alone-set_value :
        (v : T) (k : Outcome (Unit {0}) → Code (Shared T F V)) (s : Shared T F V)
        → alone (set_value x eq call v k) s
          ≡ alone (k (Var.set_value eq (var_of s) v s.other).2) (record s {
            val = (Var.set_value eq (var_of s) v s.other).0.val;
            other = (Var.set_value eq (var_of s) v s.other).1;
          })
    unfolding set_value Var.set_value alone
    alone-set_value v k s = compared (eq v s.val)
      where
        stored : V × Outcome (Unit {0}) → Var T V × V × Outcome (Unit {0})
        stored p = elim p.1 [
          | returns u ↦ (record (var_of s) { val = v }, p.0, returns tt)
          | throws e ↦ (var_of s, p.0, throws e)
        ]

        stored_both :
            (r : Outcome (Unit {0})) (w : V)
            → alone (called x eq call v k r) (record s { other = w })
              ≡ alone
                  (k (stored (w, r)).2)
                  (record s { val = (stored (w, r)).0.val; other = (stored (w, r)).1 })
        stored_both (returns u) w = refl
        stored_both (throws e) w = refl

        compared :
            (b : Bool)
            → alone
                (if b
                  then release (variable x) (k (returns tt))
                  else call_listeners x eq call s.cbs v (called x eq call v k))
                s
              ≡ (let p : Var T V × V × Outcome (Unit {0}) =
                    if b
                    then (var_of s, s.other, returns tt)
                    else stored (Var.call_listeners (effects s.cbs) s.val v s.other) in
                  alone (k p.2) (record s { val = p.0.val; other = p.1 }))
        compared true = refl
        compared false =
            alone-call_listeners s.cbs v (called x eq call v k) s
            ∙ stored_both (Var.call_listeners (effects s.cbs) s.val v s.other).1
                (Var.call_listeners (effects s.cbs) s.val v s.other).0
