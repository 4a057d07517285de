-- ===== src/Locks/Variables/Uses.antt =====
-- What a thread does with a variable, call by call, beside other threads.
use final_designer.Config.Var.{Outcome, returns, throws}
use final_designer.Locks.Code.{shared, exclusive, Code, done}
use final_designer.Locks.Safe.{Rules, IsSafe}
use final_designer.Locks.Variables.{
  Shared, Caller, get_value, to_string, storing, called, add_listener, del_listener, get_listener,
  clear_listener, call_listeners, set_value, from_string,
}
use final_designer.Prelude.{ℕ, refl, Bool, List, [], ◌∷◌, Text, Bool-cases, inl, inr}
use final_designer.Locks.Variables.Accesses.{
  in_call, rules, Onward, IsCaller, act-IsSafe, look-IsSafe, take-IsSafe, release-IsSafe, owned,
  write-IsSafe, read-IsSafe,
}

-- What a thread does with a variable.
pub data Use (T F : Type 0) : Type 0 where
  get : Use T F
  print : Use T F
  set : T → Use T F
  set_text : Text → Use T F
  add : F → Use T F
  del : ℕ → Use T F
  ask : ℕ → Use T F
  clear : Use T F

module _ {T F V : Type 0} (x : ℕ) (eq : T → T → Bool) (call : Caller T F V)
    (from_str : Text → Outcome T) (to_str : T → Outcome Text) where
  -- One use, in front of the rest of the thread.
  unfoldable pub use_variable : Use T F → Code (Shared T F V) → Code (Shared T F V)
  use_variable get k = get_value x λ v. k
  use_variable print k = to_string x to_str λ out. k
  use_variable (set v) k = set_value x eq call v λ result. k
  use_variable (set_text text) k = from_string x eq call from_str text λ result. k
  use_variable (add f) k = add_listener x f λ key. k
  use_variable (del key) k = del_listener x key k
  use_variable (ask key) k = get_listener x key λ f. k
  use_variable clear k = clear_listener x k

  unfoldable pub uses : List (Use T F) → Code (Shared T F V)
  unfolding use_variable
  uses [] = done
  uses (u ∷ us) = use_variable u (uses us)

module _ {T F V : Type 0} (rest : Rules V) (x : ℕ) where
  add_listener-IsSafe :
      (f : F) (s : Shared T F V) (k : ℕ → Code (Shared T F V))
      → ((key : ℕ) → Onward rest x [] s (k key))
      → IsSafe (rules rest x) s [] (add_listener x f k)
  unfolding add_listener
  add_listener-IsSafe f s k h = take-IsSafe rest x s exclusive _ λ t r i.
      act-IsSafe rest x (in_call x exclusive) t _ _ (λ u. refl) (λ u l o. owned rest x u _ l o)
        λ u q j.
          act-IsSafe rest x (in_call x exclusive) _ _ _ (λ y. refl) (λ y l o. owned rest x y _ l o)
            λ y p m. look-IsSafe rest x (in_call x exclusive) _ _ λ z n o.
              release-IsSafe rest x z exclusive (k z.count) (
                h z.count z
                  (rest.later_trans s.other t.other z.other r (
                    rest.later_trans t.other u.other z.other q
                      (rest.later_trans u.other y.other z.other p n)))
                  o)

  module _ (eq : T → T → Bool) (call : Caller T F V) (safe : IsCaller rest x call) where
    call_listeners-IsSafe :
        (cbs : List (ℕ × F)) (v : T) (s : Shared T F V)
        (k : Outcome (Unit {0}) → Code (Shared T F V))
        → ((r : Outcome (Unit {0})) → Onward rest x (in_call x shared) s (k r))
        → Onward rest x (in_call x shared) s (call_listeners x eq call cbs v k)
    unfolding call_listeners
    call_listeners-IsSafe [] v s k h = h (returns tt)
    call_listeners-IsSafe ((id, f) ∷ cbs) v s k h = λ t r i.
        look-IsSafe rest x (in_call x shared) t _ λ u q j. safe f u.val v u _ (
          resulted u (rest.later_trans s.other t.other u.other r q) (λ y p m.
            call_listeners-IsSafe cbs v s k h y
              (rest.later_trans s.other u.other y.other
                (rest.later_trans s.other t.other u.other r q) p)
              m))
      where
        resulted :
            (u : Shared T F V)
            → rest.Later s.other u.other
            → Onward rest x (in_call x shared) u (call_listeners x eq call cbs v k)
            → (r : Outcome (Unit {0}))
            → Onward rest x
                (in_call x shared)
                u
                (elim r [ throws e ↦ k (throws e) | returns w ↦ call_listeners x eq call cbs v k ])
        resulted u a go (throws e) =
            λ y p m. h (throws e) y (rest.later_trans s.other u.other y.other a p) m
        resulted u a go (returns w) = go

    pub set_value-IsSafe :
        (v : T) (s : Shared T F V) (k : Outcome (Unit {0}) → Code (Shared T F V))
        → ((r : Outcome (Unit {0})) → Onward rest x [] s (k r))
        → IsSafe (rules rest x) s [] (set_value x eq call v k)
    unfolding set_value
    set_value-IsSafe v s k h = take-IsSafe rest x s shared _ λ t r i.
        look-IsSafe rest x (in_call x shared) t _ λ u q j.
          let a = rest.later_trans s.other t.other u.other r q in
          elim (Bool-cases (eq v u.val)) [
            | inl same ↦
                rw same (release-IsSafe rest x u shared (k (returns tt)) (h (returns tt) u a j))
            | inr new ↦ rw new (
                call_listeners-IsSafe u.cbs v u (called x eq call v k) (behind u a) u
                  (rest.later_refl u.other) j)
          ]
      where
        behind :
            (u : Shared T F V)
            → rest.Later s.other u.other
            → (r : Outcome (Unit {0})) → Onward rest x (in_call x shared) u (called x eq call v k r)
        behind u a (throws e) = λ y p m.
            release-IsSafe rest x y shared (k (throws e))
              (h (throws e) y (rest.later_trans s.other u.other y.other a p) m)
        behind u a (returns w) = λ y p m. release-IsSafe rest x y shared (storing x v k) (
            write-IsSafe rest x y _ (k (returns tt)) (λ t. refl)
              λ z n o.
                h (returns tt) z
                  (rest.later_trans s.other y.other z.other
                    (rest.later_trans s.other u.other y.other a p) n)
                  o)

    module _ (from_str : Text → Outcome T) (to_str : T → Outcome Text) where
      use_variable-IsSafe :
          (u : Use T F) (s : Shared T F V) (k : Code (Shared T F V))
          → Onward rest x [] s k
          → rest.Inv s.other
          → IsSafe (rules rest x) s [] (use_variable x eq call from_str to_str u k)
      unfolding use_variable get_value to_string del_listener get_listener clear_listener
          from_string
      use_variable-IsSafe get s k h i = read-IsSafe rest x s _ λ t. h
      use_variable-IsSafe print s k h i = read-IsSafe rest x s _ λ t. h
      use_variable-IsSafe (set v) s k h i = set_value-IsSafe v s _ λ r. h
      use_variable-IsSafe (set_text text) s k h i = converted (from_str text)
        where
          converted :
              (o : Outcome T)
              → IsSafe
                  (rules rest x)
                  s
                  []
                  (elim o [ throws e ↦ k | returns v ↦ set_value x eq call v λ result. k ])
          converted (throws e) = h s (rest.later_refl s.other) i
          converted (returns v) = set_value-IsSafe v s _ λ r. h
      use_variable-IsSafe (add f) s k h i = add_listener-IsSafe f s _ λ key. h
      use_variable-IsSafe (del key) s k h i = write-IsSafe rest x s _ k (λ t. refl) h
      use_variable-IsSafe (ask key) s k h i = read-IsSafe rest x s _ λ t. h
      use_variable-IsSafe clear s k h i = write-IsSafe rest x s _ k (λ t. refl) h

      pub uses-IsSafe :
          (us : List (Use T F)) (s : Shared T F V)
          → Onward rest x [] s (uses x eq call from_str to_str us)
      unfolding uses IsSafe
      uses-IsSafe [] s = λ t r i. refl
      uses-IsSafe (u ∷ us) s = λ t r i. use_variable-IsSafe u t _ (uses-IsSafe us t) i
