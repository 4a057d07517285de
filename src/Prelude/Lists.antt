-- ===== src/Prelude/Lists.antt =====
-- Lists measured and indexed by native numbers, under the library's names.
use Prim.Native.Nat.{ℕ, zero, suc, ◌+◌, ◌<◌, ◌-◌}
use Prim.Native.Nat.add
use mathlib.Core.Path.{◌≡◌, refl, sym, ap, ◌∙◌}
use mathlib.Core.Logic.{◌≢◌, ◌⊎◌, inl, inr}
use mathlib.Core.Bool.{Bool, true, false, not, ◌&&◌, ◌||◌}
use mathlib.Core.List.{List, [], ◌∷◌, ◌++◌}
use mathlib.Core.Option.{Option, none, some, some-injective}
use native.Mathlib.Omega.{arith}

module _ {ℓ} {A : Type ℓ} where
  abbrev pub length : List A → ℕ
  length [] = 0
  length (x ∷ xs) = suc (length xs)

  abbrev pub is_empty : List A → Bool
  is_empty [] = true
  is_empty (x ∷ xs) = false

  abbrev pub get_elem? : List A → ℕ → Option A
  get_elem? [] i = none
  get_elem? (x ∷ xs) zero = some x
  get_elem? (x ∷ xs) (suc i) = get_elem? xs i

  -- A write out of bounds changes nothing.
  abbrev pub set : List A → ℕ → A → List A
  set [] i v = []
  set (x ∷ xs) zero v = v ∷ xs
  set (x ∷ xs) (suc i) v = x ∷ set xs i v

  abbrev pub take : ℕ → List A → List A
  take zero xs = []
  take (suc n) [] = []
  take (suc n) (x ∷ xs) = x ∷ take n xs

  abbrev pub drop : ℕ → List A → List A
  drop zero xs = xs
  drop (suc n) [] = []
  drop (suc n) (x ∷ xs) = drop n xs

  abbrev pub all : (A → Bool) → List A → Bool
  all p [] = true
  all p (x ∷ xs) = p x && all p xs

  abbrev pub any : (A → Bool) → List A → Bool
  any p [] = false
  any p (x ∷ xs) = p x || any p xs

  -- No element equals one behind it.
  abbrev pub is_distinct : (A → A → Bool) → List A → Bool
  is_distinct eq [] = true
  is_distinct eq (x ∷ xs) = all (λ y. not (eq y x)) xs && is_distinct eq xs

  pub length-append : (xs ys : List A) → length (xs ++ ys) ≡ length xs + length ys
  length-append [] ys = omega arith
  length-append (x ∷ xs) ys = omega (arith, length-append xs ys)

  pub drop-append : (xs ys : List A) → drop (length xs) (xs ++ ys) ≡ ys
  drop-append [] ys = refl
  drop-append (x ∷ xs) ys = drop-append xs ys

  pub take-append : (xs ys : List A) → take (length xs) (xs ++ ys) ≡ xs
  take-append [] ys = refl
  take-append (x ∷ xs) ys = ap (◌∷◌ x) (take-append xs ys)

  pub drop-length : (xs : List A) → drop (length xs) xs ≡ []
  drop-length [] = refl
  drop-length (x ∷ xs) = drop-length xs

  pub length-drop : (n : ℕ) (xs : List A) → length (drop n xs) ≡ length xs - n
  length-drop zero xs = omega arith
  length-drop (suc n) [] = omega arith
  length-drop (suc n) (x ∷ xs) = omega (arith, length-drop n xs)

  drop-nil : (n : ℕ) → drop n [] ≡ []
  drop-nil zero = refl
  drop-nil (suc n) = refl

  pub drop-add : (m n : ℕ) (xs : List A) → drop (m + n) xs ≡ drop n (drop m xs)
  drop-add zero n xs = ap (λ (k : ℕ). drop k xs) (omega arith)
  drop-add (suc m) n [] = drop-nil (suc m + n) ∙ sym (drop-nil n)
  drop-add (suc m) n (x ∷ xs) = rw add.suc (drop-add m n xs)

  -- What stands behind an index, from what stands at and behind it.
  pub get_elem?-drop :
      (i : ℕ) (xs ys : List A) (x : A) → drop i xs ≡ x ∷ ys → get_elem? xs i ≡ some x
  get_elem?-drop zero [] ys x e = cc
  get_elem?-drop zero (y ∷ xs) ys x e = cc
  get_elem?-drop (suc i) [] ys x e = cc
  get_elem?-drop (suc i) (y ∷ xs) ys x e = get_elem?-drop i xs ys x e

  pub get_elem?-drop_nil : (i : ℕ) (xs : List A) → drop i xs ≡ [] → get_elem? xs i ≡ none
  get_elem?-drop_nil zero [] e = refl
  get_elem?-drop_nil zero (y ∷ xs) e = cc
  get_elem?-drop_nil (suc i) [] e = refl
  get_elem?-drop_nil (suc i) (y ∷ xs) e = get_elem?-drop_nil i xs e

  pub drop_behind : (i : ℕ) (xs ys : List A) (x : A) → drop i xs ≡ x ∷ ys → drop (i + 1) xs ≡ ys
  drop_behind i xs ys x e = drop-add i 1 xs ∙ ap (drop 1) e

  pub length-set : (xs : List A) (i : ℕ) (v : A) → length (set xs i v) ≡ length xs
  length-set [] i v = refl
  length-set (x ∷ xs) zero v = refl
  length-set (x ∷ xs) (suc i) v = ap suc (length-set xs i v)

  pub get_elem?-set_self :
      (xs : List A) (i : ℕ) (v : A) → i < length xs → get_elem? (set xs i v) i ≡ some v
  get_elem?-set_self [] i v h = elim h [ ]
  get_elem?-set_self (x ∷ xs) zero v h = refl
  get_elem?-set_self (x ∷ xs) (suc i) v h = get_elem?-set_self xs i v (omega arith)

  pub get_elem?-set_ne :
      (xs : List A) {i j : ℕ} (v : A) → i ≢ j → get_elem? (set xs i v) j ≡ get_elem? xs j
  get_elem?-set_ne [] v h = refl
  get_elem?-set_ne (x ∷ xs) {i = zero} {j = zero} v h = absurd (h refl)
  get_elem?-set_ne (x ∷ xs) {i = zero} {j = suc j} v h = refl
  get_elem?-set_ne (x ∷ xs) {i = suc i} {j = zero} v h = refl
  get_elem?-set_ne (x ∷ xs) {i = suc i} {j = suc j} v h = get_elem?-set_ne xs v (λ e. h (ap suc e))

  -- What a list holds behind a write was written, or was there.
  pub get_elem?-set_cases :
      (xs : List A) (i j : ℕ) (v x : A)
      → get_elem? (set xs i v) j ≡ some x
      → (x ≡ v) ⊎ (get_elem? xs j ≡ some x)
  get_elem?-set_cases [] i j v x e = inr e
  get_elem?-set_cases (y ∷ xs) zero zero v x e = inl cc
  get_elem?-set_cases (y ∷ xs) zero (suc j) v x e = inr e
  get_elem?-set_cases (y ∷ xs) (suc i) zero v x e = inr e
  get_elem?-set_cases (y ∷ xs) (suc i) (suc j) v x e = get_elem?-set_cases xs i j v x e

  -- A property of what stands at an index, after a write of something that has it too.
  pub get_elem?-set-some {κ} :
      (P : A → Type κ) (xs : List A) (i j : ℕ) (v : A)
      → (x : A) × (get_elem? xs j ≡ some x) × P x
      → (get_elem? xs i ≡ get_elem? xs j → P v)
      → (x : A) × (get_elem? (set xs i v) j ≡ some x) × P x
  get_elem?-set-some P [] i j v h p = h
  get_elem?-set-some P (y ∷ xs) zero zero v h p = (v, refl, p refl)
  get_elem?-set-some P (y ∷ xs) zero (suc j) v h p = h
  get_elem?-set-some P (y ∷ xs) (suc i) zero v h p = h
  get_elem?-set-some P (y ∷ xs) (suc i) (suc j) v h p = get_elem?-set-some P xs i j v h p

  pub get_elem?-append :
      (xs ys : List A) (i : ℕ) (x : A) → get_elem? xs i ≡ some x → get_elem? (xs ++ ys) i ≡ some x
  get_elem?-append [] ys i x e = cc
  get_elem?-append (y ∷ xs) ys zero x e = e
  get_elem?-append (y ∷ xs) ys (suc i) x e = get_elem?-append xs ys i x e

  pub get_elem?-append_last : (xs : List A) (y : A) → get_elem? (xs ++ y ∷ []) (length xs) ≡ some y
  get_elem?-append_last [] y = refl
  get_elem?-append_last (x ∷ xs) y = get_elem?-append_last xs y

  pub get_elem?-append_cases :
      (xs : List A) (y : A) (i : ℕ) (x : A)
      → get_elem? (xs ++ y ∷ []) i ≡ some x
      → (get_elem? xs i ≡ some x) ⊎ (x ≡ y)
  get_elem?-append_cases [] y zero x e = inr cc
  get_elem?-append_cases [] y (suc i) x e = cc
  get_elem?-append_cases (z ∷ xs) y zero x e = inl e
  get_elem?-append_cases (z ∷ xs) y (suc i) x e = get_elem?-append_cases xs y i x e

  pub get_elem?-set_hit :
      (xs : List A) (i : ℕ) (v x : A) → get_elem? xs i ≡ some x → get_elem? (set xs i v) i ≡ some v
  get_elem?-set_hit [] i v x e = cc
  get_elem?-set_hit (y ∷ xs) zero v x e = refl
  get_elem?-set_hit (y ∷ xs) (suc i) v x e = get_elem?-set_hit xs i v x e

  -- The same by the index: the write, or what stood elsewhere.
  pub get_elem?-set_view :
      (xs : List A) (i j : ℕ) (v x y : A)
      → get_elem? xs i ≡ some x
      → get_elem? (set xs i v) j ≡ some y
      → ((i ≡ j) × (y ≡ v)) ⊎ ((i ≢ j) × (get_elem? xs j ≡ some y))
  get_elem?-set_view [] i j v x y e f = cc
  get_elem?-set_view (z ∷ xs) zero zero v x y e f = inl (refl, cc)
  get_elem?-set_view (z ∷ xs) zero (suc j) v x y e f = inr (omega arith, f)
  get_elem?-set_view (z ∷ xs) (suc i) zero v x y e f = inr (omega arith, f)
  get_elem?-set_view (z ∷ xs) (suc i) (suc j) v x y e f =
      elim (get_elem?-set_view xs i j v x y e f) [
        | inl (p, q) ↦ inl (ap suc p, q)
        | inr (p, q) ↦ inr (omega (arith, p), q)
      ]

  pub List-cases : (xs : List A) → (xs ≡ []) ⊎ ((y : A) × (ys : List A) × (xs ≡ y ∷ ys))
  List-cases [] = inl refl
  List-cases (x ∷ xs) = inr (x, xs, refl)

  -- The last of two writes counts, and a write of what is there changes nothing.
  pub set_twice : (xs : List A) (i : ℕ) (u v : A) → set (set xs i u) i v ≡ set xs i v
  set_twice [] i u v = refl
  set_twice (x ∷ xs) zero u v = refl
  set_twice (x ∷ xs) (suc i) u v = ap (◌∷◌ x) (set_twice xs i u v)

  pub set_same : (xs : List A) (i : ℕ) (x : A) → get_elem? xs i ≡ some x → set xs i x ≡ xs
  set_same [] i x e = refl
  set_same (y ∷ xs) zero x e = ap (λ z. z ∷ xs) (sym (some-injective _ _ e))
  set_same (y ∷ xs) (suc i) x e = ap (◌∷◌ y) (set_same xs i x e)

  pub set-append_last : (xs : List A) (u v : A) → set (xs ++ u ∷ []) (length xs) v ≡ xs ++ v ∷ []
  set-append_last [] u v = refl
  set-append_last (x ∷ xs) u v = ap (◌∷◌ x) (set-append_last xs u v)
