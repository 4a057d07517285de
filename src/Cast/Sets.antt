-- ===== src/Cast/Sets.antt =====
-- `std::set` and the tables as lists: what `insert` keeps.
use mathlib.Core.List.{foldl}
use final_designer.Cast.{set_insert, table_insert}
use final_designer.Prelude.{
  ◌≡◌, refl, sym, ap, ◌∙◌, Bool, true, false, List, [], ◌∷◌, ◌++◌, any, all, not, is_distinct,
  arith, &&-eq-true, append-nil, append_assoc, ◌&&◌,
}

-- What `operator<` has to be for a `std::set`.
pub record IsOrder {A : Type 0} (lt : A → A → Bool) : Type 0 where
  pub trans : (x y z : A) → lt x y ≡ true → lt y z ≡ true → lt x z ≡ true
  pub asymm : (x y : A) → lt x y ≡ true → lt y x ≡ false

-- Every element is less than all behind it.
abbrev pub is_sorted : {A : Type 0} → (A → A → Bool) → List A → Bool
is_sorted lt [] = true
is_sorted lt (x ∷ xs) = all (lt x) xs && is_sorted lt xs

pub all-set_insert :
    {A : Type 0} (p : A → Bool) (lt : A → A → Bool) (xs : List A) (x : A)
    → all p xs ≡ true
    → p x ≡ true
    → all p (set_insert lt xs x) ≡ true
unfolding set_insert
all-set_insert p lt [] x h k = ground arith
all-set_insert p lt (y ∷ ys) x h k = ground (arith, all-set_insert p lt ys x)

module _ {A : Type 0} (lt : A → A → Bool) (order : IsOrder lt) where
  all_trans : (x y : A) (ys : List A) → lt x y ≡ true → all (lt y) ys ≡ true → all (lt x) ys ≡ true
  all_trans x y [] h k = refl
  all_trans x y (z ∷ ys) h k =
      let (first, rest) = &&-eq-true (lt y z) _ k in
      rw (order.trans x y z h first) (all_trans x y ys h rest)

  pub set_insert-is_sorted :
      (xs : List A) (x : A) → is_sorted lt xs ≡ true → is_sorted lt (set_insert lt xs x) ≡ true
  unfolding set_insert
  set_insert-is_sorted [] x h = refl
  set_insert-is_sorted (y ∷ ys) x h =
      let (above, sorted) = &&-eq-true (all (lt y) ys) _ h in
      ground (
        arith,
        above,
        sorted,
        all_trans x y ys,
        all-set_insert (lt y) lt ys x,
        set_insert-is_sorted ys x,
      )

  -- An element above all of a set goes to its end.
  set_insert_last :
      (xs : List A) (x : A) → all (λ y. lt y x) xs ≡ true → set_insert lt xs x ≡ xs ++ x ∷ []
  unfolding set_insert
  set_insert_last [] x h = refl
  set_insert_last (y ∷ ys) x h =
      let (first, rest) = &&-eq-true (lt y x) _ h in
      rw (order.asymm y x first, first) (ap (◌∷◌ y) (set_insert_last ys x rest))

  all_below :
      (xs ys : List A) (x : A) → is_sorted lt (xs ++ x ∷ ys) ≡ true → all (λ y. lt y x) xs ≡ true
  all_below [] ys x h = refl
  all_below (y ∷ xs) ys x h =
      let (above, sorted) = &&-eq-true (all (lt y) (xs ++ x ∷ ys)) _ h in
      rw (at_middle xs above) (all_below xs ys x sorted)
    where
      at_middle : (zs : List A) → all (lt y) (zs ++ x ∷ ys) ≡ true → lt y x ≡ true
      at_middle [] k = (&&-eq-true (lt y x) _ k).0
      at_middle (z ∷ zs) k = at_middle zs (&&-eq-true (lt y z) _ k).1

  pub foldl-set_insert :
      (acc xs : List A) → is_sorted lt (acc ++ xs) ≡ true → foldl (set_insert lt) acc xs ≡ acc ++ xs
  foldl-set_insert acc [] h = sym (append-nil acc)
  foldl-set_insert acc (x ∷ xs) h = rw (set_insert_last acc x (all_below acc xs x h)) (
      foldl-set_insert (acc ++ x ∷ []) xs (rw (append_assoc acc (x ∷ []) xs) h)
      ∙ append_assoc acc (x ∷ []) xs)

module _ {A : Type 0} (eq : A → A → Bool) where
  pub any_none :
      (xs ys : List A) (x : A) → is_distinct eq (xs ++ x ∷ ys) ≡ true → any (eq x) xs ≡ false
  any_none [] ys x h = refl
  any_none (y ∷ xs) ys x h =
      let (other, distinct) = &&-eq-true (all (λ z. not (eq z y)) (xs ++ x ∷ ys)) _ h in
      rw (at_middle xs other) (any_none xs ys x distinct)
    where
      at_middle : (zs : List A) → all (λ z. not (eq z y)) (zs ++ x ∷ ys) ≡ true → eq x y ≡ false
      at_middle [] k = let (a, b) = &&-eq-true (not (eq x y)) _ k in ground (arith, a)
      at_middle (z ∷ zs) k = at_middle zs (&&-eq-true (not (eq z y)) _ k).1

  pub foldl-table_insert :
      (acc xs : List A)
      → is_distinct eq (acc ++ xs) ≡ true
      → foldl (table_insert eq) acc xs ≡ acc ++ xs
  unfolding table_insert
  foldl-table_insert acc [] h = sym (append-nil acc)
  foldl-table_insert acc (x ∷ xs) h = rw (any_none acc xs x h) (
      foldl-table_insert (acc ++ x ∷ []) xs (rw (append_assoc acc (x ∷ []) xs) h)
      ∙ append_assoc acc (x ∷ []) xs)
