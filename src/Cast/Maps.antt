-- ===== src/Cast/Maps.antt =====
-- Maps, and what a set or a map holds whatever it is read from.
use mathlib.Core.List.{foldl}
use final_designer.Cast.{
  Cast, Printed, ◌>>=◌, pure, lift, say, set_insert, read_items, read_sequence, read_pairs,
  read_map, write_pairs, write_map,
}
use final_designer.Cast.Containers.{key_lt, from_set, to_map, from_map}
use final_designer.Cast.Sets.{IsOrder, is_sorted, set_insert-is_sorted, foldl-set_insert}
use final_designer.Config.Var.{returns, throws}
use final_designer.Prelude.{
  ℕ, zero, suc, ◌+◌, ◌≡◌, refl, sym, ap, ap₂, subst, Bool, true, List, [], ◌∷◌, Text, map,
  is_distinct, all, not, &&-eq-true, text_eq, text_eq-eq-false, ◌≢◌,
}
use final_designer.Prelude.Order.{text_lt, text_lt_irrefl, text_lt_trans, text_lt_asymm}
use final_designer.Yaml.{Api, IsKeyed, put_all}

-- A chain of two conversions returns if both do.
pub >>=-eq-returns :
    {A B : Type 0} (m : Printed A) (f : A → Printed B) {o : Text} {b : B}
    → (m >>= f) ≡ (o, returns b)
    → (a : A) × (o1 : Text) × (o2 : Text) × (m ≡ (o1, returns a)) × (f a ≡ (o2, returns b))
>>=-eq-returns (o1, returns a) f h =
    (a, o1, (f a).0, refl, ap₂ (λ (x : Text) y. (x, y)) refl (ap (λ p. p.1) h))
>>=-eq-returns (o1, throws e) f h = cc (ap (λ p. p.1) h)

value-eq : {A : Type 0} {x y : A} → returns x ≡ returns y → x ≡ y
value-eq h = cc

pub key_lt-IsOrder : {A : Type 0} → IsOrder {A = Text × A} key_lt
key_lt-IsOrder = record {
  trans = λ x y z. text_lt_trans x.0 y.0 z.0;
  asymm = λ x y. text_lt_asymm x.0 y.0;
}

module _ (api : Api) {A : Type 0} (lt : A → A → Bool) (order : IsOrder lt)
    (from : Cast Text A) where
  read_items-is_sorted :
      (before : Text → Printed (Unit {0})) (node : api.Node) (left i : ℕ) (acc : List A) {o : Text}
      {xs : List A}
      → is_sorted lt acc ≡ true
      → read_items api from before (set_insert lt) node i left acc ≡ (o, returns xs)
      → is_sorted lt xs ≡ true
  unfolding read_items
  read_items-is_sorted before node zero i acc s h =
      subst (λ ys. is_sorted lt ys ≡ true) (value-eq (ap (λ p. p.1) h)) s
  read_items-is_sorted before node (suc left) i acc s h =
      let (u, o1, o2, p, q) = >>=-eq-returns (before (api.dump (api.at node i))) _ h in
      let (a, o3, o4, p', q') = >>=-eq-returns (from (api.dump (api.at node i))) _ q in
      read_items-is_sorted before node left (i + 1) (set_insert lt acc a)
        (set_insert-is_sorted lt order acc a s) q'

  -- Whatever text a set is read from, its elements are in order, and so none is there twice.
  pub from_set-is_sorted :
      (v o : Text) (xs : List A) → from_set api lt from v ≡ (o, returns xs) → is_sorted lt xs ≡ true
  unfolding from_set read_sequence
  from_set-is_sorted v o xs h =
      let (node, o1, o2, p, q) =
        >>=-eq-returns (lift (api.load v))
          (λ n. read_items api from say (set_insert lt) n 0 (api.size n) []) h in
      read_items-is_sorted say node (api.size node) 0 [] refl q

text_lt-ne : (a b : Text) → text_lt a b ≡ true → a ≢ b
text_lt-ne a b h e = cc (rw e at h, text_lt_irrefl b)

module _ (api : Api) (laws : IsKeyed api) {A : Type 0} (to : Cast A Text) (from : Cast Text A)
    (text : A → Text) (node_of : A → api.Node)
    (prints : (x : A) → (to x ≡ pure (text x)) × (api.load (text x) ≡ returns (node_of x)))
    (reads : (x : A) → from (api.dump (node_of x)) ≡ pure x) where
  open api use {Node, load, dump, pairs, scalar, null}

  abbrev pub entry : Text × A → Text × Node
  entry x = (x.0, node_of x.1)

  -- The node that is written for a map.
  abbrev pub written_map : List (Text × A) → Node
  written_map xs = put_all api null (map entry xs)

  write_pairs-put_all :
      (xs : List (Text × A)) (node : Node)
      → write_pairs api to xs node ≡ pure (put_all api node (map entry xs))
  unfolding write_pairs
  write_pairs-put_all [] node = refl
  write_pairs-put_all ((k, x) ∷ xs) node =
      rw ((prints x).0, (prints x).1, write_pairs-put_all xs) refl

  read_pairs-foldl :
      (xs : List (Text × A)) (ps : List (Node × Node)) (acc : List (Text × A))
      → map (λ p. (scalar p.0, p.1)) ps ≡ map entry xs
      → read_pairs api from (set_insert key_lt) ps acc ≡ pure (foldl (set_insert key_lt) acc xs)
  unfolding read_pairs
  read_pairs-foldl [] [] acc h = refl
  read_pairs-foldl [] (p ∷ ps) acc h = cc
  read_pairs-foldl (x ∷ xs) [] acc h = cc
  read_pairs-foldl ((k, x) ∷ xs) ((n, m) ∷ ps) acc h =
      let head : ◌≡◌ {A = Text × Node} (scalar n, m) (k, node_of x) = cc in
      let rest : map (λ p. (scalar p.0, p.1)) ps ≡ map entry xs = cc in
      let key : scalar n ≡ k = ap (λ p. p.0) head in
      let value : m ≡ node_of x = ap (λ p. p.1) head in
      rw (value, reads x, key, read_pairs-foldl xs ps (set_insert key_lt acc (k, x)) rest) refl

  entry-is_distinct :
      (xs : List (Text × A))
      → is_sorted key_lt xs ≡ true
      → is_distinct (λ x y. text_eq x.0 y.0) (map entry xs) ≡ true
  entry-is_distinct [] h = refl
  entry-is_distinct (x ∷ xs) h =
      let (above, sorted) = &&-eq-true (all (key_lt x) xs) _ h in
      rw (others xs above) (entry-is_distinct xs sorted)
    where
      others :
          (ys : List (Text × A))
          → all (key_lt x) ys ≡ true
          → all (λ y. not (text_eq y.0 x.0)) (map entry ys) ≡ true
      others [] k = refl
      others (y ∷ ys) k =
          let (first, rest) = &&-eq-true (key_lt x y) _ k in
          rw (text_eq-eq-false y.0 x.0 (λ e. text_lt-ne x.0 y.0 first (sym e))) (others ys rest)

  -- A map that is written and read back, whose keys are in order, is as it was, if its texts load,
  -- what they load as converts back, and the library keeps the pairs of a map in the order of the
  -- writes and reads the document that it wrote.
  pub from_map-to_map :
      (xs : List (Text × A))
      → is_sorted key_lt xs ≡ true
      → load (dump (written_map xs)) ≡ returns (written_map xs)
      → (to_map api to xs >>= from_map api from) ≡ pure xs
  unfolding to_map from_map write_map read_map
  from_map-to_map xs sorted h =
      let read =
        read_pairs-foldl xs (pairs (written_map xs)) []
          (laws.pairs_of (map entry xs) (entry-is_distinct xs sorted)) in
      rw (write_pairs-put_all xs null, h, read)
        (ap (λ (ys : List (Text × A)). ([], returns ys))
          (foldl-set_insert key_lt key_lt-IsOrder [] xs sorted))
