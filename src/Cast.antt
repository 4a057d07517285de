-- ===== src/Cast.antt =====
-- `LexicalCast` of nnysl/config.h: the conversions between texts and containers.
pub mod Containers
pub mod Sets
pub mod Loops
pub mod RoundTrip
pub mod Maps
use final_designer.Config.Var.{Outcome, returns, throws}
use final_designer.Prelude.{
  ◌≡◌, ap, ℕ, zero, suc, ◌+◌, Bool, List, [], ◌∷◌, ◌++◌, Text, any, if◌then◌else◌, Option, none,
  some, not, ◌&&◌,
}
use final_designer.Yaml.{Api}

-- What a conversion writes to `std::cout`, and its result or exception.
abbrev pub Printed {ℓ} : Type ℓ → Type ℓ
Printed A = Text × Outcome A

infixl 5 ◌>>=◌ ◌>>◌
abbrev pub ◌>>=◌ {ℓ κ} : {A : Type ℓ} {B : Type κ} → Printed A → (A → Printed B) → Printed B
(out, returns a) >>= f = let (more, r) = f a in (out ++ more, r)
(out, throws e) >>= f = (out, throws e)

abbrev pub ◌>>◌ {ℓ} : {B : Type ℓ} → Printed (Unit {0}) → Printed B → Printed B
m >> k = m >>= λ _. k

abbrev pub pure {ℓ} : {A : Type ℓ} → A → Printed A
pure a = ([], returns a)

abbrev pub lift {ℓ} : {A : Type ℓ} → Outcome A → Printed A
lift r = ([], r)

-- What comes behind a conversion that prints nothing.
pub >>=-pure {ℓ κ} :
    {A : Type ℓ} {B : Type κ} (m : Printed A) (f : A → Printed B) (a : A)
    → m ≡ pure a
    → (m >>= f) ≡ f a
>>=-pure m f a h = ap (λ n. n >>= f) h

pub >>=-says {ℓ κ} :
    {A : Type ℓ} {B : Type κ} (m : Printed A) (f : A → Printed B) (o : Text) (a : A)
    → m ≡ (o, returns a)
    → (m >>= f) ≡ (o ++ (f a).0, (f a).1)
>>=-says m f o a h = ap (λ n. n >>= f) h

-- `std::cout << text`
abbrev pub say : Text → Printed (Unit {0})
say text = (text, returns tt)

abbrev pub quiet : Text → Printed (Unit {0})
quiet text = pure tt

-- `LexicalCast<F, T>::operator()`
abbrev pub Cast : Type 0 → Type 0 → Type 0
Cast F T = F → Printed T

-- `insert` of a `std::set` and of a `std::map`, whose order is `lt`: what compares equal stays.
unfoldable pub set_insert : {A : Type 0} → (A → A → Bool) → List A → A → List A
set_insert lt [] x = x ∷ []
set_insert lt (y ∷ ys) x =
    if lt x y then x ∷ y ∷ ys else if lt y x then y ∷ set_insert lt ys x else y ∷ ys

-- `insert` of an `unordered_set` and of an `unordered_map`; the list stands for the table's order.
unfoldable pub table_insert : {A : Type 0} → (A → A → Bool) → List A → A → List A
table_insert eq xs x = if any (eq x) xs then xs else xs ++ x ∷ []

-- `find` of a `std::set`.
unfoldable pub set_find : {A : Type 0} → (A → A → Bool) → List A → A → Option A
set_find lt [] x = none
set_find lt (y ∷ ys) x = if not (lt x y) && not (lt y x) then some y else set_find lt ys x

abbrev pub push_back : {A : Type 0} → List A → A → List A
push_back xs x = xs ++ x ∷ []

module _ (api : Api) where
  open api use {Node, load, dump, size, at, pairs, scalar, null, of_text, put, push}

  -- The loop over a sequence: `before` is what it does with the text of an item first, `add` the
  -- container's `push_back` or `insert`.
  unfoldable pub read_items :
      {A C : Type 0}
      → Cast Text A
      → (Text → Printed (Unit {0}))
      → (C → A → C)
      → Node
      → ℕ
      → ℕ
      → C
      → Printed C
  read_items cast before add node i zero acc = pure acc
  read_items cast before add node i (suc left) acc = do
    before (dump (at node i))
    a ← cast (dump (at node i))
    read_items cast before add node (i + 1) left (add acc a)

  unfoldable pub read_sequence :
      {A C : Type 0} → Cast Text A → (Text → Printed (Unit {0})) → (C → A → C) → C → Cast Text C
  unfolding read_items
  read_sequence cast before add empty v = do
    node ← lift (load v)
    read_items cast before add node 0 (size node) empty

  -- The loop over the pairs of a map.
  unfoldable pub read_pairs :
      {A C : Type 0} → Cast Text A → (C → Text × A → C) → List (Node × Node) → C → Printed C
  read_pairs cast add [] acc = pure acc
  read_pairs cast add ((key, value) ∷ rest) acc = do
    a ← cast (dump value)
    read_pairs cast add rest (add acc (scalar key, a))

  unfoldable pub read_map : {A C : Type 0} → Cast Text A → (C → Text × A → C) → C → Cast Text C
  unfolding read_pairs
  read_map cast add empty v = do node ← lift (load v); read_pairs cast add (pairs node) empty

  -- The loops that write an item after another.
  unfoldable pub write_items : {A : Type 0} → Cast A Text → List A → Node → Printed Node
  write_items cast [] node = pure node
  write_items cast (x ∷ xs) node = do text ← cast x; write_items cast xs (push node (of_text text))

  unfoldable pub write_sequence : {A : Type 0} → Cast A Text → Cast (List A) Text
  unfolding write_items
  write_sequence cast xs = do node ← write_items cast xs null; pure (dump node)

  unfoldable pub write_pairs : {A : Type 0} → Cast A Text → List (Text × A) → Node → Printed Node
  write_pairs cast [] node = pure node
  write_pairs cast ((key, x) ∷ xs) node = do
    text ← cast x
    value ← lift (load text)
    write_pairs cast xs (put node key value)

  unfoldable pub write_map : {A : Type 0} → Cast A Text → Cast (List (Text × A)) Text
  unfolding write_pairs
  write_map cast xs = do node ← write_pairs cast xs null; pure (dump node)
