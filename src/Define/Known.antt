-- ===== src/Define/Known.antt =====
-- What every set of definitions is like that has been read from a text.
use final_designer.Cast.{Printed, ◌>>=◌, lift, say, set_insert, read_items, read_sequence}
use final_designer.Cast.Containers.{from_set}
use final_designer.Cast.Maps.{>>=-eq-returns, from_set-is_sorted}
use final_designer.Cast.Sets.{IsOrder, is_sorted, all-set_insert}
use final_designer.Config.Var.{returns}
use final_designer.Define.{AppenderDefine, LogDefine, define_lt}
use final_designer.Define.Read.{
  name_said, optional_text, push_some, read_appender, read_appenders, read_console, read_define,
  read_file, read_found, read_typed, skip, null_file, null_type, file_name_of_type,
  console_name_of_type,
}
use final_designer.Define.SetUp.{is_known}
use final_designer.Prelude.{
  Bool, ℕ, zero, suc, ◌+◌, ◌≡◌, refl, ap, true, List, [], ◌∷◌, ◌++◌, Text, codes, Option, none,
  some, all, arith, text_eq, inl, inr, Bool-cases, subst,
}
use final_designer.Level.{unknow}
use final_designer.Prelude.Order.{text_lt_trans, text_lt_asymm}
use final_designer.Yaml.{Api}

pub define_lt-IsOrder : IsOrder define_lt
define_lt-IsOrder = record {
  trans = λ x y z. text_lt_trans x.name y.name z.name;
  asymm = λ x y. text_lt_asymm x.name y.name;
}

-- Whatever a conversion returns has a property.
abbrev Yields : {A : Type 0} → (A → Type 0) → Printed A → Type 0
Yields {A} P m = (o : Text) (a : A) → m ≡ (o, returns a) → P a

Yields-returns : {A : Type 0} (P : A → Type 0) (o : Text) (a : A) → P a → Yields P (o, returns a)
Yields-returns P o a p o' b h = let same : a ≡ b = cc (ap (λ q. q.1) h) in subst P same p

Yields-bind :
    {A B : Type 0} (P : B → Type 0) (m : Printed A) (f : A → Printed B)
    → ((a : A) → Yields P (f a))
    → Yields P (m >>= f)
Yields-bind P m f h o b e = let (a, o1, o2, p, q) = >>=-eq-returns m f e in h a o2 b q

Yields-elim :
    {A B : Type 0} (P : B → Type 0) (o : Option A) (m : Printed B) (f : A → Printed B)
    → Yields P m
    → ((a : A) → Yields P (f a))
    → Yields P (elim o [ none ↦ m | some a ↦ f a ])
Yields-elim P none m f h k = h
Yields-elim P (some a) m f h k = k a

abbrev IsKnown : Option AppenderDefine → Type 0
IsKnown none = Unit
IsKnown (some d) = is_known d ≡ true

abbrev AreKnown : List AppenderDefine → Type 0
AreKnown ds = all is_known ds ≡ true

all-append :
    {A : Type 0} (p : A → Bool) (xs : List A) (x : A)
    → all p xs ≡ true
    → p x ≡ true
    → all p (xs ++ x ∷ []) ≡ true
all-append p [] x h k = ground (arith, k)
all-append p (y ∷ xs) x h k = ground (arith, h, all-append p xs x)

module _ (api : Api) where
  open api use {Node, load, dump, size, at, child, as_string}

  read_file-IsKnown : (n : Node) → Yields IsKnown (read_file api n)
  unfolding read_file
  read_file-IsKnown n = Yields-bind IsKnown (lift (child n (codes "file"))) _ λ found.
      Yields-elim IsKnown found (skip null_file) _ (Yields-returns IsKnown null_file none tt) λ m.
        Yields-bind IsKnown (lift (as_string (some m))) _ λ file.
          Yields-bind IsKnown (optional_text api n (codes "formatter")) _ λ formatter.
            Yields-returns IsKnown []
              (some (record { type = 1; level = unknow; formatter = formatter; file = file })) refl

  read_console-IsKnown : (n : Node) → Yields IsKnown (read_console api n)
  unfolding read_console
  read_console-IsKnown n =
      Yields-bind IsKnown (optional_text api n (codes "formatter")) _ λ formatter.
        Yields-returns IsKnown []
          (some (record { type = 2; level = unknow; formatter = formatter; file = [] })) refl

  read_typed-IsKnown : (n : Node) (t : Text) → Yields IsKnown (read_typed api n t)
  unfolding read_typed
  read_typed-IsKnown n t = elim (Bool-cases (text_eq t file_name_of_type)) [
    | inl e ↦ rw e (read_file-IsKnown n)
    | inr e ↦ elim (Bool-cases (text_eq t console_name_of_type)) [
      | inl q ↦ rw (e, q) (read_console-IsKnown n)
      | inr q ↦ rw (e, q) (Yields-returns IsKnown _ none tt)
    ]
  ]

  read_appender-IsKnown : (n : Node) → Yields IsKnown (read_appender api n)
  unfolding read_appender
  read_appender-IsKnown n = Yields-bind IsKnown (lift (child n (codes "type"))) _ λ found.
      Yields-elim IsKnown found (skip (null_type api n)) _
        (Yields-returns IsKnown (null_type api n) none tt)
        λ m. Yields-bind IsKnown (lift (as_string (some m))) _ λ t. read_typed-IsKnown n t

  push_some-AreKnown :
      (acc : List AppenderDefine) (d : Option AppenderDefine)
      → AreKnown acc
      → IsKnown d
      → AreKnown (push_some acc d)
  push_some-AreKnown acc none h k = h
  push_some-AreKnown acc (some d) h k = all-append is_known acc d h k

  read_appenders-AreKnown :
      (n : Node) (left i : ℕ) (acc : List AppenderDefine)
      → AreKnown acc
      → Yields AreKnown (read_appenders api n i left acc)
  unfolding read_appenders
  read_appenders-AreKnown n zero i acc h o ds e = Yields-returns AreKnown [] acc h o ds e
  read_appenders-AreKnown n (suc left) i acc h o ds e =
      let (d, o1, o2, p, q) = >>=-eq-returns (read_appender api (at n i)) _ e in
      read_appenders-AreKnown n left (i + 1) (push_some acc d)
        (push_some-AreKnown acc d h (read_appender-IsKnown (at n i) o1 d p)) o2 ds q

  read_found-AreKnown : (found : Option Node) → Yields AreKnown (read_found api found)
  unfolding read_found
  read_found-AreKnown none = Yields-returns AreKnown _ [] refl
  read_found-AreKnown (some n) = read_appenders-AreKnown n (size n) 0 [] refl

  read_define-AreKnown : (v : Text) → Yields (λ d. AreKnown d.appenders) (read_define api v)
  unfolding read_define
  read_define-AreKnown v =
      let P : LogDefine → Type 0 = λ d. AreKnown d.appenders in
      Yields-bind P (lift (load v)) _ λ node.
        Yields-bind P (lift (child node (codes "name"))) _ λ named.
          Yields-bind P (name_said api node named) _ λ said.
            Yields-bind P (lift (as_string named)) _ λ name.
              Yields-bind P (optional_text api node (codes "level")) _ λ level.
                Yields-bind P (optional_text api node (codes "formatter")) _ λ formatter.
                  Yields-bind P (lift (child node (codes "appenders"))) _ λ found o d e.
                    let (ds, o1, o2, p, q) = >>=-eq-returns (read_found api found) _ e in
                    subst P (value_of q) (read_found-AreKnown found o1 ds p)
    where
      value_of :
          {d e : LogDefine} {o o' : Text}
          → ◌≡◌ {A = Printed LogDefine} (o, returns d) (o', returns e)
          → d ≡ e
      value_of q = cc (ap (λ p. p.1) q)

  abbrev AllKnown : List LogDefine → Type 0
  AllKnown ds = all (λ d. all is_known d.appenders) ds ≡ true

  read_items-AllKnown :
      (node : Node) (left i : ℕ) (acc : List LogDefine)
      → AllKnown acc
      → Yields AllKnown
          (read_items api (read_define api) say (set_insert define_lt) node i left acc)
  unfolding read_items
  read_items-AllKnown node zero i acc k o ds e = Yields-returns AllKnown [] acc k o ds e
  read_items-AllKnown node (suc left) i acc k o ds e =
      let next : LogDefine → Printed (List LogDefine) = λ d.
        read_items api (read_define api) say (set_insert define_lt) node (i + 1) left
          (set_insert define_lt acc d) in
      let text : Text = dump (at node i) in
      let (said, o1, o2, p, q) = >>=-eq-returns (say text) (λ u. read_define api text >>= next) e in
      let (d, o3, o4, p', q') = >>=-eq-returns (read_define api text) next q in
      read_items-AllKnown node left (i + 1) (set_insert define_lt acc d)
        (all-set_insert (λ d. all is_known d.appenders) define_lt acc d k
          (read_define-AreKnown text o3 d p'))
        o4 ds q'

  -- A set of definitions that is read from a text, whatever the text, is in order, with one
  -- definition for a name, and each appender is of one of the two classes: what the listener needs.
  pub from_set-read_define :
      (v o : Text) (new : List LogDefine)
      → from_set api define_lt (read_define api) v ≡ (o, returns new)
      → (is_sorted define_lt new ≡ true) × (all (λ d. all is_known d.appenders) new ≡ true)
  unfolding from_set read_sequence
  from_set-read_define v o new h = (
    from_set-is_sorted api define_lt define_lt-IsOrder (read_define api) v o new h,
    Yields-bind AllKnown (lift (load v))
        (λ node. read_items api (read_define api) say (set_insert define_lt) node 0 (size node) [])
        (λ node. read_items-AllKnown node (size node) 0 [] refl) o new h,
  )
