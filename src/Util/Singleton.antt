-- ===== src/Util/Singleton.antt =====
-- nnysl/singleton.h: `Singleton::GetInstance` and `SingletonPtr::GetInstance`, whose static variable
-- is made by the first call. An object is given by its address; the store of the objects made is
-- `made`.
use final_designer.Prelude.{
  ℕ, ◌+◌, ◌≡◌, refl, ap, List, [], ◌∷◌, Option, none, some, length, zero, suc,
}

-- The static variable of one instance of the template, and how many objects it has made.
pub record Static : Type 0 where
  pub v : Option ℕ
  pub made : ℕ

abbrev pub unused : Static
unused = record { v = none; made = 0 }

-- The address that `new T` or the static variable gets is `fresh`.
unfoldable pub get_instance : ℕ → Static → Static × ℕ
get_instance fresh s = elim s.v [
  | some i ↦ (s, i)
  | none ↦ (record { v = some fresh; made = s.made + 1 }, fresh)
]

-- Calls one after another, each with the address that a new object would get.
unfoldable pub get_instances : List ℕ → Static → Static × List ℕ
unfolding get_instance
get_instances [] s = (s, [])
get_instances (fresh ∷ more) s =
    let (s1, i) = get_instance fresh s in let (s2, is) = get_instances more s1 in (s2, i ∷ is)

-- The same address as often as there are calls.
abbrev pub repeat : ℕ → ℕ → List ℕ
repeat i zero = []
repeat i (suc n) = i ∷ repeat i n

get_instances-some :
    (calls : List ℕ) (i m : ℕ)
    → get_instances calls (record { v = some i; made = m })
      ≡ (record { v = some i; made = m }, repeat i (length calls))
unfolding get_instances
get_instances-some [] i m = refl
get_instances-some (c ∷ calls) i m =
    ap (λ (p : Static × List ℕ). (p.0, i ∷ p.1)) (get_instances-some calls i m)

-- All calls give the object that the first one makes, and no other is made.
pub get_instances-unused :
    (first : ℕ) (calls : List ℕ)
    → get_instances (first ∷ calls) unused
      ≡ (record { v = some first; made = 1 }, repeat first (length (first ∷ calls)))
unfolding get_instances
get_instances-unused first calls =
    ap (λ (p : Static × List ℕ). (p.0, first ∷ p.1)) (get_instances-some calls first 1)
