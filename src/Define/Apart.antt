-- ===== src/Define/Apart.antt =====
-- Stores in which no appender belongs to two loggers, and what happens to one logger of such a store.
use final_designer.Define.Frame.{Frame, holds}
use final_designer.Define.Views.{View, view, view_at, view_of}
use final_designer.Logging.Invariant.{AreReady, IsLogger, IsValid}
use final_designer.Logging.Managing.{IsNamed}
use final_designer.Logging.Manager.{find_logger}
use final_designer.Logging.World.{Appender, Logger, World}
use final_designer.Prelude.{
  ℕ, zero, suc, ◌≡◌, ◌≢◌, ◌<◌, refl, ◌∙◌, sym, ap, ap₂, true, false, List, [], ◌∷◌, Text, Option,
  none, some, all, map, length, get_elem?, arith, if◌then◌else◌, leb, text_eq, text_eq_iff,
  text_eq_refl, subst, Bool-cases, Option-cases, inl, inr, ◌==◌, ==-refl, ==_iff, ◌⊎◌,
  some-injective,
}

-- No appender is on the lists of two loggers.
abbrev pub IsApart : World → Type 0
IsApart w =
    (i k : ℕ) (l m : Logger)
    → IsLogger w i l
    → IsLogger w k m
    → i ≢ k
    → (j : ℕ) → holds l.appenders j ≡ true
    → holds m.appenders j ≡ false

-- A valid store whose manager has each name lead to a logger of that name, with no shared appender.
pub record IsSound (w : World) : Type 0 where
  pub valid : IsValid w
  pub named : IsNamed w
  pub apart : IsApart w

get_elem?-lt : {A : Type 0} (xs : List A) (i : ℕ) (x : A) → get_elem? xs i ≡ some x → i < length xs
get_elem?-lt [] i x h = cc
get_elem?-lt (y ∷ xs) zero x h = omega arith
get_elem?-lt (y ∷ xs) (suc i) x h = omega (arith, get_elem?-lt xs i x h)

-- The appenders of a logger are there.
AreReady-holds :
    (w : World) (js : List ℕ) (j : ℕ) → AreReady w js → holds js j ≡ true → j < length w.appenders
AreReady-holds w [] j r h = cc
AreReady-holds w (k ∷ js) j (r, rs) h = elim (Bool-cases (k == j)) [
  | inl e ↦
      let (a, f, q, p) = r in
      subst (λ (x : ℕ). x < length w.appenders) ((==_iff k j).0 e) (get_elem?-lt w.appenders k a q)
  | inr e ↦ AreReady-holds w js j rs (ground (arith, e, h))
]

-- What is new is on no list of what was there.
all-leb-holds : (n j : ℕ) (js : List ℕ) → all (leb n) js ≡ true → j < n → holds js j ≡ false
all-leb-holds n j [] h k = refl
all-leb-holds n j (x ∷ js) h k = ground (arith, h, k, all-leb-holds n j js)

pub view_at-some :
    (w : World) (k : ℕ) (m : Logger) → IsLogger w k m → view_at w k ≡ some (view_of w m)
view_at-some w k m h = rw (h, view_at) refl

view_at-none : (w : World) (k : ℕ) → get_elem? w.loggers k ≡ none → view_at w k ≡ none
view_at-none w k h = rw (h, view_at) refl

pub view-found :
    (w : World) (n : Text) (k : ℕ) → find_logger w.table n ≡ some k → view w n ≡ view_at w k
view-found w n k h = rw (h, view) refl

pub view-none : (w : World) (n : Text) → find_logger w.table n ≡ none → view w n ≡ none
view-none w n h = rw (h, view) refl

-- Two lookups that agree on a list of addresses.
map-holds :
    {A : Type 0} (f g : ℕ → A) (js : List ℕ)
    → ((j : ℕ) → holds js j ≡ true → f j ≡ g j)
    → map f js ≡ map g js
map-holds f g [] h = refl
map-holds f g (j ∷ js) h =
    ap₂ (λ x xs. x ∷ xs) (h j (ground (arith, ==-refl j)))
      (map-holds f g js (λ k q. h k (ground (arith, q))))

-- The logger at an address has been given new appenders, and nothing else has happened but to those
-- that it had.
pub record Reset (w w' : World) (i : ℕ) (l l' : Logger) : Type 0 where
  pub valid : IsValid w'
  pub frame : Frame w w' i l.appenders
  pub logger : IsLogger w' i l'
  pub name : l'.name ≡ l.name
  pub new : all (leb (length w.appenders)) l'.appenders ≡ true

module _ (w w' : World) (i : ℕ) (l l' : Logger) (s : IsSound w) (e : IsLogger w i l)
    (r : Reset w w' i l l') where
  -- What stands at an address behind the change.
  logger-cases :
      (k : ℕ) (m : Logger) → IsLogger w' k m → ((k ≡ i) × (m ≡ l')) ⊎ ((k ≢ i) × IsLogger w k m)
  logger-cases k m h = elim (Bool-cases (k == i)) [
    | inl q ↦
        let same : k ≡ i = (==_iff k i).0 q in
        inl (same, some-injective m l' (sym h ∙ ap (get_elem? w'.loggers) same ∙ r.logger))
    | inr q ↦
        let other : k ≢ i = λ p. ground (arith, q, p) in
        inr (other, sym (r.frame.others k other) ∙ h)
  ]

  in_range :
      (k j : ℕ) (m : Logger) → IsLogger w k m → holds m.appenders j ≡ true → j < length w.appenders
  in_range k j m h q = AreReady-holds w m.appenders j (s.valid.ready k m h) q

  Reset-IsNamed : IsNamed w'
  Reset-IsNamed n k h =
      let (m, q, p) =
        s.named n k (ap (λ (t : List (Text × ℕ)). find_logger t n) (sym r.frame.table) ∙ h) in
      elim (Bool-cases (k == i)) [
        | inl same_ ↦
            let same : k ≡ i = (==_iff k i).0 same_ in
            (
              l',
              ap (get_elem? w'.loggers) same ∙ r.logger,
              r.name
                  ∙ ap (λ (x : Logger). x.name)
                      (some-injective l m (sym e ∙ ap (get_elem? w.loggers) (sym same) ∙ q))
                  ∙ p,
            )
        | inr other ↦ (m, r.frame.others k (λ x. ground (arith, other, x)) ∙ q, p)
      ]

  Reset-IsApart : IsApart w'
  Reset-IsApart a b m n h k ne j q = elim (logger-cases a m h) [
    | inl (a_i, same) ↦ elim (logger-cases b n k) [
      | inl (b_i, same') ↦ absurd (ne (a_i ∙ sym b_i))
      | inr (b_o, old) ↦ elim (Bool-cases (holds n.appenders j)) [
        | inr x ↦ x
        | inl x ↦ absurd (
            clash j (all-leb-holds (length w.appenders) j l'.appenders r.new (in_range b j n old x))
              (ap (λ (y : Logger). holds y.appenders j) (sym same) ∙ q))
      ]
    ]
    | inr (a_o, old) ↦ elim (logger-cases b n k) [
      | inl (b_i, same) ↦
          ap (λ (y : Logger). holds y.appenders j) same
          ∙ all-leb-holds (length w.appenders) j l'.appenders r.new (in_range a j m old q)
      | inr (b_o, old') ↦ s.apart a b m n old old' ne j q
    ]
  ]
    where
      clash : (j : ℕ) → holds l'.appenders j ≡ false → holds l'.appenders j ≢ true
      clash j x y = ground (arith, x, y)

  pub Reset-IsSound : IsSound w'
  Reset-IsSound = record { valid = r.valid; named = Reset-IsNamed; apart = Reset-IsApart }

  listing : Logger → List (Option Appender) → View
  listing m found = record { level = m.level; formatter = m.formatter; appenders = found }

  view_of-same : (k : ℕ) (m : Logger) → k ≢ i → IsLogger w k m → view_of w' m ≡ view_of w m
  unfolding listing
  view_of-same k m ne h = ap (listing m) (
      map-holds (λ j. get_elem? w'.appenders j) (λ j. get_elem? w.appenders j) m.appenders
        λ j q. r.frame.appenders j (in_range k j m h q) (s.apart k i m l h e ne j q))

  view_at-same : (k : ℕ) → k ≢ i → view_at w' k ≡ view_at w k
  view_at-same k ne = elim (Option-cases (get_elem? w.loggers k)) [
    | inl h ↦ view_at-none w' k (r.frame.others k ne ∙ h) ∙ sym (view_at-none w k h)
    | inr (m, h) ↦
        view_at-some w' k m (r.frame.others k ne ∙ h)
        ∙ ap some (view_of-same k m ne h)
        ∙ sym (view_at-some w k m h)
  ]

  found_still : (n : Text) → find_logger w'.table n ≡ find_logger w.table n
  found_still n = ap (λ (t : List (Text × ℕ)). find_logger t n) r.frame.table

  -- The name of the logger stands for what it has become, every other one for what it did.
  pub Reset-view :
      find_logger w.table l.name ≡ some i
      → (n : Text) → view w' n ≡ (if text_eq l.name n then some (view_of w' l') else view w n)
  Reset-view found n = elim (Bool-cases (text_eq l.name n)) [
    | inl same ↦
        let q : l.name ≡ n = (text_eq_iff l.name n).0 same in
        rw same (
          view-found w' n i (found_still n ∙ ap (find_logger w.table) (sym q) ∙ found)
          ∙ view_at-some w' i l' r.logger)
    | inr other ↦ elim (Option-cases (find_logger w.table n)) [
      | inl h ↦ rw other (view-none w' n (found_still n ∙ h) ∙ sym (view-none w n h))
      | inr (k, h) ↦ rw other (
          view-found w' n k (found_still n ∙ h)
          ∙ view_at-same k (apart_from k h other)
          ∙ sym (view-found w n k h))
    ]
  ]
    where
      apart_from : (k : ℕ) → find_logger w.table n ≡ some k → text_eq l.name n ≡ false → k ≢ i
      apart_from k h other q =
          let (m, p, named) = s.named n k h in
          let same : l ≡ m = some-injective l m (sym e ∙ ap (get_elem? w.loggers) (sym q) ∙ p) in
          ground (arith, other, text_eq_refl n, ap (λ (x : Logger). x.name) same ∙ named)
