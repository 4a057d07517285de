-- ===== src/Tests/Document.antt =====
-- A small format for documents with the interface of yaml-cpp: 0 begins a
-- sequence, 1 a map, 2 a text, and each piece of the last two has its length in front.
use final_designer.Config.Var.{Outcome, returns, throws}
use final_designer.Cast.Sets.{any_none}
use final_designer.Prelude.{
  any, false, ℕ, zero, suc, ◌≡◌, refl, sym, ap, ap₂, ◌∙◌, Bool, true, List, [], ◌∷◌, ◌++◌, Text,
  codes, Option, none, some, length, get_elem?, take, drop, map, text_eq, text_eq_refl, text_eq_iff,
  if◌then◌else◌, take-append, drop-append, append_assoc, is_distinct, arith, Bool-cases, inl, inr,
  some-injective, append-nil, text_eq-eq-false,
}
use final_designer.Yaml.{Api, IsSequential, IsKeyed, IsMap, push_all, put_all}

-- The pieces of a document are documents.
pub data Doc : Type 0 where
  blank : Doc
  plain : Text → Doc
  items : List Text → Doc
  fields : List (Text × Text) → Doc

abbrev frames : List Text → Text
frames [] = []
frames (t ∷ ts) = length t ∷ t ++ frames ts

abbrev frame_pairs : List (Text × Text) → Text
frame_pairs [] = []
frame_pairs ((k, v) ∷ ps) = length k ∷ length v ∷ k ++ (v ++ frame_pairs ps)

abbrev unframe : ℕ → Text → List Text
unframe zero text = []
unframe (suc n) [] = []
unframe (suc n) (l ∷ text) = take l text ∷ unframe n (drop l text)

abbrev unframe_pairs : ℕ → Text → List (Text × Text)
unframe_pairs zero text = []
unframe_pairs (suc n) [] = []
unframe_pairs (suc n) (l ∷ []) = []
unframe_pairs (suc n) (l ∷ m ∷ text) =
    (take l text, take m (drop l text)) ∷ unframe_pairs n (drop m (drop l text))

abbrev pub print_doc : Doc → Text
print_doc blank = []
print_doc (plain t) = 2 ∷ t
print_doc (items ts) = 0 ∷ length ts ∷ frames ts
print_doc (fields ps) = 1 ∷ length ps ∷ frame_pairs ps

abbrev pub parse_doc : Text → Doc
parse_doc [] = blank
parse_doc (zero ∷ n ∷ text) = items (unframe n text)
parse_doc (suc zero ∷ n ∷ text) = fields (unframe_pairs n text)
parse_doc (suc (suc zero) ∷ text) = plain text
parse_doc text = plain text

unframe-frames : (ts : List Text) → unframe (length ts) (frames ts) ≡ ts
unframe-frames [] = refl
unframe-frames (t ∷ ts) =
    rw (take-append t (frames ts), drop-append t (frames ts)) (ap (◌∷◌ t) (unframe-frames ts))

unframe_pairs-frame_pairs :
    (ps : List (Text × Text)) → unframe_pairs (length ps) (frame_pairs ps) ≡ ps
unframe_pairs-frame_pairs [] = refl
unframe_pairs-frame_pairs ((k, v) ∷ ps) =
    rw
      (
        take-append k (v ++ frame_pairs ps),
        drop-append k (v ++ frame_pairs ps),
        take-append v (frame_pairs ps),
        drop-append v (frame_pairs ps),
      )
      (ap (◌∷◌ (k, v)) (unframe_pairs-frame_pairs ps))

pub parse-print_doc : (d : Doc) → parse_doc (print_doc d) ≡ d
parse-print_doc blank = refl
parse-print_doc (plain t) = refl
parse-print_doc (items ts) = ap items (unframe-frames ts)
parse-print_doc (fields ps) = ap fields (unframe_pairs-frame_pairs ps)

abbrev find_field : List (Text × Text) → Text → Option Doc
find_field [] key = none
find_field ((k, v) ∷ ps) key = if text_eq k key then some (parse_doc v) else find_field ps key

-- The field of a key is written over, or comes last.
abbrev put_field : List (Text × Text) → Text → Text → List (Text × Text)
put_field [] key v = (key, v) ∷ []
put_field ((k, u) ∷ ps) key v = if text_eq k key then (key, v) ∷ ps else (k, u) ∷ put_field ps key v

abbrev child_of : Doc → Text → Outcome (Option Doc)
child_of blank key = returns none
child_of (plain t) key = throws (codes "operator[] call on a scalar")
child_of (items ts) key = returns none
child_of (fields ps) key = returns (find_field ps key)

abbrev text_of : Option Doc → Outcome Text
text_of (some (plain t)) = returns t
text_of (some d) = throws (codes "bad conversion")
text_of none = throws (codes "invalid node")

abbrev put_child : Doc → Text → Doc → Doc
put_child (fields ps) key d = fields (put_field ps key (print_doc d))
put_child d key e = fields ((key, print_doc e) ∷ [])

abbrev push_item : Doc → Doc → Doc
push_item (items ts) d = items (ts ++ print_doc d ∷ [])
push_item d e = items (print_doc e ∷ [])

abbrev fields_of : Doc → List (Text × Text)
fields_of (fields ps) = ps
fields_of d = []

abbrev items_of : Doc → List Text
items_of (items ts) = ts
items_of d = []

abbrev item_at : List Text → ℕ → Doc
item_at ts i = elim (get_elem? ts i) [ none ↦ blank | some t ↦ parse_doc t ]

abbrev scalar_of : Doc → Text
scalar_of (plain t) = t
scalar_of d = []

abbrev push_field : Doc → Text → Doc → Doc
push_field d key e = elim (find_field (fields_of d) key) [
  | none ↦ put_child d key (push_item blank e)
  | some s ↦ put_child d key (push_item s e)
]

abbrev pub documents : Api
documents = record {
  Node = Doc;
  load = λ t. returns (parse_doc t);
  dump = print_doc;
  size = λ d. length (items_of d);
  at = λ d i. item_at (items_of d) i;
  pairs = λ d. map (λ p. (plain p.0, parse_doc p.1)) (fields_of d);
  scalar = scalar_of;
  child = child_of;
  as_string = text_of;
  null = blank;
  of_text = plain;
  put = put_child;
  push = push_item;
  push_at = push_field;
}

push_items :
    (ts : List Text) (ds : List Doc)
    → push_all documents (items ts) ds ≡ items (ts ++ map print_doc ds)
push_items ts [] = ap items (sym (append-nil ts))
push_items ts (d ∷ ds) =
    push_items (ts ++ print_doc d ∷ []) ds
    ∙ ap items (append_assoc ts (print_doc d ∷ []) (map print_doc ds))

pushed :
    (d : Doc) (ds : List Doc) → push_all documents blank (d ∷ ds) ≡ items (map print_doc (d ∷ ds))
pushed d ds = push_items (print_doc d ∷ []) ds

length-prints : (ds : List Doc) → length (map print_doc ds) ≡ length ds
length-prints [] = refl
length-prints (d ∷ ds) = ap suc (length-prints ds)

item_at-prints :
    (ds : List Doc) (i : ℕ) (d : Doc) → get_elem? ds i ≡ some d → item_at (map print_doc ds) i ≡ d
item_at-prints [] i d e = cc
item_at-prints (x ∷ ds) zero d e = parse-print_doc x ∙ some-injective x d e
item_at-prints (x ∷ ds) (suc i) d e = item_at-prints ds i d e

pub documents-IsSequential : IsSequential documents
documents-IsSequential = record { size_of = λ ds. counted ds; at_of = λ ds i d e. found ds i d e }
  where
    counted : (ds : List Doc) → length (items_of (push_all documents blank ds)) ≡ length ds
    counted [] = refl
    counted (d ∷ ds) = rw (pushed d ds) (length-prints (d ∷ ds))

    found :
        (ds : List Doc) (i : ℕ) (d : Doc)
        → get_elem? ds i ≡ some d
        → item_at (items_of (push_all documents blank ds)) i ≡ d
    found [] i d e = cc
    found (x ∷ ds) i d e = rw (pushed x ds) (item_at-prints (x ∷ ds) i d e)

abbrev printed : List (Text × Doc) → List (Text × Text)
printed = map (λ p. (p.0, print_doc p.1))

abbrev same_key : Text × Doc → Text × Doc → Bool
same_key x y = text_eq x.0 y.0

-- A new key comes last.
put_new :
    (ps : List (Text × Doc)) (x : Text × Doc)
    → any (same_key x) ps ≡ false
    → put_field (printed ps) x.0 (print_doc x.1) ≡ printed (ps ++ x ∷ [])
put_new [] x h = refl
put_new ((k, u) ∷ ps) x h = elim (Bool-cases (text_eq x.0 k)) [
  | inl e ↦ absurd (ground (arith, h, e))
  | inr e ↦
      let rest : any (same_key x) ps ≡ false = ground (arith, h, e) in
      rw (text_eq-eq-false k x.0 (λ q. ground (arith, e, q, text_eq_refl x.0)))
        (ap (◌∷◌ (k, print_doc u)) (put_new ps x rest))
]

put_keyed :
    (ps xs : List (Text × Doc))
    → is_distinct same_key (ps ++ xs) ≡ true
    → put_all documents (fields (printed ps)) xs ≡ fields (printed (ps ++ xs))
put_keyed ps [] h = ap (λ qs. fields (printed qs)) (sym (append-nil ps))
put_keyed ps (x ∷ xs) h = rw (put_new ps x (any_none same_key ps xs x h)) (
    put_keyed (ps ++ x ∷ []) xs (rw (append_assoc ps (x ∷ []) xs) h)
    ∙ ap (λ qs. fields (printed qs)) (append_assoc ps (x ∷ []) xs))

pub documents-IsKeyed : IsKeyed documents
documents-IsKeyed = record { pairs_of = λ xs h. paired xs h }
  where
    back :
        (xs : List (Text × Doc))
        → map
            (λ (p : Doc × Doc). (scalar_of p.0, p.1))
            (map (λ (p : Text × Text). (plain p.0, parse_doc p.1)) (printed xs))
          ≡ xs
    back [] = refl
    back ((k, d) ∷ xs) =
        ap₂ (λ (e : Doc) (ys : List (Text × Doc)). (k, e) ∷ ys) (parse-print_doc d) (back xs)

    paired :
        (xs : List (Text × Doc))
        → is_distinct same_key xs ≡ true
        → map
            (λ (p : Doc × Doc). (scalar_of p.0, p.1))
            (documents.pairs (put_all documents blank xs))
          ≡ xs
    paired [] h = refl
    paired (x ∷ xs) h = rw (put_keyed (x ∷ []) xs h) (back (x ∷ xs))

abbrev is_map : Doc → Bool
is_map blank = true
is_map (fields ps) = true
is_map d = false

find_put :
    (ps : List (Text × Text)) (k j v : Text)
    → find_field (put_field ps k v) j
      ≡ (if text_eq k j then some (parse_doc v) else find_field ps j)
find_put [] k j v = refl
find_put ((h, u) ∷ ps) k j v = elim (Bool-cases (text_eq h k)) [
  | inl e ↦ rw e (ground (arith, (text_eq_iff h k).0 e))
  | inr e ↦ rw e (
      ground
        (arith, e, find_put ps k j v, (text_eq_iff h j).0, (text_eq_iff k j).0, text_eq_refl j))
]

put_put :
    (ps : List (Text × Text)) (k u v : Text) → put_field (put_field ps k u) k v ≡ put_field ps k v
put_put [] k u v = rw (text_eq_refl k) refl
put_put ((h, t) ∷ ps) k u v = elim (Bool-cases (text_eq h k)) [
  | inl e ↦ rw (e, text_eq_refl k) refl
  | inr e ↦ rw (e, e) (ap (◌∷◌ (h, t)) (put_put ps k u v))
]

pub documents-IsMap : IsMap documents
documents-IsMap = record {
  IsMapped = λ d. is_map d ≡ true;
  null_mapped = refl;
  put_mapped = mapped;
  child_null = λ j. refl;
  child_put = child_put;
  push_at_new = push_new;
  push_at_put = push_put;
  as_string_of = λ t. refl;
}
  where
    mapped : (d : Doc) (k : Text) (e : Doc) → is_map d ≡ true → is_map (put_child d k e) ≡ true
    mapped blank k e h = refl
    mapped (fields ps) k e h = refl
    mapped (plain t) k e h = refl
    mapped (items ts) k e h = refl

    child_put :
        (d : Doc) (k j : Text) (e : Doc)
        → is_map d ≡ true
        → child_of (put_child d k e) j ≡ (if text_eq k j then returns (some e) else child_of d j)
    child_put blank k j e h = elim (Bool-cases (text_eq k j)) [
      | inl q ↦ rw (q, parse-print_doc e) refl
      | inr q ↦ rw q refl
    ]
    child_put (fields ps) k j e h = elim (Bool-cases (text_eq k j)) [
      | inl q ↦ ap returns (find_put ps k j (print_doc e)) ∙ rw (q, parse-print_doc e) refl
      | inr q ↦ ap returns (find_put ps k j (print_doc e)) ∙ rw q refl
    ]
    child_put (plain t) k j e h = cc
    child_put (items ts) k j e h = cc

    push_new :
        (d : Doc) (k : Text) (e : Doc)
        → is_map d ≡ true
        → child_of d k ≡ returns none
        → push_field d k e ≡ put_child d k (items (print_doc e ∷ []))
    push_new blank k e h q = refl
    push_new (fields ps) k e h q = let n : find_field ps k ≡ none = cc in rw (n, push_field) refl
    push_new (plain t) k e h q = cc
    push_new (items ts) k e h q = cc

    found :
        (ps : List (Text × Text)) (k : Text) (s : Doc)
        → find_field (put_field ps k (print_doc s)) k ≡ some s
    found ps k s = find_put ps k k (print_doc s) ∙ rw (text_eq_refl k, parse-print_doc s) refl

    push_put :
        (d : Doc) (k : Text) (s e : Doc)
        → is_map d ≡ true
        → push_field (put_child d k s) k e ≡ put_child d k (push_item s e)
    push_put blank k s e h =
        rw (found [] k s, push_field)
          (ap fields (put_put [] k (print_doc s) (print_doc (push_item s e))))
    push_put (fields ps) k s e h =
        rw (found ps k s, push_field)
          (ap fields (put_put ps k (print_doc s) (print_doc (push_item s e))))
    push_put (plain t) k s e h = cc
    push_put (items ts) k s e h = cc
