-- ===== src/Formatter/Scan.antt =====
-- `LogFormatter::init` and the rest of `LogFormatter`, with the indices of the source.
use final_designer.Formatter.Event.{Event}
use final_designer.Formatter.Item.{Item, Env, format_item, find_item}
use final_designer.Level.{Level}
use final_designer.Prelude.{
  ℕ, zero, suc, ◌+◌, ◌-◌, Bool, true, false, not, ◌&&◌, ◌||◌, List, [], ◌∷◌, ◌++◌, Text, codes,
  isalpha, substr, none, some, is_empty, length, get_elem?, drop, ◌==◌, if◌then◌else◌,
}

-- An element of `vec`: `kind` is 0 for a literal and 1 for a directive.
pub record Token : Type 0 where
  pub str : Text
  pub fmt : Text
  pub kind : ℕ

-- The variables of the inner loop.
pub record Inner : Type 0 where
  pub n : ℕ
  pub fmt_status : ℕ
  pub fmt_begin : ℕ
  pub str : Text
  pub fmt : Text

-- Whether the inner loop leaves by `break`.
pub data Flow : Type 0 where
  stop : Inner → Flow
  again : Inner → Flow

-- The body of the inner loop, at `c = m_pattern[n]`.
unfoldable pub inner_step : Text → ℕ → ℕ → Inner → Flow
inner_step p i c s =
    if s.fmt_status == 0 && not (isalpha c) && not (c == b'{') && not (c == b'}')
    then stop (record s { str = substr p (i + 1) (s.n - i - 1) })
    else if s.fmt_status == 0 && c == b'{'
    then again (record s {
      n = s.n + 1;
      fmt_status = 1;
      fmt_begin = s.n;
      str = substr p (i + 1) (s.n - i - 1);
    })
    else if s.fmt_status == 1 && c == b'}'
    then stop (record s {
      n = s.n + 1;
      fmt_status = 0;
      fmt = substr p (s.fmt_begin + 1) (s.n - s.fmt_begin - 1);
    })
    else again (record s {
      n = s.n + 1;
      str = if s.n + 1 == length p && is_empty s.str then drop (i + 1) p else s.str;
    })

-- The inner loop; the list is what the pattern holds from `n` on.
unfoldable pub inner : Text → ℕ → Text → Inner → Inner
inner p i [] s = s
inner p i (c ∷ rest) s = elim (inner_step p i c s) [ stop s' ↦ s' | again s' ↦ inner p i rest s' ]

abbrev pub inner_start : ℕ → Inner
inner_start i = record { n = i + 1; fmt_status = 0; fmt_begin = 0; str = []; fmt = [] }

-- The variables of the outer loop, `m_error`, and what has been written to `std::cout`.
pub record Outer : Type 0 where
  pub i : ℕ
  pub n_str : Text
  pub vec : List Token
  pub error : Bool
  pub out : Text

abbrev pub literal : Text → Token
literal s = record { str = s; fmt = []; kind = 0 }

abbrev pub directive : Text → Text → Token
directive s f = record { str = s; fmt = f; kind = 1 }

-- `n_str` as a token, if it is not empty.
abbrev pub flush : Text → List Token
flush s = if is_empty s then [] else literal s ∷ []

-- After the inner loop: `++ i` included.
unfoldable pub close : Text → Outer → Inner → Outer
close p o s =
    if s.fmt_status == 0
    then record o {
      i = s.n - 1 + 1;
      n_str = [];
      vec = o.vec ++ (flush o.n_str ++ directive s.str s.fmt ∷ []);
    }
    else record o {
      i = o.i + 1;
      vec = o.vec ++ record { str = codes "<pattern_error>"; fmt = s.fmt; kind = 0 } ∷ [];
      error = true;
      out =
          o.out
          ++ (codes "pattern parse error: " ++ (p ++ (codes " - " ++ (drop o.i p ++ b'\n' ∷ []))));
    }

-- Whether `m_pattern[i]` is there and is `c`.
abbrev pub is_at : Text → ℕ → ℕ → Bool
is_at p i c = elim (get_elem? p i) [ none ↦ false | some d ↦ d == c ]

-- The body of the outer loop, at `c = m_pattern[i]`.
unfoldable pub outer_step : Text → ℕ → Outer → Outer
unfolding inner inner_step close
outer_step p c o =
    if not (c == b'%')
    then record o { i = o.i + 1; n_str = o.n_str ++ c ∷ [] }
    else if is_at p (o.i + 1) b'%'
    then record o { i = o.i + 1; n_str = o.n_str ++ b'%' ∷ [] }
    else close p o (inner p o.i (drop (o.i + 1) p) (inner_start o.i))

-- The outer loop, on fuel.
unfoldable pub outer : ℕ → Text → Outer → Outer
outer zero p o = o
outer (suc fuel) p o = elim (get_elem? p o.i) [
  | none ↦ o
  | some c ↦ outer fuel p (outer_step p c o)
]

abbrev pub outer_start : Outer
outer_start = record { i = 0; n_str = []; vec = []; error = false; out = [] }

-- Both loops and the flush behind them. Each round moves `i`, so the size is fuel enough.
unfoldable pub scan : Text → Outer
unfolding outer
scan p =
    let o : Outer = outer (length p) p outer_start in
    record o { n_str = []; vec = o.vec ++ flush o.n_str }

-- The body of the last loop of `init`: the item, and whether it calls `setError`.
unfoldable make_item : Token → Item × Bool
make_item t = if t.kind == 0 then (Item.string t.str, false) else elim (find_item t.str) [
  | none ↦ (Item.string (codes "<error_format %" ++ (t.str ++ codes ">")), true)
  | some make ↦ (make t.fmt, false)
]

unfoldable pub make_items : List Token → List Item × Bool
unfolding make_item
make_items [] = ([], false)
make_items (t ∷ ts) =
    let (item, bad) = make_item t in
    let (items, worse) = make_items ts in (item ∷ items, bad || worse)

pub record Formatter : Type 0 where
  pub pattern_text : Text
  pub items : List Item
  pub is_error : Bool

-- `LogFormatter::LogFormatter`
unfoldable pub new_formatter : Text → Formatter
unfolding scan make_items
new_formatter p =
    let o : Outer = scan p in
    let (items, bad) = make_items o.vec in
    record { pattern_text = p; items = items; is_error = o.error || bad }

-- What the constructor prints to `std::cout`, from `init`.
unfoldable pub init_output : Text → Text
unfolding scan
init_output p = (scan p).out

-- The loop of `LogFormatter::format`.
unfoldable pub format_items : Env → Level → Event → List Item → Text
format_items env level event [] = []
format_items env level event (item ∷ rest) =
    format_item env level event item ++ format_items env level event rest

-- `LogFormatter::format`
unfoldable pub format : Env → Formatter → Level → Event → Text
unfolding format_items
format env f level event = format_items env level event f.items
