-- ===== src/Config/Loads.antt =====
-- The steps of `Config::LoadFromYaml`: what they do to a variable.
use final_designer.Config.Changes.{from_string-cases}
use final_designer.Config.Load.{Yaml, Members, load_member, load_members}
use final_designer.Config.Members.{In, here, there}
use final_designer.Config.Registry.{
  Types, Cell, Registry, find_data, lookup_base, cell_from_string, note_from,
}
use final_designer.Config.Var.{returns, Var, from_string}
use final_designer.Prelude.{
  ℕ, ◌≡◌, ◌≢◌, refl, sym, ◌∙◌, ap, List, [], ◌∷◌, Text, map, tolower, is_empty, some, get_elem?,
  get_elem?-set_hit, get_elem?-set_ne, arith, inl, inr, ◌⊎◌, Bool-cases, Option-cases,
  if◌then◌else◌, ==_iff, ◌==◌,
}

module _ {W : Type 0} (types : Types W) where
  open types use {Kind, Val, eq, from_str}

  abbrev pub cell_of : (k : Kind) → Var (Val k) W → Cell types
  cell_of k var = record { kind = k; var = var }

  -- At an address, a variable that differs from a given one by its value at most, which is then
  -- what a text converts to that has a property.
  pub record Becomes (source : Text → Type 0) (k : Kind) (var : Var (Val k) W)
      (cells : List (Cell types)) (i : ℕ) : Type 0 where
    pub val : Val k
    pub at : get_elem? cells i ≡ some (record { kind = k; var = record var { val = val } })
    pub from : (val ≡ var.val) ⊎ ((text : Text) × source text × (from_str k text ≡ returns val))

  cell_from_string-datas :
      (r : Registry types) (i : ℕ) (text : Text) → (cell_from_string types r i text).datas ≡ r.datas
  unfolding cell_from_string
  cell_from_string-datas r i text = elim (Option-cases (get_elem? r.cells i)) [
    | inl n ↦ rw (n, cell_from_string) refl
    | inr (cell, at) ↦ rw (at, cell_from_string) refl
  ]

  pub cell_from_string-hit :
      (r : Registry types) (i : ℕ) (text : Text) (k : Kind) (var : Var (Val k) W)
      → get_elem? r.cells i ≡ some (cell_of k var)
      → get_elem? (cell_from_string types r i text).cells i
        ≡ some (cell_of k (from_string (eq k) (from_str k) (note_from types k) var text r.world).0)
  unfolding cell_from_string
  cell_from_string-hit r i text k var at =
      rw (at, cell_from_string) (get_elem?-set_hit r.cells i _ _ at)

  cell_from_string-beside :
      (r : Registry types) (i j : ℕ) (text : Text)
      → i ≢ j
      → get_elem? (cell_from_string types r i text).cells j ≡ get_elem? r.cells j
  unfolding cell_from_string
  cell_from_string-beside r i j text h = elim (Option-cases (get_elem? r.cells i)) [
    | inl n ↦ rw (n, cell_from_string) refl
    | inr (cell, at) ↦ rw (at, cell_from_string) (get_elem?-set_ne r.cells _ h)
  ]

  cell_from_string-Becomes :
      (source : Text → Type 0) (r : Registry types) (i : ℕ) (text : Text) (k : Kind)
      (var : Var (Val k) W)
      → get_elem? r.cells i ≡ some (cell_of k var)
      → source text
      → Becomes source k var (cell_from_string types r i text).cells i
  cell_from_string-Becomes source r i text k var at s =
      elim (from_string-cases (eq k) (from_str k) (note_from types k) var text r.world) [
        | inl (w, p) ↦ record {
          val = var.val;
          at = hit ∙ ap (λ x. some (cell_of k x.0)) p;
          from = inl refl;
        }
        | inr (w, v, var', c, p, inl q) ↦ record {
          val = v;
          at = hit ∙ ap (λ x. some (cell_of k x)) (ap (λ x. x.0) p ∙ q);
          from = inr (text, s, c);
        }
        | inr (w, v, var', c, p, inr (same, q)) ↦ record {
          val = var.val;
          at = hit ∙ ap (λ x. some (cell_of k x)) (ap (λ x. x.0) p ∙ q);
          from = inl refl;
        }
      ]
    where
      hit :
          get_elem? (cell_from_string types r i text).cells i
          ≡ some
              (cell_of k (from_string (eq k) (from_str k) (note_from types k) var text r.world).0)
      hit = cell_from_string-hit r i text k var at

  -- A second change behind a first one.
  Becomes-trans :
      (source : Text → Type 0) (k : Kind) (var : Var (Val k) W) (first second : List (Cell types))
      (i : ℕ) (b : Becomes source k var first i)
      → Becomes source k (record var { val = b.val }) second i
      → Becomes source k var second i
  Becomes-trans source k var first second i b c = record {
    val = c.val;
    at = c.at;
    from = elim c.from [
      | inr new ↦ inr new
      | inl old ↦ elim b.from [
        | inl older ↦ inl (old ∙ older)
        | inr (text, s, p) ↦ inr (text, s, p ∙ ap returns (sym old))
      ]
    ];
  }

  module _ (yaml : Yaml) where
    open yaml use {Node, is_scalar, scalar, dump}

    -- The text from which a node is loaded.
    abbrev pub node_text : Node → Text
    node_text node = if is_scalar node then scalar node else dump node

    pub load_member-datas :
        (r : Registry types) (m : Text × Node) → (load_member types yaml r m).datas ≡ r.datas
    unfolding load_member lookup_base
    load_member-datas r (name, node) = elim (Bool-cases (is_empty name)) [
      | inl e ↦ rw (e, load_member) refl
      | inr e ↦ elim (Option-cases (find_data types r.datas (map tolower name))) [
        | inl n ↦ rw (e, n, load_member) refl
        | inr (i, f) ↦ rw (e, f, load_member) (cell_from_string-datas r i _)
      ]
    ]

    load_member-Becomes :
        (source : Text → Type 0) (r : Registry types) (m : Text × Node) (i : ℕ) (k : Kind)
        (var : Var (Val k) W)
        → get_elem? r.cells i ≡ some (cell_of k var)
        → (find_data types r.datas (map tolower m.0) ≡ some i → source (node_text m.1))
        → Becomes source k var (load_member types yaml r m).cells i
    unfolding load_member lookup_base
    load_member-Becomes source r (name, node) i k var at s = elim (Bool-cases (is_empty name)) [
      | inl e ↦ rw (e, load_member) same
      | inr e ↦ elim (Option-cases (find_data types r.datas (map tolower name))) [
        | inl n ↦ rw (e, n, load_member) same
        | inr (j, f) ↦
            rw (e, f, load_member)
              (elim (Bool-cases (j == i)) [
                | inl q ↦
                    let p : j ≡ i = (==_iff j i).0 q in
                    rw p (cell_from_string-Becomes source r i _ k var at (s (f ∙ ap some p)))
                | inr q ↦ record {
                  val = var.val;
                  at = cell_from_string-beside r j i _ (λ p. ground (arith, p, q)) ∙ at;
                  from = inl refl;
                }
              ])
      ]
    ]
      where
        same : Becomes source k var r.cells i
        same = record { val = var.val; at = at; from = inl refl }

    pub load_members-Becomes :
        (source : Text → Type 0) (r : Registry types) (ms : Members types yaml) (i : ℕ) (k : Kind)
        (var : Var (Val k) W)
        → get_elem? r.cells i ≡ some (cell_of k var)
        → ((m : Text × Node)
            → In m ms
            → find_data types r.datas (map tolower m.0) ≡ some i
            → source (node_text m.1))
        → Becomes source k var (load_members types yaml r ms).cells i
    unfolding load_members
    load_members-Becomes source r [] i k var at s = record {
      val = var.val;
      at = at;
      from = inl refl;
    }
    load_members-Becomes source r (m ∷ ms) i k var at s =
        let first = load_member-Becomes source r m i k var at (s m here) in
        Becomes-trans source k var _ _ i first (
          load_members-Becomes source (load_member types yaml r m) ms i k
            (record var { val = first.val }) first.at
            (λ n j f.
              s n (there j)
                (ap (λ d. find_data types d (map tolower n.0)) (sym (load_member-datas r m)) ∙ f)))

    pub load_members-datas :
        (r : Registry types) (ms : Members types yaml)
        → (load_members types yaml r ms).datas ≡ r.datas
    unfolding load_members
    load_members-datas r [] = refl
    load_members-datas r (m ∷ ms) =
        load_members-datas (load_member types yaml r m) ms ∙ load_member-datas r m
