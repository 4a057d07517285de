-- ===== src/Define/Appenders.antt =====
-- What is left of an appender's definition that is written and read back.
use final_designer.Cast.{Printed, >>=-pure, >>=-says, pure}
use final_designer.Cast.Loops.{concat_map}
use final_designer.Config.Var.{returns}
use final_designer.Define.{AppenderDefine}
use final_designer.Define.Fields.{
  child_self, child-other, child-put_unless_empty, optional_text-put_unless_empty,
}
use final_designer.Define.Read.{
  read_appender, read_typed, read_console, read_appenders, optional_text, invalid_type, null_type,
  push_some,
}
use final_designer.Define.Write.{write_appender, put_type, put_unless_empty, text_field}
use final_designer.Level.{unknow, to_string}
use final_designer.Prelude.{
  ℕ, suc, ◌+◌, ◌≡◌, refl, ◌∙◌, ap, List, [], ◌∷◌, ◌++◌, Text, codes, text_eq, Option, none, some,
  if◌then◌else◌, ◌==◌, Bool-cases, inl, inr, arith, length, get_elem?,
}
use final_designer.Yaml.{Api, IsMap}

module _ (api : Api) where
  -- What is printed for an appender, and what is left of it.
  abbrev pub survivor : AppenderDefine → Text × Option AppenderDefine
  survivor d =
      if d.type == 1
      then (invalid_type, none)
      else if d.type == 2
      then ([], some (record { type = 2; level = unknow; formatter = d.formatter; file = [] }))
      else (null_type api (write_appender api d), none)

  -- What is left of the appenders, and what reading prints for them.
  abbrev pub survivors : List AppenderDefine → List AppenderDefine → List AppenderDefine
  survivors acc [] = acc
  survivors acc (d ∷ ds) = survivors (push_some acc (survivor d).1) ds

  abbrev pub complaints : List AppenderDefine → Text
  complaints ds = concat_map (λ d. (survivor d).0) ds

module _ (api : Api) (laws : IsMap api) where
  open api use {Node, load, dump, size, at, child, null, of_text, put, push}
  open laws use {IsMapped, null_mapped, put_mapped, child_null, as_string_of}

  -- A written appender, from its type.
  rest : AppenderDefine → Node → Node
  rest d typed =
      put_unless_empty api (codes "formatter") d.formatter
        (text_field api typed (codes "level") (to_string d.level))

  write_appender-rest :
      (d : AppenderDefine) → write_appender api d ≡ rest d (put_type api d.type null)
  unfolding write_appender rest
  write_appender-rest d = refl

  module _ (d : AppenderDefine) (typed : Node) (m : IsMapped typed) where
    child_type : child (rest d typed) (codes "type") ≡ child typed (codes "type")
    unfolding rest text_eq
    child_type =
        child-put_unless_empty api laws (codes "formatter") (codes "type") d.formatter _
          (put_mapped typed _ _ m) refl
        ∙ child-other api laws typed (codes "level") (codes "type") (to_string d.level) m refl

    formatter_text :
        child typed (codes "formatter") ≡ returns none
        → optional_text api (rest d typed) (codes "formatter") ≡ pure d.formatter
    unfolding rest text_eq
    formatter_text h =
        optional_text-put_unless_empty api laws (codes "formatter") d.formatter _
          (put_mapped typed _ _ m)
          (child-other api laws typed (codes "level") (codes "formatter") (to_string d.level) m refl
            ∙ h)

  read_appender-none :
      (n : Node)
      → child n (codes "type") ≡ returns none
      → read_appender api n ≡ (null_type api n, returns none)
  unfolding read_appender
  read_appender-none n h = rw h refl

  pub read_appender-some :
      (n : Node) (t : Text)
      → child n (codes "type") ≡ returns (some (of_text t))
      → read_appender api n ≡ read_typed api n t
  unfolding read_appender
  read_appender-some n t h = rw (h, as_string_of t) refl

  pub read_console-some :
      (n : Node) (t : Text)
      → optional_text api n (codes "formatter") ≡ pure t
      → read_typed api n (codes "StdoutLogAppender")
        ≡ pure (some (record { type = 2; level = unknow; formatter = t; file = [] }))
  unfolding read_typed read_console text_eq
  read_console-some n t h = >>=-pure (optional_text api n (codes "formatter")) _ t h

  read_typed-invalid :
      (n : Node) → read_typed api n (codes "FileAppender") ≡ (invalid_type, returns none)
  unfolding read_typed text_eq
  read_typed-invalid n = refl

  typed_child :
      (t : Text) → child (text_field api null (codes "type") t) (codes "formatter") ≡ returns none
  unfolding text_eq
  typed_child t =
      child-other api laws null (codes "type") (codes "formatter") t null_mapped refl
      ∙ child_null (codes "formatter")

  -- An appender whose type is written as a text.
  abbrev of_type : AppenderDefine → Text → Node
  of_type d t = rest d (text_field api null (codes "type") t)

  typed_type :
      (d : AppenderDefine) (t : Text)
      → child (of_type d t) (codes "type") ≡ returns (some (of_text t))
  typed_type d t =
      child_type d _ (put_mapped null _ _ null_mapped)
      ∙ child_self api laws null (codes "type") t null_mapped

  read_appender-write_appender :
      (d : AppenderDefine)
      → read_appender api (write_appender api d) ≡ ((survivor api d).0, returns (survivor api d).1)
  read_appender-write_appender d = elim (Bool-cases (d.type == 1)) [
    | inl e ↦ rw e (
        ap (read_appender api) (write_appender-rest d ∙ rw e refl)
        ∙ read_appender-some (of_type d (codes "FileAppender")) _ (typed_type d _)
        ∙ read_typed-invalid _)
    | inr e ↦ elim (Bool-cases (d.type == 2)) [
      | inl e2 ↦
          rw (e, e2)
            (ap (read_appender api) (write_appender-rest d ∙ rw (e, e2) refl)
              ∙ read_appender-some (of_type d (codes "StdoutLogAppender")) _ (typed_type d _)
              ∙ read_console-some _ d.formatter
                  (formatter_text d _ (put_mapped null _ _ null_mapped) (typed_child _)))
      | inr e2 ↦
          rw (e, e2)
            (read_appender-none (write_appender api d) (
              ap (λ n. child n (codes "type")) (write_appender-rest d ∙ rw (e, e2) refl)
              ∙ child_type d null null_mapped
              ∙ child_null (codes "type")))
    ]
  ]

  pub read_appenders-written :
      (node : Node) (ds : List AppenderDefine) (i : ℕ) (acc : List AppenderDefine)
      → ((j : ℕ) (d : AppenderDefine)
          → get_elem? ds j ≡ some d
          → at node (i + j) ≡ write_appender api d)
      → read_appenders api node i (length ds) acc
        ≡ (complaints api ds, returns (survivors api acc ds))
  unfolding read_appenders
  read_appenders-written node [] i acc h = refl
  read_appenders-written node (d ∷ ds) i acc h =
      let this : at node i ≡ write_appender api d = ap (at node) (omega arith) ∙ h 0 d refl in
      let more =
        read_appenders-written node ds (i + 1) (push_some acc (survivor api d).1)
          (λ j e q. ap (at node) (omega arith) ∙ h (suc j) e q) in
      >>=-says _ _ _ _ (ap (read_appender api) this ∙ read_appender-write_appender d)
      ∙ ap (λ (p : Printed (List AppenderDefine)). ((survivor api d).0 ++ p.0, p.1)) more
