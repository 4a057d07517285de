-- ===== src/Define/LoggerNode.antt =====
-- The node that `Logger::toYamlString` builds, in front of the appenders: what the reader finds in it.
use final_designer.Config.Var.{returns}
use final_designer.Define.Describe.{logger_node}
use final_designer.Define.Fields.{child_self, child-other}
use final_designer.Define.Write.{text_field}
use final_designer.Level.{to_string}
use final_designer.Logging.World.{Logger}
use final_designer.Prelude.{
  ◌≡◌, refl, ◌∙◌, false, Text, codes, text_eq, none, some, inl, inr, Option-cases,
}
use final_designer.Yaml.{Api, IsMap}

module _ (api : Api) (laws : IsMap api) where
  open api use {Node, child, null, of_text}
  open laws use {IsMapped, null_mapped, put_mapped, child_null}

  -- The node in front of the appenders: what the reader finds in it.
  module _ (l : Logger) where
    named : Node
    named = text_field api null (codes "name") l.name

    levelled : Node
    levelled = text_field api named (codes "level") (to_string l.level)

    named-mapped : IsMapped named
    unfolding named
    named-mapped = put_mapped _ _ _ null_mapped

    levelled-mapped : IsMapped levelled
    unfolding levelled
    levelled-mapped = put_mapped _ _ _ named-mapped

    pub logger_node-mapped : IsMapped (logger_node api l)
    unfolding logger_node levelled named
    logger_node-mapped = elim (Option-cases l.formatter) [
      | inl e ↦ rw (e, logger_node) levelled-mapped
      | inr (f, e) ↦ rw (e, logger_node) (put_mapped _ _ _ levelled-mapped)
    ]

    -- Its keys but the misspelt one.
    child-logger_node :
        (j : Text)
        → text_eq (codes "forammter") j ≡ false
        → child (logger_node api l) j ≡ child levelled j
    unfolding logger_node levelled named
    child-logger_node j h = elim (Option-cases l.formatter) [
      | inl e ↦ rw (e, logger_node) refl
      | inr (f, e) ↦
          rw (e, logger_node)
            (child-other api laws levelled (codes "forammter") j f.pattern_text levelled-mapped h)
    ]

    pub unset :
        (j : Text)
        → text_eq (codes "forammter") j ≡ false
        → text_eq (codes "level") j ≡ false
        → text_eq (codes "name") j ≡ false
        → child (logger_node api l) j ≡ returns none
    unfolding levelled named
    unset j h k n =
        child-logger_node j h
        ∙ child-other api laws named (codes "level") j _ named-mapped k
        ∙ child-other api laws null (codes "name") j _ null_mapped n
        ∙ child_null j

    pub child-name : child (logger_node api l) (codes "name") ≡ returns (some (of_text l.name))
    unfolding levelled named text_eq
    child-name =
        child-logger_node (codes "name") refl
        ∙ child-other api laws named (codes "level") (codes "name") _ named-mapped refl
        ∙ child_self api laws null (codes "name") l.name null_mapped

    pub child-level :
        child (logger_node api l) (codes "level") ≡ returns (some (of_text (to_string l.level)))
    unfolding levelled text_eq
    child-level =
        child-logger_node (codes "level") refl
        ∙ child_self api laws named (codes "level") _ named-mapped
