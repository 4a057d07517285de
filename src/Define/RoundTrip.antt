-- ===== src/Define/RoundTrip.antt =====
-- What is left of a definition that is written and read back.
use final_designer.Cast.{>>=-pure, >>=-says, ◌>>=◌, pure, lift}
use final_designer.Cast.Loops.{length-map, get_elem?-map}
use final_designer.Config.Var.{returns}
use final_designer.Define.{AppenderDefine, LogDefine}
use final_designer.Define.Fields.{
  push_all_at, listed, child-push_all_at, child-push_all_at-other, optional_text-child,
  optional_text-some, child_self, child-other, put_if_empty-mapped, child-put_if_empty,
  optional_text-put_if_empty,
}
use final_designer.Define.Read.{read_appenders, read_found, read_define, optional_text}
use final_designer.Define.Write.{
  write_appender, write_node, write_define, push_appenders, put_if_empty, text_field,
}
use final_designer.Level.{Level, unknow, to_string, from_string, fatal}
use final_designer.Prelude.{
  ◌≡◌, refl, ◌∙◌, ap, false, List, [], ◌∷◌, Text, codes, text_eq, Option, none, some, if◌then◌else◌,
  arith, leb, map, append-nil,
}
use final_designer.Yaml.{Api, IsMap, IsSequential, push_all}
use final_designer.Define.Appenders.{survivors, complaints, read_appenders-written}
use final_designer.Level.Names.{from_string-to_string}

module _ (api : Api) (laws : IsMap api) where
  open api use {Node, load, dump, size, at, child, null, of_text, put, push, push_at}
  open laws use {
    IsMapped, null_mapped, put_mapped, child_null, as_string_of, push_at_new, push_at_put,
  }

  abbrev defined : Text → Text → Text → List AppenderDefine → LogDefine
  defined name level formatter appenders = record {
    name = name;
    level = (from_string level).0;
    formatter = formatter;
    appenders = appenders;
  }

  -- What a document with the children in question is read as.
  pub read_define_lem :
      {v : Text} {node : Node} {name level formatter o : Text} {found : Option Node}
      {appenders : List AppenderDefine}
      → load v ≡ returns node
      → child node (codes "name") ≡ returns (some (of_text name))
      → optional_text api node (codes "level") ≡ pure level
      → optional_text api node (codes "formatter") ≡ pure formatter
      → child node (codes "appenders") ≡ returns found
      → read_found api found ≡ (o, returns appenders)
      → read_define api v ≡ (o, returns (defined name level formatter appenders))
  unfolding read_define
  read_define_lem {name = name} {level = level} {formatter = formatter} {o = o}
        {appenders = appenders} h n l f a r =
      >>=-pure _ _ _ (ap lift h)
      ∙ >>=-pure _ _ _ (ap lift n)
      ∙ >>=-pure _ _ _ (ap lift (as_string_of name))
      ∙ >>=-pure _ _ _ l
      ∙ >>=-pure _ _ _ f
      ∙ >>=-pure _ _ _ (ap lift a)
      ∙ >>=-says _ _ _ _ r
      ∙ ap (λ (t : Text). (t, returns (defined name level formatter appenders))) (append-nil o)

  push_appenders-push_all_at :
      (ds : List AppenderDefine) (n : Node)
      → push_appenders api ds n
        ≡ push_all_at api n (codes "appenders") (map (write_appender api) ds)
  unfolding push_appenders
  push_appenders-push_all_at [] n = refl
  push_appenders-push_all_at (d ∷ ds) n = push_appenders-push_all_at ds _

  listed-survivors :
      IsSequential api
      → (ds : List AppenderDefine)
      → read_found api (listed api (map (write_appender api) ds))
        ≡ (complaints api ds, returns (survivors api [] ds))
  unfolding read_found
  listed-survivors seq [] = refl
  listed-survivors seq (d ∷ ds) =
      let nodes : List Node = map (write_appender api) (d ∷ ds) in
      ap (λ n. read_appenders api (push_all api null nodes) 0 n [])
        (seq.size_of nodes ∙ length-map _ (d ∷ ds))
      ∙ read_appenders-written api laws (push_all api null nodes) (d ∷ ds) 0 [] λ j e q.
        ap (at (push_all api null nodes)) (omega arith)
        ∙ seq.at_of nodes j (write_appender api e)
            (get_elem?-map (write_appender api) (d ∷ ds) j e q)

  module _ (d : LogDefine) where
    named : Node
    named = text_field api null (codes "name") d.name

    levelled : Node
    levelled = text_field api named (codes "level") (to_string d.level)

    -- The part of a written definition in front of its appenders.
    head : Node
    head = put_if_empty api (codes "formatter") d.formatter levelled

    levelled-mapped : IsMapped levelled
    unfolding named levelled
    levelled-mapped = put_mapped _ _ _ (put_mapped _ _ _ null_mapped)

    head-mapped : IsMapped head
    unfolding head
    head-mapped =
        put_if_empty-mapped api laws (codes "formatter") d.formatter levelled levelled-mapped

    write_node-head :
        write_node api d
        ≡ push_all_at api head (codes "appenders") (map (write_appender api) d.appenders)
    unfolding write_node head levelled named
    write_node-head = push_appenders-push_all_at d.appenders head

    -- What its other keys lead to.
    other : (j : Text) → text_eq (codes "formatter") j ≡ false → child head j ≡ child levelled j
    unfolding head
    other j h =
        child-put_if_empty api laws (codes "formatter") j d.formatter levelled levelled-mapped h

    unnamed :
        (j : Text)
        → text_eq (codes "name") j ≡ false
        → text_eq (codes "level") j ≡ false
        → child levelled j ≡ returns none
    unfolding named levelled
    unnamed j h k =
        child-other api laws named (codes "level") j _ (put_mapped _ _ _ null_mapped) k
        ∙ child-other api laws null (codes "name") j d.name null_mapped h
        ∙ child_null j

    head-name : child head (codes "name") ≡ returns (some (of_text d.name))
    unfolding levelled named text_eq
    head-name =
        other (codes "name") refl
        ∙ child-other api laws named (codes "level") (codes "name") _ (put_mapped _ _ _ null_mapped)
            refl
        ∙ child_self api laws null (codes "name") d.name null_mapped

    head-level : child head (codes "level") ≡ returns (some (of_text (to_string d.level)))
    unfolding levelled named text_eq
    head-level =
        other (codes "level") refl
        ∙ child_self api laws named (codes "level") _ (put_mapped _ _ _ null_mapped)

    head-appenders : child head (codes "appenders") ≡ returns none
    unfolding text_eq
    head-appenders = other (codes "appenders") refl ∙ unnamed (codes "appenders") refl refl

    head-formatter : optional_text api head (codes "formatter") ≡ pure []
    unfolding head text_eq
    head-formatter =
        optional_text-put_if_empty api laws (codes "formatter") d.formatter levelled levelled-mapped
          (unnamed (codes "formatter") refl refl)

    node-other :
        (j : Text)
        → text_eq (codes "appenders") j ≡ false
        → child (write_node api d) j ≡ child head j
    node-other j h =
        ap (λ n. child n j) write_node-head
        ∙ child-push_all_at-other api laws head _ head-mapped head-appenders
            (map (write_appender api) d.appenders) j h

    -- A definition is written and read back, where the library keeps what is put under a key and
    -- pushed into a sequence, and reads the document that it has written: it keeps its name, and its level if that is one of
    -- the six. Its formatter is lost; so are the appenders that write to a file or to nothing, for
    -- each of which a message is printed, and the levels of those that write to the console.
    pub read_define-write_define :
        IsSequential api
        → load (dump (write_node api d)) ≡ returns (write_node api d)
        → (write_define api d >>= read_define api) ≡ (
          complaints api d.appenders,
          returns (record {
            name = d.name;
            level = if leb d.level fatal then d.level else unknow;
            formatter = [];
            appenders = survivors api [] d.appenders;
          }),
        )
    unfolding write_define text_eq
    read_define-write_define seq h =
        read_define_lem h (node-other (codes "name") refl ∙ head-name)
          (optional_text-some api laws _ _ _ (node-other (codes "level") refl ∙ head-level))
          (optional_text-child api laws _ head _ (node-other (codes "formatter") refl)
            ∙ head-formatter)
          (ap (λ n. child n (codes "appenders")) write_node-head
            ∙ child-push_all_at api laws head _ head-mapped head-appenders
                (map (write_appender api) d.appenders))
          (listed-survivors seq d.appenders)
        ∙ ap
            (λ (l : Level). (
              complaints api d.appenders,
              returns (record {
                name = d.name;
                level = l;
                formatter = [];
                appenders = survivors api [] d.appenders;
              }),
            ))
            (from_string-to_string d.level)
