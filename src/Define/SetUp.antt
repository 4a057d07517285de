-- ===== src/Define/SetUp.antt =====
-- The appenders that the listener makes for a logger.
use final_designer.Define.{AppenderDefine}
use final_designer.Formatter.Scan.{Formatter, new_formatter, init_output}
use final_designer.Define.Apply.{
  make_appender, dress, invalid_formatter, set_up_appender, set_up_appenders,
}
use final_designer.Define.Frame.{Frame, Frame-refl, Frame-trans}
use final_designer.Define.Views.{built}
use final_designer.Logging.Invariant.{IsLogger, IsValid, Keeps-IsValid}
use final_designer.Logging.Logger.{add_appender, on_logger, on_appender, inherit}
use final_designer.Logging.Sink.{new_stream}
use final_designer.Logging.Preserve.{add_appender-IsValid}
use final_designer.Logging.World.{
  Appender, Logger, World, new_file, new_console, put_appender, put_logger, print, file, console,
  appender_set_formatter,
}
use final_designer.Prelude.{
  ℕ, zero, suc, ◌≡◌, ◌≤◌, ◌<◌, refl, ◌∙◌, sym, ap, ap₂, Bool, true, false, is_empty, none, List, [],
  ◌∷◌, ◌++◌, Text, Option, some, all, map, length, length-set, length-append, get_elem?,
  get_elem?-set_hit, get_elem?-set_ne, get_elem?-append, get_elem?-append_last, arith,
  if◌then◌else◌, ◌==◌, ◌||◌, leb, &&-eq-true, append_assoc, append-nil, subst,
}

-- A definition of one of the two classes.
abbrev pub is_known : AppenderDefine → Bool
is_known d = d.type == 1 || d.type == 2

get_elem?-append_lt :
    {A : Type 0} (xs ys : List A) (i : ℕ) → i < length xs → get_elem? (xs ++ ys) i ≡ get_elem? xs i
get_elem?-append_lt [] ys i h = elim h [ ]
get_elem?-append_lt (x ∷ xs) ys zero h = refl
get_elem?-append_lt (x ∷ xs) ys (suc i) h = get_elem?-append_lt xs ys i (omega arith)

-- The store with a new appender in it, behind all others.
abbrev pushed : World → Text → Appender → World
pushed w t a = record (print w t) { appenders = w.appenders ++ a ∷ [] }

pushed-IsValid : (w : World) (t : Text) (a : Appender) → IsValid w → IsValid (pushed w t a)
pushed-IsValid w t a v =
    Keeps-IsValid {w = w}
      (record {
        loggers = refl;
        table = refl;
        main = refl;
        ready = λ j (c, f, h, k). (c, f, get_elem?-append w.appenders _ j c h, k);
      })
      v

abbrev kind_of : AppenderDefine → Appender
kind_of d = if d.type == 1 then new_file d.file else new_console

make_appender-known : (d : AppenderDefine) → is_known d ≡ true → make_appender d ≡ some (kind_of d)
unfolding make_appender
make_appender-known d h = ground (arith, h)

-- What the calls on a new appender make of it.
inherit-dress :
    (f : Option Formatter) (d : AppenderDefine) → inherit f (dress d (kind_of d)).1 ≡ built f d
unfolding dress appender_set_formatter
inherit-dress f d = shaped (d.type == 1) (is_empty d.formatter) (new_formatter d.formatter).is_error
  where
    own : Bool → Bool → Option Formatter
    own empty bad = if empty then none else if bad then none else some (new_formatter d.formatter)

    tried : Bool → Bool → Appender → Text × Appender
    tried empty bad a =
        if empty
        then ([], a)
        else if bad
        then (init_output d.formatter ++ invalid_formatter d, a)
        else (init_output d.formatter, appender_set_formatter a (some (new_formatter d.formatter)))

    kind : Bool → Appender
    kind b = if b then new_file d.file else new_console

    shaped :
        (b empty bad : Bool)
        → inherit f (tried empty bad (record (kind b) { level = d.level })).1 ≡ record {
          sort = if b then file d.file new_stream else console;
          level = d.level;
          formatter = elim (own empty bad) [ none ↦ f | some g ↦ some g ];
          have_formatter = elim (own empty bad) [ none ↦ false | some g ↦ true ];
        }
    shaped true true bad = refl
    shaped false true bad = refl
    shaped true false true = refl
    shaped false false true = refl
    shaped true false false = refl
    shaped false false false = refl

module _ (w : World) (i : ℕ) (l : Logger) (e : IsLogger w i l) (d : AppenderDefine) where
  -- What one round of the loop leaves behind.
  after : World
  after =
      put_logger
        (put_appender (pushed w (dress d (kind_of d)).0 (dress d (kind_of d)).1)
          (length w.appenders) (built l.formatter d))
        i (record l { appenders = l.appenders ++ length w.appenders ∷ [] })

  at_end :
      get_elem? (w.appenders ++ (dress d (kind_of d)).1 ∷ []) (length w.appenders)
      ≡ some (dress d (kind_of d)).1
  at_end = get_elem?-append_last w.appenders _

  add_appender-after :
      add_appender (pushed w (dress d (kind_of d)).0 (dress d (kind_of d)).1) i (length w.appenders)
      ≡ after
  unfolding add_appender after
  add_appender-after =
      rw (e, on_logger)
        (rw (at_end, on_appender)
          (ap
            (λ a.
              put_logger
                (put_appender (pushed w (dress d (kind_of d)).0 (dress d (kind_of d)).1)
                  (length w.appenders) a)
                i (record l { appenders = l.appenders ++ length w.appenders ∷ [] }))
            (inherit-dress l.formatter d)))

  set_up_appender-after : is_known d ≡ true → set_up_appender w i d ≡ some after
  unfolding set_up_appender
  set_up_appender-after h =
      rw (make_appender-known d h, set_up_appender) (ap some add_appender-after)

  after-IsValid : IsValid w → IsValid after
  after-IsValid v =
      subst (λ (u : World). IsValid u) add_appender-after
        (add_appender-IsValid (pushed w (dress d (kind_of d)).0 (dress d (kind_of d)).1) i
          (pushed-IsValid w _ _ v) (length w.appenders) _ at_end)

  after-Frame : (js : List ℕ) → Frame w after i js
  unfolding after
  after-Frame js = record {
    table = refl;
    main = refl;
    others = λ k h. get_elem?-set_ne w.loggers _ (λ q. h (sym q));
    appenders = λ j h k.
        get_elem?-set_ne (w.appenders ++ (dress d (kind_of d)).1 ∷ []) _ (λ q. omega (arith, h, q))
        ∙ get_elem?-append_lt w.appenders _ j h;
    longer = omega (
      arith,
      length-set (w.appenders ++ (dress d (kind_of d)).1 ∷ []) (length w.appenders)
          (built l.formatter d),
      length-append w.appenders ((dress d (kind_of d)).1 ∷ []),
    );
  }

  after-IsLogger :
      IsLogger after i (record l { appenders = l.appenders ++ length w.appenders ∷ [] })
  unfolding after
  after-IsLogger = get_elem?-set_hit w.loggers i _ l e

  after-built : get_elem? after.appenders (length w.appenders) ≡ some (built l.formatter d)
  unfolding after
  after-built =
      get_elem?-set_hit (w.appenders ++ (dress d (kind_of d)).1 ∷ []) (length w.appenders) _ _
        at_end

  after-longer : length w.appenders < length after.appenders
  unfolding after
  after-longer = omega (
    arith,
    length-set (w.appenders ++ (dress d (kind_of d)).1 ∷ []) (length w.appenders)
        (built l.formatter d),
    length-append w.appenders ((dress d (kind_of d)).1 ∷ []),
  )

-- What the loop leaves behind: the appenders of the definitions, in order, each of them new.
pub record Made (w w' : World) (i : ℕ) (l : Logger) (ds : List AppenderDefine) : Type 0 where
  pub valid : IsValid w'
  pub frame : (js : List ℕ) → Frame w w' i js
  pub fresh : List ℕ
  pub logger : IsLogger w' i (record l { appenders = l.appenders ++ fresh })
  pub new : all (leb (length w.appenders)) fresh ≡ true
  pub made : map (λ j. get_elem? w'.appenders j) fresh ≡ map (λ d. some (built l.formatter d)) ds

pub all-leb : (m n : ℕ) (js : List ℕ) → m ≤ n → all (leb n) js ≡ true → all (leb m) js ≡ true
all-leb m n [] h k = refl
all-leb m n (j ∷ js) h k = ground (arith, h, k, all-leb m n js)

pub set_up_appenders-Made :
    (ds : List AppenderDefine) (w : World) (i : ℕ) (l : Logger)
    → IsValid w
    → IsLogger w i l
    → all is_known ds ≡ true
    → (w' : World) × (set_up_appenders w i ds ≡ some w') × Made w w' i l ds
unfolding set_up_appenders
set_up_appenders-Made [] w i l v e h = (
  w,
  refl,
  record {
    valid = v;
    frame = λ js. Frame-refl w i js;
    fresh = [];
    logger =
        e ∙ ap (λ (js : List ℕ). some (record l { appenders = js })) (sym (append-nil l.appenders));
    new = refl;
    made = refl;
  },
)
set_up_appenders-Made (d ∷ ds) w i l v e h =
    let (known, rest) = &&-eq-true (is_known d) _ h in
    let w1 : World = after w i l e d in
    let one : Logger = record l { appenders = l.appenders ++ length w.appenders ∷ [] } in
    let (w2, q, m) =
      set_up_appenders-Made ds w1 i one (after-IsValid w i l e d v) (after-IsLogger w i l e d)
        rest in
    (
      w2,
      rw (set_up_appender-after w i l e d known, set_up_appenders) q,
      record {
        valid = m.valid;
        frame = λ js. Frame-trans (after-Frame w i l e d js) (m.frame js);
        fresh = length w.appenders ∷ m.fresh;
        logger =
            m.logger
            ∙ ap (λ (js : List ℕ). some (record l { appenders = js }))
                (append_assoc l.appenders (length w.appenders ∷ []) m.fresh);
        new = ground (
          arith,
          all-leb (length w.appenders) (length w1.appenders) m.fresh
              (omega (arith, after-longer w i l e d)) m.new,
        );
        made =
            ap₂ (λ (a : Option Appender) (more : List (Option Appender)). a ∷ more)
              ((m.frame []).appenders (length w.appenders) (after-longer w i l e d) refl
                ∙ after-built w i l e d)
              m.made;
      },
    )
