-- ===== src/Locks/Safety/OfAppenders.antt =====
-- The operations of an appender are safe: no null pointer is followed, and the formatter changes
-- under the lock alone.
use final_designer.Formatter.Scan.{Formatter}
use final_designer.Level.{Level}
use final_designer.Locks.Appenders.{
  make_appender, set_formatter, set_level, get_formatter, opened, reopened, written, to_yaml_string,
}
use final_designer.Locks.Code.{Code, Hold, exclusive, appender}
use final_designer.Locks.Safe.{IsAbove, IsSafe}
use final_designer.Locks.Safety.{
  Onward, act-IsSafe, read_appender-IsSafe, write_appender-IsSafe, take-IsSafe, release-IsSafe,
  owns_head, with_appender,
}
use final_designer.Locks.Store.{Inv, IsAppender, Later, Later-trans, store_rules}
use final_designer.Locks.Store.Puts.{put_appender-Allowed}
use final_designer.Locks.Store.Writes.{Same, Same-refl, Same-put, Same-Allowed}
use final_designer.Logging.World.{
  Appender, Sort, console, file, World, appender_set_formatter, print,
}
use final_designer.Prelude.{
  ℕ, refl, List, [], ◌∷◌, ◌++◌, Text, Option, some, arith, get_elem?-append, get_elem?-append_last,
}
use final_designer.Yaml.{Api}

pub opened-Same :
    (w : World) (j : ℕ) (a : Appender) (s : Sort) → IsAppender w j a → Same w (opened w j a s)
opened-Same w j a console e = Same-refl w
opened-Same w j a (file name s) e = Same-put w _ j a _ e refl (refl, refl, refl) (refl, refl)

pub reopened-Same :
    (w : World) (j : ℕ) (a : Appender) (s : Sort) → IsAppender w j a → Same w (reopened w j a s)
reopened-Same w j a console e = Same-refl w
reopened-Same w j a (file name s) e = Same-put w _ j a _ e refl (refl, refl, refl) (refl, refl)

pub written-Same :
    (w : World) (j : ℕ) (a : Appender) (s : Sort) (text : Text)
    → IsAppender w j a
    → Same w (written w j a s text)
written-Same w j a console text e = Same-refl w
written-Same w j a (file name s) text e = Same-put w _ j a _ e refl (refl, refl, refl) (refl, refl)

pub print-Same : (w : World) (t : Text) → Same w (print w t)
print-Same w t = record {
  loggers = refl;
  table = refl;
  main = refl;
  appenders = λ j a e. (a, e, refl, refl);
}

module _ (top : ℕ) (held : List Hold) where
  pub make_appender-IsSafe :
      (w : World) (a : Appender) (k : ℕ → Code World)
      → ((w' : World) (j : ℕ)
          → Later w w'
          → Inv top w'
          → IsAppender w' j a
          → IsSafe (store_rules top) w' held (k j))
      → IsSafe (store_rules top) w held (make_appender a k)
  unfolding make_appender
  make_appender-IsSafe w a k rest = act-IsSafe top held w _ _ λ w' b v.
      let ok_ = Same-Allowed top held w' _ v (pushed w') in
      (
        ok_,
        rest _ _ (Later-trans w w' _ b ok_.promise.later) ok_.inv
            (get_elem?-append_last w'.appenders a),
      )
    where
      pushed : (w' : World) → Same w' (record w' { appenders = w'.appenders ++ a ∷ [] })
      pushed w' = record {
        loggers = refl;
        table = refl;
        main = refl;
        appenders = λ j b e. (b, get_elem?-append w'.appenders (a ∷ []) j b e, refl, refl);
      }

  module _ (w : World) (j : ℕ) where
    pub set_formatter-IsSafe :
        (x : Appender) (f : Formatter) (k : Code World)
        → IsAbove (store_rules top) held (appender j)
        → IsAppender w j x
        → Onward top held w k
        → IsSafe (store_rules top) w held (set_formatter j (some f) k)
    unfolding set_formatter appender_set_formatter
    set_formatter-IsSafe x f k above e rest =
        take-IsSafe top held w (appender j) exclusive _ above λ w1 a1 v1.
          let (x1, e1) = a1.appenders j x e in
          write_appender-IsSafe top (with_appender held j) w1 j x1 _ _ e1
            (λ w2 x2 a2 v2 e2.
              put_appender-Allowed top (with_appender held j) w2 v2 j x2 _ f e2 refl
                (λ o. ground (arith, o, owns_head top held (appender j))))
            λ w3 a3 v3.
              release-IsSafe top held w3 (appender j) exclusive k
                (rest w3 (Later-trans w w1 w3 a1 a3) v3)

    pub set_level-IsSafe :
        (x : Appender) (level : Level) (k : Code World)
        → IsAppender w j x
        → Onward top held w k
        → IsSafe (store_rules top) w held (set_level j level k)
    unfolding set_level
    set_level-IsSafe x level k e = write_appender-IsSafe top held w j x _ k e λ w2 x2 a2 v2 e2.
        Same-Allowed top held w2 _ v2 (Same-put w2 _ j x2 _ e2 refl (refl, refl, refl) (refl, refl))

    pub get_formatter-IsSafe :
        (x : Appender) (k : Option Formatter → Code World)
        → IsAbove (store_rules top) held (appender j)
        → IsAppender w j x
        → ((w' : World) (x' : Appender)
            → Later w w'
            → Inv top w'
            → IsAppender w' j x'
            → IsSafe (store_rules top) w' held (k x'.formatter))
        → IsSafe (store_rules top) w held (get_formatter j k)
    unfolding get_formatter
    get_formatter-IsSafe x k above e rest =
        take-IsSafe top held w (appender j) exclusive _ above λ w1 a1 v1.
          let (x1, e1) = a1.appenders j x e in
          read_appender-IsSafe top (with_appender held j) w1 j x1 _ e1 λ w2 x2 a2 v2 e2.
            release-IsSafe top held w2 (appender j) exclusive _
              (rest w2 x2 (Later-trans w w1 w2 a1 a2) v2 e2)

    pub to_yaml_string-IsSafe :
        (api : Api) (x : Appender) (k : Text → Code World)
        → IsAbove (store_rules top) held (appender j)
        → IsAppender w j x
        → ((t : Text) → Onward top held w (k t))
        → IsSafe (store_rules top) w held (to_yaml_string api j k)
    unfolding to_yaml_string
    to_yaml_string-IsSafe api x k above e rest =
        take-IsSafe top held w (appender j) exclusive _ above λ w1 a1 v1.
          let (x1, e1) = a1.appenders j x e in
          read_appender-IsSafe top (with_appender held j) w1 j x1 _ e1 λ w2 x2 a2 v2 e2.
            release-IsSafe top held w2 (appender j) exclusive _
              (rest _ w2 (Later-trans w w1 w2 a1 a2) v2)
