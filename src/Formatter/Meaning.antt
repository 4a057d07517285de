-- ===== src/Formatter/Meaning.antt =====
-- What a pattern means: a pattern written from a list of pieces prints those pieces.
use final_designer.Formatter.Event.{Event, get_time}
use final_designer.Formatter.Grammar.{is_name, is_inside, ends, Reads, done, plain, bare, braced}
use final_designer.Formatter.Item.{Env, format_item, find_item, new_date_time}
use final_designer.Formatter.Reading.{scan-Reads}
use final_designer.Formatter.Scan.{
  Token, directive, flush, make_items, new_formatter, format_items, format,
}
use final_designer.Level
use final_designer.Level.{Level}
use final_designer.Prelude.{
  ℕ, Bool, true, false, not, ◌≡◌, refl, List, [], ◌∷◌, ◌++◌, Text, codes, arith, append-nil,
  append_assoc, ◌==◌, isalpha, all, decimal, decimal_signed, text_eq, subst,
}

-- The fields of an event that a pattern can name.
pub data Field : Type 0 where
  content level elapse name thread fiber file line newline tab : Field
  date : Text → Field

pub data Piece : Type 0 where
  text : Text → Piece
  field : Field → Piece

-- The letter that the comment of `init` gives to a field; `F` is the fiber's.
abbrev pub letter : Field → ℕ
letter content = b'm'
letter Field.level = b'p'
letter elapse = b'r'
letter name = b'c'
letter thread = b't'
letter newline = b'n'
letter file = b'f'
letter line = b'l'
letter tab = b'T'
letter fiber = b'F'
letter (date f) = b'd'

-- The pattern that is written for the pieces.
abbrev pub write : List Piece → Text
write [] = []
write (text t ∷ ps) = t ++ write ps
write (field (date f) ∷ ps) = b'%' ∷ b'd' ∷ b'{' ∷ (f ++ b'}' ∷ write ps)
write (field x ∷ ps) = b'%' ∷ letter x ∷ write ps

-- Text holds no `%`, a date format no `}`, and no letter, `{` or `}` follows the letter of a field.
abbrev pub IsWritable : List Piece → Type 0
IsWritable [] = Unit
IsWritable (text t ∷ ps) = (all (λ c. not (c == b'%')) t ≡ true) × IsWritable ps
IsWritable (field (date f) ∷ ps) = (is_inside f ≡ true) × IsWritable ps
IsWritable (field x ∷ ps) = (ends (letter x ∷ []) (write ps) ≡ true) × IsWritable ps

-- What a field prints.
abbrev pub show_field : Env → Level → Event → Field → Text
show_field env l event content = event.content
show_field env l event Field.level = Level.to_string l
show_field env l event elapse = decimal event.elapse
show_field env l event name = env.name_of event.logger
show_field env l event thread = decimal event.thread_id
show_field env l event fiber = decimal event.fiber_id
show_field env l event file = event.file
show_field env l event line = decimal_signed event.line
show_field env l event newline = b'\n' ∷ []
show_field env l event tab = b'\t' ∷ []
show_field env l event (date []) = env.local_time (codes "%Y-%m-%d %H:%M:%S") (get_time event)
show_field env l event (date f) = env.local_time f (get_time event)

abbrev pub show : Env → Level → Event → List Piece → Text
show env l event [] = []
show env l event (text t ∷ ps) = t ++ show env l event ps
show env l event (field x ∷ ps) = show_field env l event x ++ show env l event ps

-- The token of a field, and the tokens of the pieces behind the literal text `acc`.
abbrev token : Field → Token
token (date f) = directive (b'd' ∷ []) f
token x = directive (letter x ∷ []) []

abbrev tokens : Text → List Piece → List Token
tokens acc [] = flush acc
tokens acc (text t ∷ ps) = tokens (acc ++ t) ps
tokens acc (field x ∷ ps) = flush acc ++ token x ∷ tokens [] ps

pub Reads-text :
    (t rest acc : Text) {ts : List Token} {e : Bool}
    → all (λ c. not (c == b'%')) t ≡ true
    → Reads rest (acc ++ t) ts e
    → Reads (t ++ rest) acc ts e
Reads-text [] rest acc h r = rw (append-nil acc) at r
Reads-text (c ∷ t) rest acc h r =
    plain (ground arith)
      (Reads-text t rest (acc ++ c ∷ []) (ground arith) (rw (append_assoc acc (c ∷ []) t) r))

letter-is_name : (x : Field) → is_name (letter x ∷ []) ≡ true
unfolding isalpha
letter-is_name content = refl
letter-is_name _ = refl

Reads-write :
    (ps : List Piece) (acc : Text) → IsWritable ps → Reads (write ps) acc (tokens acc ps) false
Reads-write [] acc h = done refl
Reads-write (text t ∷ ps) acc h = Reads-text t (write ps) acc h.0 (Reads-write ps (acc ++ t) h.1)
Reads-write (field (date f) ∷ ps) acc h =
    braced (b'd' ∷ []) f (write ps) _ refl refl (letter-is_name (date f)) h.0
      (Reads-write ps [] h.1)
Reads-write (field content ∷ ps) acc h =
    bare (b'm' ∷ []) (write ps) _ refl refl (letter-is_name content) h.0 (Reads-write ps [] h.1)
Reads-write (field x ∷ ps) acc h =
    bare (letter x ∷ []) (write ps) _ refl refl (letter-is_name x) h.0 (Reads-write ps [] h.1)

module _ (env : Env) (l : Level) (event : Event) where
  -- The items that `make_items` gives for some tokens, printed, and the error flag.
  abbrev Prints : List Token → Text → Type 0
  Prints ts t = (format_items env l event (make_items ts).0 ≡ t) × ((make_items ts).1 ≡ false)

  Prints-flush :
      (acc t : Text) (ts : List Token) → Prints ts t → Prints (flush acc ++ ts) (acc ++ t)
  unfolding make_items format_items format_item
  Prints-flush [] t ts h = h
  Prints-flush (c ∷ acc) t ts h = ground arith

  Prints-token :
      (x : Field) (t : Text) (ts : List Token)
      → Prints ts t
      → Prints (token x ∷ ts) (show_field env l event x ++ t)
  unfolding make_items format_items format_item find_item new_date_time text_eq
  Prints-token (date []) t ts h = ground arith
  Prints-token (date (c ∷ f)) t ts h = ground arith
  Prints-token content t ts h = ground arith
  Prints-token _ t ts h = ground arith

  Prints-tokens :
      (ps : List Piece) (acc : Text) → Prints (tokens acc ps) (acc ++ show env l event ps)
  Prints-tokens [] acc =
      subst (λ (ts : List Token). Prints ts (acc ++ [])) (append-nil (flush acc))
        (Prints-flush acc [] [] (unfold make_items format_items in (refl, refl)))
  Prints-tokens (text t ∷ ps) acc =
      subst (λ (u : Text). Prints (tokens (acc ++ t) ps) u) (append_assoc acc t _)
        (Prints-tokens ps (acc ++ t))
  Prints-tokens (field x ∷ ps) acc = Prints-flush acc _ _ (Prints-token x _ _ (Prints-tokens ps []))

  -- A pattern written from pieces is accepted, and an event is printed by it piece by piece.
  pub format-write :
      (ps : List Piece)
      → IsWritable ps
      → (format env (new_formatter (write ps)) l event ≡ show env l event ps)
        × ((new_formatter (write ps)).is_error ≡ false)
  unfolding new_formatter format
  format-write ps h =
      let (v, e, i) = scan-Reads (write ps) (Reads-write ps [] h) in rw (v, e) (Prints-tokens ps [])
