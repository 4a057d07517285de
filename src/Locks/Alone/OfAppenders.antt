-- ===== src/Locks/Alone/OfAppenders.antt =====
-- The operations of an appender, run alone.
use final_designer.Formatter.Event.{Event}
use final_designer.Formatter.Scan.{Formatter, format}
use final_designer.Level.{Level}
use final_designer.Locks.Access.{read_appender, attempt}
use final_designer.Locks.Alone.{and_then, alone-read_appender, alone-attempt}
use final_designer.Locks.Appenders.{
  log_to_console, log_to_file, console_written, file_written, opened, reopened, written,
  stream_failed, write_formatted,
}
use final_designer.Locks.Code.{Code, act, alone, take, release, appender, exclusive}
use final_designer.Logging.Logger.{on_appender}
use final_designer.Logging.Sink.{Disk, Stream, exists, open_stream, write_stream}
use final_designer.Logging.World.{
  Appender, file, World, env, log_console, log_file, emit_file, prepare, reopen, print,
  put_appender,
}
use final_designer.Prelude.{
  ℕ, ◌≡◌, refl, sym, ap, ◌∙◌, Bool, true, false, List, Text, Option, none, some, codes, get_elem?,
  inl, inr, Bool-cases, if◌then◌else◌, get_elem?-set_hit, set_twice,
}

-- The last of two writes of one appender counts.
put_twice :
    (w : World) (d d' : Disk) (j : ℕ) (a b : Appender)
    → put_appender (record (put_appender (record w { disk = d }) j a) { disk = d' }) j b
      ≡ put_appender (record w { disk = d' }) j b
put_twice w d d' j a b =
    ap (λ (xs : List Appender). record w { appenders = xs; disk = d' })
      (set_twice w.appenders j a b)

-- The two parts of `prepare`.
abbrev first : Disk → Text → Stream → Disk × Stream
first d name s = if s.failed then open_stream d s name else (d, s)

abbrev second : Disk → Text → Stream → Disk × Stream
second d name s =
    if exists d name then (d, s) else (let (d', s', ok_) = reopen d name s in (d', s'))

reopened-put :
    (w : World) (d : Disk) (j : ℕ) (a : Appender) (name : Text) (s : Stream)
    → reopened
        (put_appender (record w { disk = d }) j (record a { sort = file name s }))
        j
        (record a { sort = file name s })
        (file name s)
      ≡ put_appender
          (record w { disk = (second d name s).0 })
          j
          (record a { sort = file name (second d name s).1 })
reopened-put w d j a name s = elim (Bool-cases (exists d name)) [
  | inl e ↦ rw (e, reopened) (put_twice w d d j (record a { sort = file name s }) _)
  | inr e ↦ rw (e, reopened) (put_twice w d _ j (record a { sort = file name s }) _)
]

module _ (local_time : Text → ℕ → Text) (level : Level) (event : Event) where
  pub alone-log_to_console :
      (w : World) (j : ℕ) (a : Appender) (k : Code World)
      → get_elem? w.appenders j ≡ some a
      → alone (log_to_console local_time j level event k) w
        ≡ and_then (log_console local_time w j a level event) (alone k)
  unfolding log_to_console alone
  alone-log_to_console w j a k e =
      alone-attempt w (console_written local_time j level event) (release (appender j) k)
      ∙ rw (e, console_written) refl

  -- The end of `FileLogAppender::log`.
  abbrev ending : ℕ → Code World → Code World
  ending j k = read_appender j λ a.
      if stream_failed a.sort
      then act (λ w. print w (codes "error\n")) (λ w. release (appender j) k)
      else release (appender j) k

  alone-ending :
      (w : World) (j : ℕ) (a : Appender) (name : Text) (s : Stream) (k : Code World)
      → get_elem? w.appenders j ≡ some (record a { sort = file name s })
      → alone (ending j k) w ≡ alone k (if s.failed then print w (codes "error\n") else w)
  unfolding alone
  alone-ending w j a name s k e =
      alone-read_appender w j (record a { sort = file name s }) _ e ∙ told s.failed
    where
      told :
          (b : Bool)
          → alone
              (if b
                then act (λ w. print w (codes "error\n")) (λ w. release (appender j) k)
                else release (appender j) k)
              w
            ≡ alone k (if b then print w (codes "error\n") else w)
      told true = refl
      told false = refl

  module _ (w : World) (j : ℕ) (a : Appender) (name : Text) (s : Stream)
      (e : get_elem? w.appenders j ≡ some a) (q : a.sort ≡ file name s) where
    -- The store with the stream as it is, in front of the lock.
    abbrev with_stream : Disk × Stream → World
    with_stream p = put_appender (record w { disk = p.0 }) j (record a { sort = file name p.1 })

    stream_there :
        (p : Disk × Stream)
        → get_elem? (with_stream p).appenders j ≡ some (record a { sort = file name p.1 })
    stream_there p = get_elem?-set_hit w.appenders j (record a { sort = file name p.1 }) a e

    abbrev ready : Disk × Stream
    ready = second (first w.disk name s).0 name (first w.disk name s).1

    opening :
        on_appender
          (on_appender w j λ x. opened w j x x.sort)
          j
          (λ x. reopened (on_appender w j λ y. opened w j y y.sort) j x x.sort)
        ≡ with_stream ready
    opening =
        ap (λ (u : World). on_appender u j λ x. reopened u j x x.sort) first_
        ∙ ap
            (λ (o : Option Appender). elim o [
              | none ↦ with_stream (first w.disk name s)
              | some x ↦ reopened (with_stream (first w.disk name s)) j x x.sort
            ])
            (stream_there (first w.disk name s))
        ∙ reopened-put w (first w.disk name s).0 j a name (first w.disk name s).1
      where
        first_ : on_appender w j (λ x. opened w j x x.sort) ≡ with_stream (first w.disk name s)
        first_ =
            ap (λ (o : Option Appender). elim o [ none ↦ w | some x ↦ opened w j x x.sort ]) e
            ∙ ap (opened w j a) q

    -- The text that is written.
    abbrev text_of : Formatter → Text
    text_of f = format (env local_time w) f level event

    abbrev sent : Formatter → Disk × Stream
    sent f = write_stream ready.0 ready.1 (text_of f)

    abbrev formatted : Option Formatter → Option World
    formatted o = elim o [
      | none ↦ none
      | some f ↦ some (
          written (with_stream ready) j (record a { sort = file name ready.1 }) (file name ready.1)
            (text_of f))
    ]

    writing :
        (o : Option Formatter)
        → a.formatter ≡ o
        → file_written local_time j level event (with_stream ready)
          ≡ elim o [ none ↦ none | some f ↦ some (with_stream (sent f)) ]
    writing none h =
        ap
          (λ (p : Option Appender). elim p [
            | none ↦ none
            | some x ↦ write_formatted local_time (with_stream ready) j x level event
          ])
          (stream_there ready)
        ∙ ap formatted h
    writing (some f) h =
        ap
          (λ (p : Option Appender). elim p [
            | none ↦ none
            | some x ↦ write_formatted local_time (with_stream ready) j x level event
          ])
          (stream_there ready)
        ∙ ap formatted h
        ∙ ap some (
            put_twice w ready.0 (sent f).0 j (record a { sort = file name ready.1 })
              (record a { sort = file name (sent f).1 }))

    abbrev emitted : Option Formatter → Option World
    emitted o = elim o [ none ↦ none | some f ↦ some (emit_file w j a name s (text_of f)) ]

    finishing :
        (o : Option Formatter) (k : Code World)
        → a.formatter ≡ o
        → and_then
            (elim o [ none ↦ none | some f ↦ some (with_stream (sent f)) ])
            (alone (ending j k))
          ≡ and_then (log_file local_time w j a name s level event) (alone k)
    unfolding log_file emit_file prepare alone
    finishing none k h = ap (λ (p : Option Formatter). and_then (emitted p) (alone k)) (sym h)
    finishing (some f) k h =
        alone-ending (with_stream (sent f)) j a name (sent f).1 k (stream_there (sent f))
        ∙ ap (λ (p : Option Formatter). and_then (emitted p) (alone k)) (sym h)

    pub alone-log_to_file :
        (k : Code World)
        → alone (log_to_file local_time j level event k) w
          ≡ and_then (log_file local_time w j a name s level event) (alone k)
    unfolding log_to_file alone
    alone-log_to_file k =
        ap
          (alone (
            take (appender j) exclusive
              (attempt (file_written local_time j level event) (ending j k))))
          opening
        ∙ alone-attempt (with_stream ready) (file_written local_time j level event) (ending j k)
        ∙ ap (λ (o : Option World). and_then o (alone (ending j k))) (writing a.formatter refl)
        ∙ finishing a.formatter k refl
