-- ===== src/Logging/Files.antt =====
-- `FileLogAppender::log` in each state of the stream and of the file system.
use final_designer.Logging.Sink.{
  Disk, file_at, exists, open_file, body, append_file, Stream, new_stream, open_stream,
  close_stream, write_stream,
}
use final_designer.Logging.World.{Appender, file, World, reopen, prepare, emit_file}
use final_designer.Prelude.{
  ℕ, ◌≡◌, Bool, true, false, [], ◌∷◌, ◌++◌, Text, codes, Option, none, some, is_empty, length,
  get_elem?, set, get_elem?-set_hit, get_elem?-append_last, arith, if◌then◌else◌, text_eq_refl,
}

-- The appender `a` at `i` with the stream `s`, the disk `d`, and `t` on the console.
abbrev pub after : World → ℕ → Appender → Text → Disk → Stream → Text → World
after w i a name d s t = record w {
  appenders = set w.appenders i (record a { sort = file name s });
  out = t;
  disk = d;
}

abbrev pub open_at : ℕ → Stream
open_at f = record { handle = some f; failed = false }

abbrev pub failed_stream : Stream
failed_stream = record { handle = none; failed = true }

-- The disk with a new, empty file of a name.
abbrev with_file : Disk → Text → Disk
with_file d name = record d {
  names = (name, length d.bodies) ∷ d.names;
  bodies = d.bodies ++ [] ∷ [];
}

module _ (d : Disk) (name : Text) where
  exists_there : (f : ℕ) → file_at d name ≡ some f → exists d name ≡ true
  unfolding exists
  exists_there f e = rw (e, exists)

  exists_gone : file_at d name ≡ none → exists d name ≡ false
  unfolding exists
  exists_gone e = rw (e, exists)

  open_there :
      (f : ℕ) (b : Bool)
      → file_at d name ≡ some f
      → d.openable name ≡ true
      → open_stream d (record { handle = none; failed = b }) name ≡ (d, open_at f)
  unfolding open_stream open_file
  open_there f b e o = rw (o, e)

  open_gone :
      (b : Bool)
      → file_at d name ≡ none
      → d.openable name ≡ true
      → open_stream d (record { handle = none; failed = b }) name
        ≡ (with_file d name, open_at (length d.bodies))
  unfolding open_stream open_file
  open_gone b e o = rw (o, e)

  prepare_there :
      (f : ℕ) (h : Option ℕ)
      → file_at d name ≡ some f
      → prepare d name (record { handle = h; failed = false })
        ≡ (d, record { handle = h; failed = false })
  unfolding prepare
  prepare_there f h e = rw (exists_there f e)

  prepare_failed :
      (f : ℕ)
      → file_at d name ≡ some f
      → d.openable name ≡ true
      → prepare d name failed_stream ≡ (d, open_at f)
  unfolding prepare
  prepare_failed f e o = rw (open_there f true e o) (rw (exists_there f e))

  prepare_gone :
      (h : Option ℕ)
      → file_at d name ≡ none
      → d.openable name ≡ true
      → prepare d name (record { handle = h; failed = false })
        ≡ (with_file d name, open_at (length d.bodies))
  unfolding prepare reopen close_stream
  prepare_gone none e o = rw (exists_gone e) (rw (open_gone true e o))
  prepare_gone (some f) e o = rw (exists_gone e) (rw (open_gone false e o))

body-append_file :
    (d : Disk) (f : ℕ) (b text : Text)
    → get_elem? d.bodies f ≡ some b
    → body (append_file d f text) f ≡ b ++ text
unfolding append_file
body-append_file d f b text e =
    ground (arith, e, get_elem?-set_hit d.bodies f (body d f ++ text) b e)

write_open :
    (d : Disk) (f : ℕ) (text : Text)
    → is_empty text ≡ false
    → write_stream d (open_at f) text ≡ (append_file d f text, open_at f)
unfolding write_stream
write_open d f text e = rw e

write_closed :
    (d : Disk) (text : Text)
    → is_empty text ≡ false
    → write_stream d new_stream text ≡ (d, failed_stream)
unfolding write_stream
write_closed d text e = rw e

module _ (w : World) (i : ℕ) (a : Appender) (name : Text) (text : Text) where
  emit_by :
      (d1 d2 : Disk) (s s1 s2 : Stream)
      → prepare w.disk name s ≡ (d1, s1)
      → write_stream d1 s1 text ≡ (d2, s2)
      → emit_file w i a name s text
        ≡ after w i a name d2 s2 (if s2.failed then w.out ++ codes "error\n" else w.out)
  unfolding emit_file
  emit_by d1 d2 s s1 s2 p q = rw p (rw q (ground arith))

  module _ (e : is_empty text ≡ false) where
    -- A new appender whose file is there already loses its first text: it prints `error`, leaves
    -- every file as it was, and its stream has failed.
    pub emit_file_first :
        (f : ℕ)
        → file_at w.disk name ≡ some f
        → emit_file w i a name new_stream text
          ≡ after w i a name w.disk failed_stream (w.out ++ codes "error\n")
    emit_file_first f h =
        emit_by _ _ _ _ _ (prepare_there w.disk name f none h) (write_closed w.disk text e)

    -- A failed stream opens its file again, if that is there and can be opened, and appends the
    -- text.
    pub emit_file_failed :
        (f : ℕ)
        → file_at w.disk name ≡ some f
        → w.disk.openable name ≡ true
        → emit_file w i a name failed_stream text
          ≡ after w i a name (append_file w.disk f text) (open_at f) w.out
    emit_file_failed f h o =
        emit_by _ _ _ _ _ (prepare_failed w.disk name f h o) (write_open w.disk f text e)

    -- An open stream whose file's name still leads to some file appends the text to its own.
    pub emit_file_open :
        (f g : ℕ)
        → file_at w.disk name ≡ some g
        → emit_file w i a name (open_at f) text
          ≡ after w i a name (append_file w.disk f text) (open_at f) w.out
    emit_file_open f g h =
        emit_by _ _ _ _ _ (prepare_there w.disk name g (some f) h) (write_open w.disk f text e)

    -- If no file of the name is left, and one can be made, a stream that has not failed, open or
    -- never opened, makes it, and it holds the text alone.
    pub emit_file_gone :
        (h : Option ℕ)
        → file_at w.disk name ≡ none
        → w.disk.openable name ≡ true
        → (d : Disk) × (emit_file w i a name (record { handle = h; failed = false }) text
            ≡ after w i a name d (open_at (length w.disk.bodies)) w.out)
          × (file_at d name ≡ some (length w.disk.bodies))
          × (body d (length w.disk.bodies) ≡ text)
    emit_file_gone h g o =
        let n : ℕ = length w.disk.bodies in
        let d1 : Disk = with_file w.disk name in
        (
          append_file d1 n text,
          emit_by _ _ _ _ _ (prepare_gone w.disk name h g o) (write_open d1 n text e),
          unfold append_file file_at in rw (text_eq_refl name),
          body-append_file d1 n [] text (get_elem?-append_last w.disk.bodies []),
        )
