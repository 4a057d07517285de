-- ===== src/Logging/Invariant.antt =====
-- A store in which no call goes through a null pointer: what holds of it, and that `log` keeps it.
use final_designer.Formatter.Event.{Event}
use final_designer.Formatter.Scan.{Formatter, format}
use final_designer.Level.{Level}
use final_designer.Logging.Log.{log_all, log, log_event}
use final_designer.Logging.Sink.{Stream, write_stream}
use final_designer.Logging.World.{
  Appender, Sort, console, file, Logger, World, appender_log, log_sort, emit_file, prepare, print,
  put_appender, env,
}
use final_designer.Prelude.{
  ℕ, zero, suc, ◌≡◌, inl, inr, Option-cases, refl, ◌∙◌, sym, ap, Bool, true, false, List, [], ◌∷◌,
  Text, Option, none, some, get_elem?, set, arith, codes, if◌then◌else◌, leb, is_empty, Bool-cases,
}

-- A pointer to an appender that has a formatter.
abbrev pub IsReady : World → ℕ → Type 0
IsReady w j =
    (a : Appender) × (f : Formatter) × (get_elem? w.appenders j ≡ some a) × (a.formatter ≡ some f)

-- Every appender on the list is ready.
abbrev pub AreReady : World → List ℕ → Type 0
AreReady w [] = Unit
AreReady w (j ∷ js) = IsReady w j × AreReady w js

abbrev pub IsLogger : World → ℕ → Logger → Type 0
IsLogger w i l = get_elem? w.loggers i ≡ some l

pub record IsValid (w : World) : Type 0 where
  pub ready : (i : ℕ) (l : Logger) → IsLogger w i l → AreReady w l.appenders
  pub formatted : (i : ℕ) (l : Logger) → IsLogger w i l → (f : Formatter) × (l.formatter ≡ some f)
  pub rooted :
      (i : ℕ) (l : Logger) (r : ℕ)
      → IsLogger w i l
      → l.root ≡ some r
      → (k : Logger) × IsLogger w r k × (k.root ≡ none)
  pub headed : (k : Logger) × IsLogger w w.main k × (k.root ≡ none)

-- What a call of `log` leaves alone.
pub record Keeps (w w' : World) : Type 0 where
  pub loggers : w'.loggers ≡ w.loggers
  pub table : w'.table ≡ w.table
  pub main : w'.main ≡ w.main
  pub ready : (j : ℕ) → IsReady w j → IsReady w' j

pub Keeps-refl : (w : World) → Keeps w w
Keeps-refl w = record { loggers = refl; table = refl; main = refl; ready = λ j r. r }

pub Keeps-trans : {u v w : World} → Keeps u v → Keeps v w → Keeps u w
Keeps-trans k l = record {
  loggers = l.loggers ∙ k.loggers;
  table = l.table ∙ k.table;
  main = l.main ∙ k.main;
  ready = λ j r. l.ready j (k.ready j r);
}

pub AreReady-Keeps : {w w' : World} (js : List ℕ) → Keeps w w' → AreReady w js → AreReady w' js
AreReady-Keeps [] k r = tt
AreReady-Keeps (j ∷ js) k r = (k.ready j r.0, AreReady-Keeps js k r.1)

-- A write of an appender that has a formatter leaves every appender ready that was.
IsReady-set :
    (xs : List Appender) (i j : ℕ) (b : Appender) (g : Formatter)
    → b.formatter ≡ some g
    → (c : Appender) (f : Formatter) → get_elem? xs j ≡ some c
    → c.formatter ≡ some f
    → (d : Appender) × (h : Formatter) × (get_elem? (set xs i b) j ≡ some d)
      × (d.formatter ≡ some h)
IsReady-set [] i j b g e c f h k = cc
IsReady-set (x ∷ xs) zero zero b g e c f h k = (b, g, refl, e)
IsReady-set (x ∷ xs) zero (suc j) b g e c f h k = (c, f, h, k)
IsReady-set (x ∷ xs) (suc i) zero b g e c f h k = (c, f, h, k)
IsReady-set (x ∷ xs) (suc i) (suc j) b g e c f h k = IsReady-set xs i j b g e c f h k

pub Keeps-put :
    (w w' : World) (i : ℕ) (b : Appender) (g : Formatter)
    → b.formatter ≡ some g
    → w'.appenders ≡ set w.appenders i b
    → (w'.loggers ≡ w.loggers) × (w'.table ≡ w.table) × (w'.main ≡ w.main)
    → Keeps w w'
Keeps-put w w' i b g e q (ls, t, m) = record {
  loggers = ls;
  table = t;
  main = m;
  ready = λ j (c, f, h, k).
      let (d, f', n, o) = IsReady-set w.appenders i j b g e c f h k in
      (d, f', ap (λ (l : List Appender). get_elem? l j) q ∙ n, o);
}

Keeps-print :
    (w w' : World) (b : Bool) (t : Text) → Keeps w w' → Keeps w (if b then print w' t else w')
Keeps-print w w' true t k = record {
  loggers = k.loggers;
  table = k.table;
  main = k.main;
  ready = k.ready;
}
Keeps-print w w' false t k = k

emit_file-Keeps :
    (w : World) (i : ℕ) (a : Appender) (name : Text) (s : Stream) (text : Text) (f : Formatter)
    → a.formatter ≡ some f
    → Keeps w (emit_file w i a name s text)
unfolding emit_file
emit_file-Keeps w i a name s text f e =
    let (d1, s1) = prepare w.disk name s in
    let (d2, s2) = write_stream d1 s1 text in
    let b : Appender = record a { sort = file name s2 } in
    Keeps-print w (put_appender (record w { disk = d2 }) i b) s2.failed (codes "error\n")
      (Keeps-put w _ i b f e refl (refl, refl, refl))

module _ (local_time : Text → ℕ → Text) where
  log_sort-Keeps :
      (s : Sort) (w : World) (i : ℕ) (a : Appender) (f : Formatter) (level : Level) (event : Event)
      → get_elem? w.appenders i ≡ some a
      → a.formatter ≡ some f
      → (w' : World) × (log_sort local_time s w i a level event ≡ some w') × Keeps w w'
  unfolding log_sort
  log_sort-Keeps console w i a f level event e h = (
    print w (format (env local_time w) f level event),
    ground arith,
    record { loggers = refl; table = refl; main = refl; ready = λ j r. r },
  )
  log_sort-Keeps (file name s) w i a f level event e h = (
    emit_file w i a name s (format (env local_time w) f level event),
    ground arith,
    emit_file-Keeps w i a name s _ f h,
  )

  appender_log-Keeps :
      (w : World) (j : ℕ) (level : Level) (event : Event)
      → IsReady w j
      → (w' : World) × (appender_log local_time w j level event ≡ some w') × Keeps w w'
  unfolding appender_log
  appender_log-Keeps w j level event (a, f, e, h) = elim (Bool-cases (leb a.level level)) [
    | inl on ↦
        let (w', r, k) = log_sort-Keeps a.sort w j a f level event e h in
        (w', rw (e, appender_log, on) r, k)
    | inr off ↦ (w, rw (e, appender_log, off) refl, Keeps-refl w)
  ]

  log_all-Keeps :
      (js : List ℕ) (w : World) (level : Level) (event : Event)
      → AreReady w js
      → (w' : World) × (log_all local_time w js level event ≡ some w') × Keeps w w'
  unfolding log_all
  log_all-Keeps [] w level event r = (w, refl, Keeps-refl w)
  log_all-Keeps (j ∷ js) w level event (r, rs) =
      let (w1, e, k) = appender_log-Keeps w j level event r in
      let (w2, e2, k2) = log_all-Keeps js w1 level event (AreReady-Keeps js k rs) in
      (w2, rw (e, log_all) e2, Keeps-trans k k2)

  -- One logger's turn, given what its root does if it comes to that.
  log-Keeps :
      (fuel : ℕ) (w : World) (i : ℕ) (l : Logger) (level : Level) (event : Event)
      → IsLogger w i l
      → AreReady w l.appenders
      → ((r : ℕ)
          → l.root ≡ some r
          → (w' : World) × (log local_time fuel w r level event ≡ some w') × Keeps w w')
      → (w' : World) × (log local_time (suc fuel) w i level event ≡ some w') × Keeps w w'
  unfolding log
  log-Keeps fuel w i l level event e ready up = elim (Bool-cases (leb l.level level)) [
    | inr off ↦ (w, rw (e, log, off) refl, Keeps-refl w)
    | inl on ↦ elim (Bool-cases (is_empty l.appenders)) [
      | inr some_ ↦
          let (w', r, k) = log_all-Keeps l.appenders w level event ready in
          (w', rw (e, log, on, some_) r, k)
      | inl none_ ↦ elim (Option-cases l.root) [
        | inl top ↦ (w, rw (e, log, on, none_, top) refl, Keeps-refl w)
        | inr (r, q) ↦ let (w', d, k) = up r q in (w', rw (e, log, on, none_, q) d, k)
      ]
    ]
  ]

  -- In a valid store a call of `log` comes to an end with no null pointer: it reaches the main
  -- logger at most, and leaves loggers, the manager's map and the formatters' pointers alone.
  pub log_event_total :
      (w : World) (i : ℕ) (l : Logger) (level : Level) (event : Event)
      → IsValid w
      → IsLogger w i l
      → (w' : World) × (log_event local_time w i level event ≡ some w') × Keeps w w'
  unfolding log_event
  log_event_total w i l level event v e = log-Keeps 1 w i l level event e (v.ready i l e) λ r q.
      let (k, h, top) = v.rooted i l r e q in
      log-Keeps 0 w r k level event h (v.ready r k h) λ r' q'. absurd (ground (arith, top, q'))

-- So such a call keeps the store valid.
pub Keeps-IsValid : {w w' : World} → Keeps w w' → IsValid w → IsValid w'
Keeps-IsValid {w} {w'} k v = record {
  ready = λ i l e. AreReady-Keeps l.appenders k (v.ready i l (ap (at i) (sym k.loggers) ∙ e));
  formatted = λ i l e. v.formatted i l (ap (at i) (sym k.loggers) ∙ e);
  rooted = λ i l r e q.
      let (h, n, o) = v.rooted i l r (ap (at i) (sym k.loggers) ∙ e) q in
      (h, ap (at r) k.loggers ∙ n, o);
  headed = let (h, n, o) = v.headed in (h, rw (k.main, k.loggers) n, o);
}
  where
    at : ℕ → List Logger → Option Logger
    at i l = get_elem? l i
