-- ===== src/Thread/Released.antt =====
-- A `Thread` gives its thread back to the system once.
use final_designer.Prelude.{
  ℕ, true, false, List, [], Text, ◌∷◌, ◌++◌, ℤ, ◌≡◌, ◌≢◌, refl, ◌∙◌, ap, any, ◌==◌, ==_iff,
  if◌then◌else◌, Bool-cases, inl, inr,
}
use final_designer.Thread.Handle.{joined, detached, Handle, join, delete, joins}
use final_designer.Thread.Start.{is_code}

joins_free : (rts : List ℤ) (h : Handle) → h.m_thread ≡ 0 → joins rts h ≡ h
unfolding joins
joins_free [] h e = refl
joins_free (rt ∷ rts) h e =
    let same : (join rt h).0 ≡ h = unfold join in rw e refl in
    ap (joins rts) same ∙ joins_free rts h e

not_zero : (n : ℕ) → n ≢ 0 → (n == 0) ≡ false
not_zero n k = elim (Bool-cases (n == 0)) [ inl y ↦ absurd (k ((==_iff n 0).0 y)) | inr y ↦ y ]

join_done :
    (rt : ℤ) (h : Handle)
    → h.m_thread ≢ 0
    → is_code rt 0 ≡ true
    → (join rt h).0 ≡ record h { m_thread = 0; releases = h.releases ++ joined h.m_thread ∷ [] }
unfolding join
join_done rt h k y = rw (not_zero h.m_thread k, y) refl

join_failed :
    (rt : ℤ) (h : Handle)
    → h.m_thread ≢ 0
    → is_code rt 0 ≡ false
    → (log : List Text) × ((join rt h).0 ≡ record h { log = log })
unfolding join
join_failed rt h k y = ((join rt h).0.log, rw (not_zero h.m_thread k, y) refl)

-- Whatever calls of `join` succeed or fail before a `Thread` is destroyed, its thread is given back
-- once: joined if any of the calls succeeded, and detached by the destructor otherwise.
joins-delete :
    (rts : List ℤ) (h : Handle)
    → h.m_thread ≢ 0
    → (delete (joins rts h)).releases
      ≡ h.releases
        ++ (if any (λ rt. is_code rt 0) rts then joined h.m_thread else detached h.m_thread) ∷ []
unfolding joins delete
joins-delete [] h k = rw (not_zero h.m_thread k, delete) refl
joins-delete (rt ∷ rts) h k = elim (Bool-cases (is_code rt 0)) [
  | inl y ↦
      let free : Handle = record h {
        m_thread = 0;
        releases = h.releases ++ joined h.m_thread ∷ [];
      } in
      ap (λ g. (delete (joins rts g)).releases) (join_done rt h k y)
      ∙ (ap (λ g. (delete g).releases) (joins_free rts free refl) ∙ rw y refl)
  | inr y ↦
      let (log, e) = join_failed rt h k y in
      ap (λ g. (delete (joins rts g)).releases) e
      ∙ (joins-delete rts (record h { log = log }) k ∙ rw y refl)
]
