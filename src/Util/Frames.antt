-- ===== src/Util/Frames.antt =====
-- What a backtrace is made of.
use final_designer.Prelude.{
  ℕ, ◌+◌, ◌≡◌, refl, sym, ap, ◌∙◌, List, [], ◌∷◌, ◌++◌, Text, some, length, drop, append_assoc,
  append-nil, get_elem?-drop, drop_behind, length-drop,
}
use final_designer.Util.{push_frames, backtrace}

push_frames-drop :
    (strings rest : List Text) (i : ℕ) (bt : List Text)
    → drop i strings ≡ rest
    → push_frames strings i (length rest) bt ≡ bt ++ rest
unfolding push_frames
push_frames-drop strings [] i bt e = sym (append-nil bt)
push_frames-drop strings (s ∷ rest) i bt e =
    rw (get_elem?-drop i strings rest s e, push_frames)
      (push_frames-drop strings rest (i + 1) (bt ++ s ∷ []) (drop_behind i strings rest s e)
        ∙ append_assoc bt (s ∷ []) rest)

-- If the frames are as many as their names, a backtrace has the names of all frames but the first
-- `skip`, in order, behind what the vector held.
pub backtrace-drop :
    (strings : List Text) (skip : ℕ) (bt : List Text)
    → backtrace (length strings) (some strings) skip bt ≡ (bt ++ drop skip strings, [])
unfolding backtrace
backtrace-drop strings skip bt =
    ap (λ l. (l, []))
      (rw (length-drop skip strings) at (push_frames-drop strings (drop skip strings) skip bt refl))
