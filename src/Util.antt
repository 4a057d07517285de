-- ===== src/Util.antt =====
-- nnysl/util.cpp: the text of a backtrace. The system's `backtrace` and `backtrace_symbols` are
-- parameters: how many frames there are, and their names, or none for a null pointer.
pub mod Frames
pub mod Assert
pub mod Singleton
use final_designer.Prelude.{
  ℕ, zero, suc, ◌+◌, ◌-◌, List, [], ◌∷◌, ◌++◌, Text, codes, Option, none, some, get_elem?,
}

-- `GetFiberId`
abbrev pub get_fiber_id : ℕ
get_fiber_id = 0

-- The loop of `Backtrace` from `i`, over as many frames as are left; a frame out of range, which the
-- array does not have, is not reached.
unfoldable pub push_frames : List Text → ℕ → ℕ → List Text → List Text
push_frames strings i zero bt = bt
push_frames strings i (suc left) bt =
    push_frames strings (i + 1) left
      (elim (get_elem? strings i) [ none ↦ bt | some string ↦ bt ++ string ∷ [] ])

-- `Backtrace`, with the entries of the log.
unfoldable pub backtrace : ℕ → Option (List Text) → ℕ → List Text → List Text × List Text
unfolding push_frames
backtrace s symbols skip bt = elim symbols [
  | none ↦ (bt, codes "backtrace_synbols error" ∷ [])
  | some strings ↦ (push_frames strings skip (s - skip) bt, [])
]

-- The loop of `BacktraceToString`.
unfoldable frame_lines : Text → List Text → Text
frame_lines prefix [] = []
frame_lines prefix (frame ∷ frames) = prefix ++ (frame ++ b'\n' ∷ frame_lines prefix frames)

-- `BacktraceToString`
unfoldable pub backtrace_to_string : ℕ → Option (List Text) → ℕ → Text → Text
unfolding backtrace frame_lines
backtrace_to_string s symbols skip prefix = frame_lines prefix (backtrace s symbols skip []).0
