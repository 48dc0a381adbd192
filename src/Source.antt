-- ===== src/Source.antt =====
-- crates/brasa_source/src/file.rs: from a byte offset of a source file to its line and column. A
-- text is its bytes; `none` is an index out of bounds.
pub mod Utf8
pub mod Scalars
pub mod Columns
pub mod Spans
pub mod Starts
pub mod Lines
mod Tests
use brasa.Prelude.{
  ℕ, zero, suc, ◌+◌, ◌/◌, ◌%◌, ◌^◌, List, [], ◌∷◌, Bool, true, false, Option, none, some, leb, ltb,
  if◌then◌else◌, length, get_elem?, take, drop, ◌>>=◌, ◌==◌,
}
use brasa.Source.Utf8.{chars}

abbrev pub newline : ℕ
newline = 10

-- The line starts behind the newlines of `bytes`, whose first byte is at `ix`; a position has 32 bits.
unfoldable pub starts_from : ℕ → List ℕ → List ℕ
starts_from ix [] = []
starts_from ix (b ∷ bytes) =
    let rest = starts_from (suc ix) bytes in if b == newline then (suc ix % 2 ^ 32) ∷ rest else rest

unfoldable pub compute_line_starts : List ℕ → List ℕ
compute_line_starts text = 0 ∷ starts_from 0 text

-- The binary search's loop; the span from `lo` to `hi` bounds its rounds.
unfoldable pub search : ℕ → List ℕ → ℕ → ℕ → ℕ → Option ℕ
search zero starts pos lo hi = some lo
search (suc fuel) starts pos lo hi =
    let mid = (lo + hi) / 2 in
    let right = search fuel starts pos mid hi in
    let left = search fuel starts pos lo mid in
    if ltb (lo + 1) hi
    then (get_elem? starts mid >>= λ start. if leb start pos then right else left)
    else some lo

unfoldable pub upper_bound_line : List ℕ → ℕ → Option ℕ
upper_bound_line starts pos = search (length starts) starts pos 0 (length starts)

-- The scalars of a valid slice, the bytes of any other.
unfoldable pub unicode_column : List ℕ → ℕ
unicode_column slice = elim (chars slice) [ some n ↦ n | none ↦ length slice ]

pub record SourceFile : Type 0 where
  pub path : List ℕ
  pub text : List ℕ
  pub line_starts : List ℕ

unfoldable pub new : List ℕ → List ℕ → SourceFile
new path text = record { path = path; text = text; line_starts = compute_line_starts text }

-- `&bytes[line_start..pos]`
unfoldable pub slice : List ℕ → ℕ → ℕ → Option (List ℕ)
slice bytes start end =
    if leb start end
    then (if leb end (length bytes) then some (drop start (take end bytes)) else none)
    else none

unfoldable pub display_line_col : SourceFile → ℕ → Option (ℕ × ℕ)
display_line_col f pos = do
  line ← upper_bound_line f.line_starts pos
  start ← get_elem? f.line_starts line
  bytes ← slice f.text start pos
  some (line % 2 ^ 32 + 1, unicode_column bytes % 2 ^ 32 + 1)
