-- ===== src/Source/Tests.antt =====
-- Positions in short texts, one of them with a two-byte scalar.
use brasa.Prelude.{
  ℕ, ◌+◌, ◌%◌, ◌^◌, ◌≡◌, refl, List, [], ◌∷◌, some, none, arith, take, length, inl, if◌then◌else◌,
  ◌==◌,
}
use brasa.Source.{
  starts_from, compute_line_starts, search, upper_bound_line, unicode_column, slice, new,
  display_line_col,
}
use brasa.Source.Utf8.{chars}
use brasa.Source.Starts.{count_lines, last_line}
use brasa.Bytecode.{Span}
use brasa.Source.Spans.{len, merge}
use brasa.Source.Lines.{display_line_col-last_line}

-- "aéb" and "ab", LF, "cd".
abbrev accent : List ℕ
accent = 97 ∷ 195 ∷ 169 ∷ 98 ∷ []

abbrev two_lines : List ℕ
two_lines = 97 ∷ 98 ∷ 10 ∷ 99 ∷ 100 ∷ []

run_accent : display_line_col (new [] accent) 3 ≡ some (1, 3)
unfolding display_line_col new upper_bound_line search compute_line_starts starts_from slice
    unicode_column chars
run_accent = refl

run_two_lines : display_line_col (new [] two_lines) 4 ≡ some (2, 2)
unfolding display_line_col new upper_bound_line search compute_line_starts starts_from slice
    unicode_column chars
run_two_lines = refl

run_overlong : chars (192 ∷ 128 ∷ []) ≡ none
unfolding chars
run_overlong = refl

-- "a", LF, "éb".
abbrev accent_line : List ℕ
accent_line = 97 ∷ 10 ∷ 195 ∷ 169 ∷ 98 ∷ []

-- Inside of the second line's first scalar, where the bytes count.
run_inside : display_line_col (new [] (10 ∷ 226 ∷ 130 ∷ 172 ∷ [])) 3 ≡ some (2, 3)
unfolding display_line_col new upper_bound_line search compute_line_starts starts_from slice
    unicode_column chars
run_inside = refl

display_line_col-last_line_example :
    display_line_col (new [] accent_line) 4
    ≡ some (
      count_lines (take 4 accent_line) % 2 ^ 32 + 1,
      (if 0 == 0 then 1 else length (last_line (take 4 accent_line))) % 2 ^ 32 + 1,
    )
display_line_col-last_line_example =
    display_line_col-last_line [] accent_line (233 ∷ []) 4 98 0 (omega arith) (omega arith)
      (inl (omega arith), tt) (omega arith) refl

abbrev left : Span
left = record { start = 2; end = 4; file = 0 }

abbrev right : Span
right = record { start = 6; end = 9; file = 0 }

run_merge : len (merge left right) ≡ 7
unfolding len merge
run_merge = refl
