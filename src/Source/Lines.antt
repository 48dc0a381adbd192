-- ===== src/Source/Lines.antt =====
-- The binary search finds the line of a position, and the column counts from that line's start.
use brasa.Prelude.{
  ℕ, zero, suc, ◌+◌, ◌-◌, ◌/◌, ◌%◌, ◌^◌, ◌≤◌, ◌<◌, ◌≡◌, refl, sym, ap, ◌∙◌, List, [], ◌∷◌, true,
  some, leb, ltb, length, get_elem?, take, drop, ◌==◌, arith, Bool-cases, inl, inr, eq_of_some,
  get_elem?_of_lt, ◌++◌, All, if◌then◌else◌,
}
use brasa.Source.{
  newline, starts_from, compute_line_starts, search, upper_bound_line, unicode_column, slice, new,
  display_line_col,
}
use brasa.Source.Scalars.{IsScalar, encode_scalar, utf8}
use brasa.Source.Columns.{unicode_column-utf8}
use brasa.Source.Starts.{
  count_lines, last_line, last_line-id, starts-newline, starts-other, starts_from-lt,
  starts_from-count_lines,
}

last_line-cons :
    (b : ℕ) (bytes : List ℕ) (n : ℕ)
    → count_lines (b ∷ bytes) ≡ suc n
    → last_line (b ∷ bytes) ≡ last_line bytes
last_line-cons b bytes n e = ground arith

length-starts_from :
    (ix : ℕ) (bytes : List ℕ)
    → ix + length bytes < 2 ^ 32
    → length (starts_from ix bytes) ≡ count_lines bytes
unfolding starts_from
length-starts_from ix [] h = refl
length-starts_from ix (b ∷ bytes) h = elim (Bool-cases (b == newline)) [
  | inl t ↦ rw t (ap suc (length-starts_from (suc ix) bytes (omega arith)))
  | inr f ↦ rw f (length-starts_from (suc ix) bytes (omega arith))
]

count_lines-take : (p : ℕ) (bytes : List ℕ) → count_lines (take p bytes) ≤ count_lines bytes
count_lines-take zero bytes = omega arith
count_lines-take (suc p) [] = omega arith
count_lines-take (suc p) (b ∷ bytes) = ground (arith, count_lines-take p bytes)

-- The last newline of the first `p` bytes ends where the line starts.
drop-last_line :
    (ix : ℕ) (bytes : List ℕ) (p m start : ℕ)
    → ix + length bytes < 2 ^ 32
    → count_lines (take p bytes) ≡ suc m
    → get_elem? (starts_from ix bytes) m ≡ some start
    → drop (start - ix) (take p bytes) ≡ last_line (take p bytes)
drop-last_line ix [] zero m start h c e = cc
drop-last_line ix [] (suc p) m start h c e = cc
drop-last_line ix (b ∷ bytes) zero m start h c e = cc
drop-last_line ix (b ∷ bytes) (suc p) m start h c e = elim (Bool-cases (b == newline)) [
  | inr f ↦
      let e' = sym (ap (λ xs. get_elem? xs m) (starts-other ix b bytes f)) ∙ e in
      let c' : count_lines (take p bytes) ≡ suc m = ground arith in
      behind m start c (starts_from-lt (suc ix) bytes m start (omega arith) e')
        (drop-last_line (suc ix) bytes p m start (omega arith) c' e')
  | inl t ↦
      let c' : count_lines (take p bytes) ≡ m = ground arith in
      first m c c' (sym (ap (λ xs. get_elem? xs m) (starts-newline ix b bytes t (omega arith))) ∙ e)
        (λ k d g. drop-last_line (suc ix) bytes p k start (omega arith) d g)
]
  where
    behind :
        (k s : ℕ)
        → count_lines (b ∷ take p bytes) ≡ suc k
        → suc ix < s
        → drop (s - suc ix) (take p bytes) ≡ last_line (take p bytes)
        → drop (s - ix) (b ∷ take p bytes) ≡ last_line (b ∷ take p bytes)
    behind k s d lt g =
        let more : s - ix ≡ suc (s - suc ix) = omega arith in
        rw more (g ∙ sym (last_line-cons b (take p bytes) k d))

    first :
        (k : ℕ)
        → count_lines (b ∷ take p bytes) ≡ suc k
        → count_lines (take p bytes) ≡ k
        → get_elem? (suc ix ∷ starts_from (suc ix) bytes) k ≡ some start
        → ((j : ℕ)
            → count_lines (take p bytes) ≡ suc j
            → get_elem? (starts_from (suc ix) bytes) j ≡ some start
            → drop (start - suc ix) (take p bytes) ≡ last_line (take p bytes))
        → drop (start - ix) (b ∷ take p bytes) ≡ last_line (b ∷ take p bytes)
    first zero d c' g rest =
        let one : start - ix ≡ 1 = omega (arith, eq_of_some g) in
        rw one (sym (last_line-cons b (take p bytes) zero d ∙ last_line-id (take p bytes) c'))
    first (suc k) d c' g rest =
        behind (suc k) start d (starts_from-lt (suc ix) bytes k start (omega arith) g) (rest k c' g)

module _ (starts : List ℕ) (pos line : ℕ) where
  -- `line` is the last entry that is at most `pos`.
  abbrev pub IsLast : Type 0
  IsLast =
      (m start : ℕ)
      → get_elem? starts m ≡ some start
      → (start ≤ pos → m ≤ line) × (m ≤ line → start ≤ pos)

  search-IsLast :
      (fuel lo hi : ℕ)
      → IsLast
      → lo ≤ line
      → line < hi
      → hi ≤ length starts
      → hi ≤ fuel + lo
      → search fuel starts pos lo hi ≡ some line
  unfolding search
  search-IsLast zero lo hi last low high size enough = absurd (omega arith)
  search-IsLast (suc fuel) lo hi last low high size enough = elim (Bool-cases (ltb (lo + 1) hi)) [
    | inr f ↦ let here : lo ≡ line = ground arith in rw f (ap some here)
    | inl t ↦
        let mid = (lo + hi) / 2 in
        let wide : lo + 1 < hi = ground arith in
        let (start, at) = get_elem?_of_lt starts mid (omega arith) in
        let (to, from) = last mid start at in
        elim (Bool-cases (leb start pos)) [
          | inl r ↦
              let below : start ≤ pos = ground arith in
              rw (t, at, r) (search-IsLast fuel mid hi last (to below) high size (omega arith))
          | inr l ↦
              let above : line < mid = ground arith in
              rw (t, at, l) (search-IsLast fuel lo mid last low above (omega arith) (omega arith))
        ]
  ]

-- The table of a text, against the newlines of its first `pos` bytes.
compute_line_starts-IsLast :
    (text : List ℕ) (pos : ℕ)
    → length text < 2 ^ 32
    → IsLast (compute_line_starts text) pos (count_lines (take pos text))
unfolding compute_line_starts
compute_line_starts-IsLast text pos h zero start e =
    (λ k. omega arith, λ k. omega (arith, eq_of_some e))
compute_line_starts-IsLast text pos h (suc m) start e =
    let (to, from) = starts_from-count_lines 0 text pos m start (omega arith) e in
    (λ k. let q = to (omega arith) in omega arith, λ k. let q = from (omega arith) in omega arith)

start-drop :
    (text : List ℕ) (pos line start : ℕ)
    → length text < 2 ^ 32
    → count_lines (take pos text) ≡ line
    → get_elem? (compute_line_starts text) line ≡ some start
    → drop start (take pos text) ≡ last_line (take pos text)
unfolding compute_line_starts
start-drop text pos zero start h c e =
    ap (λ n. drop n (take pos text)) (sym (eq_of_some e)) ∙ sym (last_line-id (take pos text) c)
start-drop text pos (suc m) start h c e =
    let whole : start ≡ start - 0 = omega arith in
    ap (λ n. drop n (take pos text)) whole ∙ drop-last_line 0 text pos m start (omega arith) c e

length-compute_line_starts :
    (text : List ℕ)
    → length text < 2 ^ 32
    → length (compute_line_starts text) ≡ suc (count_lines text)
unfolding compute_line_starts
length-compute_line_starts text h = ap suc (length-starts_from 0 text (omega arith))

display_line_col-unicode_column :
    (path text : List ℕ) (pos : ℕ)
    → length text < 2 ^ 32
    → pos ≤ length text
    → display_line_col (new path text) pos
      ≡ some (
        count_lines (take pos text) % 2 ^ 32 + 1,
        unicode_column (last_line (take pos text)) % 2 ^ 32 + 1,
      )
unfolding display_line_col new upper_bound_line slice
display_line_col-unicode_column path text pos h inside =
    let line = count_lines (take pos text) in
    let last = compute_line_starts-IsLast text pos h in
    let rows = length-compute_line_starts text h in
    let found =
      search-IsLast (compute_line_starts text) pos line (length (compute_line_starts text)) 0
        (length (compute_line_starts text)) last (omega arith)
        (omega (arith, count_lines-take pos text)) (omega arith) (omega arith) in
    let (start, at) =
      get_elem?_of_lt (compute_line_starts text) line (omega (arith, count_lines-take pos text)) in
    let low : leb start pos ≡ true = let k = (last line start at).1 (omega arith) in ground arith in
    let high : leb pos (length text) ≡ true = ground arith in
    rw (found, at, low, high, start-drop text pos line start h refl at) refl

-- In a text of less than 2^32 bytes, a position up to its end is shown at the line that the newlines
-- before it count, from 1 on. Where the bytes between the last of them and the position are the UTF-8
-- encoding of some scalars, with the first `k` bytes of the encoding of one more, the column is, from
-- 1 on, the number of the scalars when `k` is 0, and the number of the bytes when the position
-- stands inside of that last scalar.
pub display_line_col-last_line :
    (path text cs : List ℕ) (pos c k : ℕ)
    → length text < 2 ^ 32
    → pos ≤ length text
    → All IsScalar cs
    → k < length (encode_scalar c)
    → last_line (take pos text) ≡ utf8 cs ++ take k (encode_scalar c)
    → display_line_col (new path text) pos
      ≡ some (
        count_lines (take pos text) % 2 ^ 32 + 1,
        (if k == 0 then length cs else length (last_line (take pos text))) % 2 ^ 32 + 1,
      )
display_line_col-last_line path text cs pos c k h inside valid cut e =
    rw
      (
        display_line_col-unicode_column path text pos h inside,
        e,
        unicode_column-utf8 cs c k valid cut,
      )
      refl
