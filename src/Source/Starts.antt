-- ===== src/Source/Starts.antt =====
-- The table of line starts, said by counting newlines: the line of a position is the number of
-- newlines before it, and that line starts behind the last of them.
use brasa.Prelude.{
  ℕ, zero, suc, ◌+◌, ◌%◌, ◌^◌, ◌≤◌, ◌<◌, ◌≡◌, refl, sym, ap, ◌∙◌, List, [], ◌∷◌, true, false, some,
  if◌then◌else◌, length, get_elem?, take, ◌==◌, arith, Bool-cases, inl, inr, eq_of_some,
}
use brasa.Source.{newline, starts_from}

abbrev pub count_lines : List ℕ → ℕ
count_lines [] = 0
count_lines (b ∷ bytes) = if b == newline then suc (count_lines bytes) else count_lines bytes

-- What stands behind the last newline.
abbrev pub last_line : List ℕ → List ℕ
last_line [] = []
last_line (b ∷ bytes) = if count_lines (b ∷ bytes) == 0 then b ∷ bytes else last_line bytes

pub last_line-id : (bytes : List ℕ) → count_lines bytes ≡ 0 → last_line bytes ≡ bytes
last_line-id [] e = refl
last_line-id (b ∷ bytes) e = rw e refl

-- The starts behind a newline, and behind any other byte.
pub starts-newline :
    (ix b : ℕ) (bytes : List ℕ)
    → (b == newline) ≡ true
    → ix + suc (length bytes) < 2 ^ 32
    → starts_from ix (b ∷ bytes) ≡ suc ix ∷ starts_from (suc ix) bytes
unfolding starts_from
starts-newline ix b bytes e h = rw e (ap (λ n. n ∷ starts_from (suc ix) bytes) small)
  where
    small : suc ix % 2 ^ 32 ≡ suc ix
    small = omega arith

pub starts-other :
    (ix b : ℕ) (bytes : List ℕ)
    → (b == newline) ≡ false
    → starts_from ix (b ∷ bytes) ≡ starts_from (suc ix) bytes
unfolding starts_from
starts-other ix b bytes e = rw e refl

-- A start lies behind the byte that the text begins with.
pub starts_from-lt :
    (ix : ℕ) (bytes : List ℕ) (m start : ℕ)
    → ix + length bytes < 2 ^ 32
    → get_elem? (starts_from ix bytes) m ≡ some start
    → ix < start
unfolding starts_from
starts_from-lt ix [] m start h e = cc
starts_from-lt ix (b ∷ bytes) m start h e = elim (Bool-cases (b == newline)) [
  | inr f ↦
      let below =
        starts_from-lt (suc ix) bytes m start (omega arith)
          (sym (ap (λ xs. get_elem? xs m) (starts-other ix b bytes f)) ∙ e) in
      omega arith
  | inl t ↦
      first m (sym (ap (λ xs. get_elem? xs m) (starts-newline ix b bytes t (omega arith))) ∙ e)
        (λ k g. starts_from-lt (suc ix) bytes k start (omega arith) g)
]
  where
    first :
        (k : ℕ)
        → get_elem? (suc ix ∷ starts_from (suc ix) bytes) k ≡ some start
        → ((j : ℕ) → get_elem? (starts_from (suc ix) bytes) j ≡ some start → suc ix < start)
        → ix < start
    first zero g rest = omega (arith, eq_of_some g)
    first (suc k) g rest = omega (arith, rest k g)

abbrev Agree : ℕ → ℕ → ℕ → ℕ → Type 0
Agree start reach m lines = (start ≤ reach → m < lines) × (m < lines → start ≤ reach)

-- A start lies within the first `p` bytes just if fewer newlines than they hold come before it.
pub starts_from-count_lines :
    (ix : ℕ) (bytes : List ℕ) (p m start : ℕ)
    → ix + length bytes < 2 ^ 32
    → get_elem? (starts_from ix bytes) m ≡ some start
    → Agree start (ix + p) m (count_lines (take p bytes))
unfolding starts_from
starts_from-count_lines ix [] p m start h e = cc
starts_from-count_lines ix (b ∷ bytes) zero m start h e =
    let below = starts_from-lt ix (b ∷ bytes) m start h e in
    (λ k. absurd (omega arith), λ k. absurd (omega arith))
starts_from-count_lines ix (b ∷ bytes) (suc p) m start h e = elim (Bool-cases (b == newline)) [
  | inr f ↦
      let (to, from) =
        starts_from-count_lines (suc ix) bytes p m start (omega arith)
          (sym (ap (λ xs. get_elem? xs m) (starts-other ix b bytes f)) ∙ e) in
      rw f (λ k. to (omega arith), λ k. let g = from k in omega arith)
  | inl t ↦ rw t (
      first m (sym (ap (λ xs. get_elem? xs m) (starts-newline ix b bytes t (omega arith))) ∙ e)
        (λ k g. starts_from-count_lines (suc ix) bytes p k start (omega arith) g))
]
  where
    first :
        (k : ℕ)
        → get_elem? (suc ix ∷ starts_from (suc ix) bytes) k ≡ some start
        → ((j : ℕ)
            → get_elem? (starts_from (suc ix) bytes) j ≡ some start
            → Agree start (suc ix + p) j (count_lines (take p bytes)))
        → Agree start (ix + suc p) k (suc (count_lines (take p bytes)))
    first zero g rest = (λ k. omega arith, λ k. omega (arith, eq_of_some g))
    first (suc k) g rest =
        let (to, from) = rest k g in
        (
          λ j. let q = to (omega arith) in omega arith,
          λ j. let q = from (omega arith) in omega arith,
        )
