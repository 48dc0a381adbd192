-- ===== src/Source/Utf8.antt =====
-- Rust's `from_utf8` followed by `chars().count()`: the number of scalars of a valid UTF-8 text.
use brasa.Prelude.{
  ℕ, suc, List, [], ◌∷◌, Bool, Option, none, some, leb, ltb, if◌then◌else◌, ◌==◌, ◌&&◌, ◌||◌,
}

abbrev pub within : ℕ → ℕ → ℕ → Bool
within low high b = leb low b && leb b high

abbrev pub is_tail : ℕ → Bool
is_tail b = within 128 191 b

-- A lead byte and the byte behind it, which rules out overlong forms and surrogates.
abbrev starts_two : ℕ → Bool
starts_two b = within 194 223 b

abbrev pub starts_three : ℕ → ℕ → Bool
starts_three b c =
    (b == 224 && within 160 191 c)
    || (b == 237 && within 128 159 c)
    || ((within 225 236 b || within 238 239 b) && is_tail c)

abbrev pub starts_four : ℕ → ℕ → Bool
starts_four b c =
    (b == 240 && within 144 191 c)
    || (b == 244 && within 128 143 c)
    || (within 241 243 b && is_tail c)

abbrev pub one_more : Option ℕ → Option ℕ
one_more none = none
one_more (some n) = some (suc n)

unfoldable pub chars : List ℕ → Option ℕ
chars [] = some 0
chars (b ∷ []) = if ltb b 128 then some 1 else none
chars (b ∷ c ∷ []) =
    let rest = one_more (chars (c ∷ [])) in
    if ltb b 128 then rest else if starts_two b && is_tail c then some 1 else none
chars (b ∷ c ∷ d ∷ []) =
    let one = one_more (chars (c ∷ d ∷ [])) in
    let two = one_more (chars (d ∷ [])) in
    if ltb b 128
    then one
    else if starts_two b && is_tail c
    then two
    else if starts_three b c && is_tail d
    then some 1
    else none
chars (b ∷ c ∷ d ∷ e ∷ bytes) =
    let one = one_more (chars (c ∷ d ∷ e ∷ bytes)) in
    let two = one_more (chars (d ∷ e ∷ bytes)) in
    let three = one_more (chars (e ∷ bytes)) in
    let four = one_more (chars bytes) in
    if ltb b 128
    then one
    else if starts_two b && is_tail c
    then two
    else if starts_three b c && is_tail d
    then three
    else if starts_four b c && is_tail d && is_tail e
    then four
    else none
