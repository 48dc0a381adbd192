-- ===== src/Heap/Interner.antt =====
-- The interner of string constants. A shared string is the position of its content in `table`, which
-- holds each content once; the set's order does not matter.
use brasa.Prelude.{
  ℕ, zero, suc, ◌+◌, ◌<◌, ◌≡◌, refl, sym, ap, ◌∙◌, List, [], ◌∷◌, ◌++◌, true, Option, none, some,
  if◌then◌else◌, length, get_elem?, arith, Bool-cases, Option-cases, inl, inr, eq_of_some,
  get_elem?-push, get_elem?-snoc, ◌≢◌, text_eq, text_eq_refl, eq_of_text_eq, get_elem?-append_left,
  length-append, lt_of_get_elem?,
}
use brasa.Value.{Text}

pub record Interner : Type 0 where
  pub table : List Text
  pub hits : ℕ

unfoldable pub find_text : Text → List Text → Option ℕ
find_text content [] = none
find_text content (t ∷ table) =
    let rest = find_text content table in
    if text_eq t content then some 0 else elim rest [ none ↦ none | some ix ↦ some (suc ix) ]

abbrev interned : Interner → Text → Option ℕ → Interner × ℕ
interned i content (some shared) = (record i { hits = i.hits + 1 }, shared)
interned i content none = (record i { table = i.table ++ content ∷ [] }, length i.table)

unfoldable pub intern : Interner → Text → Interner × ℕ
intern i content = interned i content (find_text content i.table)

-- Equal contents are at one position.
abbrev pub IsShared : List Text → Type 0
IsShared table =
    (a b : ℕ) (t : Text) → get_elem? table a ≡ some t → get_elem? table b ≡ some t → a ≡ b

found :
    (content : Text) (table : List Text) (ix : ℕ)
    → find_text content table ≡ some ix
    → get_elem? table ix ≡ some content
unfolding find_text
found content [] ix e = cc
found content (t ∷ table) ix e = elim (Bool-cases (text_eq t content)) [
  | inl h ↦
      let here : 0 ≡ ix = ground arith in
      ap (get_elem? (t ∷ table)) (sym here) ∙ ap some (eq_of_text_eq t content h)
  | inr n ↦ elim (Option-cases (find_text content table)) [
    | inl g ↦ absurd (ground arith)
    | inr (j, g) ↦
        let here : suc j ≡ ix = ground arith in
        ap (get_elem? (t ∷ table)) (sym here) ∙ found content table j g
  ]
]

absent :
    (content : Text) (table : List Text) (ix : ℕ)
    → find_text content table ≡ none
    → get_elem? table ix ≢ some content
unfolding find_text
absent content [] ix e h = cc
absent content (t ∷ table) zero e h =
    let same : t ≡ content = eq_of_some h in
    let hit : text_eq t content ≡ true = ap (λ u. text_eq u content) same ∙ text_eq_refl content in
    ground arith
absent content (t ∷ table) (suc ix) e h =
    absent content table ix
      (elim (Option-cases (find_text content table)) [
        | inl g ↦ g
        | inr (j, g) ↦ absurd (ground arith)
      ])
      h

-- What interning `content` does: `r` is its shared string.
pub record Interns (i : Interner) (content : Text) (i' : Interner) (r : ℕ) : Type 0 where
  pub reads : get_elem? i'.table r ≡ some content
  pub kept : (j : ℕ) → j < length i.table → get_elem? i'.table j ≡ get_elem? i.table j
  pub shared : IsShared i'.table
  pub counted : i'.hits + length i'.table ≡ suc (i.hits + length i.table)

push-IsShared :
    (table : List Text) (content : Text)
    → find_text content table ≡ none
    → IsShared table
    → IsShared (table ++ content ∷ [])
push-IsShared table content n v a b t f g = elim (get_elem?-snoc table content t a f) [
  | inl (la, ea) ↦ elim (get_elem?-snoc table content t b g) [
    | inl (lb, eb) ↦ v a b t ea eb
    | inr (lb, eb) ↦ absurd (absent content table a n (ea ∙ ap some (sym eb)))
  ]
  | inr (la, ea) ↦ elim (get_elem?-snoc table content t b g) [
    | inl (lb, eb) ↦ absurd (absent content table b n (eb ∙ ap some (sym ea)))
    | inr (lb, eb) ↦ la ∙ sym lb
  ]
]

-- Where equal contents are shared, interning answers a string with the content, keeps the strings
-- that were handed out, and keeps equal contents shared; it is a hit or adds one content.
pub intern-Interns :
    (i : Interner) (content : Text)
    → IsShared i.table
    → Interns i content (intern i content).0 (intern i content).1
unfolding intern
intern-Interns i content v = elim (Option-cases (find_text content i.table)) [
  | inr (r, e) ↦ rw e (record {
    reads = found content i.table r e;
    kept = λ j lt. refl;
    shared = v;
    counted = omega arith;
  })
  | inl n ↦ rw n (record {
    reads = get_elem?-push i.table content;
    kept = λ j lt. get_elem?-append_left i.table (content ∷ []) j lt;
    shared = push-IsShared i.table content n v;
    counted = omega (arith, length-append i.table (content ∷ []));
  })
]

-- Interning a content again answers the same string.
pub intern-again :
    (i : Interner) (content other : Text)
    → IsShared i.table
    → let first = intern i content in
      let between = intern first.0 other in (intern between.0 content).1 ≡ first.1
intern-again i content other v =
    let a = intern-Interns i content v in
    let b = intern-Interns (intern i content).0 other a.shared in
    let c = intern-Interns (intern (intern i content).0 other).0 content b.shared in
    let later = b.kept (intern i content).1 (lt_of_get_elem? _ _ a.reads) ∙ a.reads in
    let still = c.kept (intern i content).1 (lt_of_get_elem? _ _ later) ∙ later in
    c.shared _ _ content c.reads still
