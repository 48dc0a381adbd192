-- ===== src/Source/Spans.antt =====
-- crates/brasa_source/src/span.rs: the smallest span around two, and the length of a span.
use brasa.Prelude.{ℕ, ◌-◌, ◌≤◌, ◌≡◌, ◌↔◌, min, max, leb, if◌then◌else◌, arith, Bool, ◌==◌}
use brasa.Bytecode.{Span}

unfoldable pub merge : Span → Span → Span
merge a b = record { start = min a.start b.start; end = max a.end b.end; file = a.file }

unfoldable pub len : Span → ℕ
len s = if leb s.start s.end then s.end - s.start else 0

unfoldable pub is_empty : Span → Bool
unfolding len
is_empty s = len s == 0

-- `inner` lies in `outer`.
abbrev pub IsWithin : Span → Span → Type 0
IsWithin inner outer =
    (inner.file ≡ outer.file) × (outer.start ≤ inner.start) × (inner.end ≤ outer.end)

-- Of two spans of one file the merge is the least span around both: the spans around it are exactly
-- those around both.
pub merge-IsWithin :
    (a b around : Span)
    → a.file ≡ b.file
    → IsWithin (merge a b) around ↔ (IsWithin a around × IsWithin b around)
unfolding merge
merge-IsWithin a b around same = ground arith
