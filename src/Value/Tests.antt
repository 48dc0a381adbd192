-- ===== src/Value/Tests.antt =====
-- Loops over short ranges.
use brasa.Prelude.{◌≡◌, refl, [], ◌∷◌, true, false, arith}
use brasa.Prelude.Int.{pos, negsuc, ◌+ℤ◌}
use brasa.Int64.{max_i64, checked_add, checked}
use brasa.Value.{Value, range_iter}
use brasa.Value.Iter.{drain, next, in_range, advance, ints_from, size, drain-ints_from}

run_range :
    drain 9 (range_iter (negsuc 0) (pos 1) true false)
    ≡ Value.int (negsuc 0) ∷ Value.int (pos 0) ∷ Value.int (pos 1) ∷ []
unfolding drain next in_range advance checked_add checked ◌+ℤ◌
run_range = refl

-- A range up to the largest int ends.
run_largest :
    drain 9 (range_iter (pos max_i64) (pos max_i64) true false) ≡ Value.int (pos max_i64) ∷ []
unfolding drain next in_range advance checked_add checked ◌+ℤ◌
run_largest = refl

drain-ints_from_example :
    drain 9 (range_iter (negsuc 0) (pos 1) true false)
    ≡ ints_from (negsuc 0) (size (negsuc 0) (pos 1) true)
drain-ints_from_example =
    drain-ints_from 9 (negsuc 0) (pos 1) true (omega arith, omega arith) (omega arith, omega arith)
      (omega arith)
