-- ===== src/Examples/Intervals.antt =====
-- Interval texts of the command line.
use fpd.Base.{ℕ, ◌≡◌, refl, arith, [], ◌∷◌, ◌++◌, ok, err, panicked, debug, release}
use fpd.Cli.Interval.{from_str, invalid_interval, empty_number}
use fpd.Cli.Interval.Decimal.{print}
use fpd.Cli.Interval.Laws.{by_hour, from_str-print, from_str-panicked, from_str-overflow}

-- The texts of the source's own test, and two more.
from_str_30s : from_str debug (b'3' ∷ b'0' ∷ b's' ∷ []) ≡ ok 30
unfolding from_str
from_str_30s = refl

from_str_3d : from_str debug (b'3' ∷ b'd' ∷ []) ≡ err invalid_interval
unfolding from_str
from_str_3d = refl

from_str_h : from_str debug (b'h' ∷ []) ≡ err empty_number
unfolding from_str
from_str_h = refl

print_42 : print 42 ≡ b'4' ∷ b'2' ∷ []
unfolding print
print_42 = refl

from_str-print_example : from_str release (print 2 ++ (b'h' ∷ [])) ≡ ok 7200
from_str-print_example = from_str-print release by_hour 2 (omega arith)

-- `3` and the pilcrow
from_str-panicked_example :
    (from_str release [] ≡ panicked) × (from_str release (b'3' ∷ 194 ∷ 182 ∷ []) ≡ panicked)
from_str-panicked_example =
    from_str-panicked release (b'3' ∷ 194 ∷ []) 182 (omega arith) (omega arith) (omega arith)

abbrev many : ℕ
many = 307445734561825861

from_str-overflow_example :
    (from_str debug (print many ++ (b'm' ∷ [])) ≡ panicked)
    × (from_str release (print many ++ (b'm' ∷ [])) ≡ ok 44)
from_str-overflow_example = from_str-overflow many (omega arith) (omega arith)
