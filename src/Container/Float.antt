-- ===== src/Container/Float.antt =====
-- The rounding of a Python float. An amount or a level is a multiple of 2 ^ -1074, the smallest
-- positive float, and stands as the natural number of such units; the sum or the difference of two
-- floats is the exact one, rounded to 53 significant bits, and halfway to an even last bit. A sum
-- past the largest float stays a number above all capacities, as `inf` is.
use sose.Prelude.{if◌then◌else◌, ltb, suc, zero, ℕ, ◌%◌, ◌*◌, ◌+◌, ◌/◌, ◌==◌, ◌^◌}

-- The distance of neighbouring floats at `n`, from the distance `unit` on. A float has at most 2098
-- bits in this unit.
unfoldable pub spacing : ℕ → ℕ → ℕ → ℕ
spacing zero n unit = unit
spacing (suc bits) n unit =
    let wider = spacing bits n (unit * 2) in if ltb n (unit * 2 ^ 53) then unit else wider

abbrev nearest : ℕ → ℕ → ℕ → ℕ
nearest unit q r =
    if ltb (2 * r) unit
    then q * unit
    else if ltb unit (2 * r)
    then (q + 1) * unit
    else if q % 2 == 0
    then q * unit
    else (q + 1) * unit

unfoldable pub rounded : ℕ → ℕ
unfolding spacing
rounded n = let unit = spacing 2098 n 1 in nearest unit (n / unit) (n % unit)
