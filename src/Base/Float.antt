-- ===== src/Base/Float.antt =====
-- Python's `float`, where it is not negative, not infinite and not subnormal, and `int(n * x)`.
use Prim.Native.Nat.{ℕ, zero, suc, ◌+◌, ◌*◌, ◌/◌, ◌%◌, ◌^◌}
use mathlib.Core.Path.{◌≡◌, refl}
use mathlib.Core.Bool.{true, false, ◌&&◌, ◌||◌}
use boardroom_os.Base.Tests.{ltb, nat_eq, ◌==◌, if◌then◌else◌}

-- `mantissa / 2 ^ scale`
pub record Float : Type 0 where
  pub mantissa : ℕ
  pub scale : ℕ

-- How many binary digits a number has beyond the 53 that a float keeps.
unfoldable pub excess : (fuel : ℕ) → ℕ → ℕ
excess zero p = 0
excess (suc fuel) p = elim (ltb p (2 ^ 53)) [ true ↦ 0 | false ↦ suc (excess fuel (p / 2)) ]

-- To the nearest multiple of `unit`, and to the even one of two.
unfoldable pub round_to : (unit : ℕ) → ℕ → ℕ
round_to unit p =
    let q = p / unit in
    let r = p % unit in
    if ltb unit (2 * r) || (2 * r == unit && q % 2 == 1) then (q + 1) * unit else q * unit

-- To the nearest number with 53 binary digits, scaled by a power of two. A float is below 2 ^ 1024,
-- so the fuel is enough for a float and for the product of one with a mantissa.
unfoldable pub round_float : ℕ → ℕ
unfolding excess round_to
round_float p = round_to (2 ^ excess 1100 p) p

-- `int(n * x)`, where the product is finite: the integer is rounded to a float, the product is rounded
-- to one, and that is rounded down. Where a product is infinite Python raises.
unfoldable pub int_times : ℕ → Float → ℕ
unfolding round_float
int_times n x = round_float (round_float n * x.mantissa) / 2 ^ x.scale

abbrev one_and_a_half : Float
one_and_a_half = record { mantissa = 3; scale = 1 }

-- `1.7`, which is a little less than that, and `10 * 1.7`, which is rounded to 17.
abbrev one_point_seven : Float
one_point_seven = record { mantissa = 7656119366529843; scale = 52 }

times_one_and_a_half : int_times 601 one_and_a_half ≡ 901
unfolding int_times round_float excess round_to
times_one_and_a_half = refl

times_one_point_seven : int_times 10 one_point_seven ≡ 17
unfolding int_times round_float excess round_to
times_one_point_seven = refl

-- 9007199254740993 is no float, and becomes 9007199254740992.
times_one : int_times 9007199254740993 (record { mantissa = 1; scale = 0 }) ≡ 9007199254740992
unfolding int_times round_float excess round_to
times_one = refl
