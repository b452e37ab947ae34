-- ===== src/Go/Num.antt =====
-- Go's `int` (64 bits) and `int32`, each as its two's complement bit pattern, and `strconv.Itoa`.
use Prim.Native.String.{◌++◌}
use provider_azure.Prelude.{
  ℕ, zero, suc, ◌+◌, ◌-◌, ◌/◌, ◌%◌, ◌^◌, ◌≤◌, ◌<◌, String, ◌≡◌, ◌⊎◌, arith, ltb, if◌then◌else◌,
}

-- The conversion `int32(i)` of an `int` keeps the low 32 bits.
unfoldable pub int32_of_int : ℕ → ℕ
int32_of_int i = i % 2 ^ 32

-- The conversion `int(i)` of an `int32` copies the sign.
unfoldable pub int_of_int32 : ℕ → ℕ
int_of_int32 i = if ltb i (2 ^ 31) then i else i + (2 ^ 64 - 2 ^ 32)

-- An `int` whose value an `int32` can hold: from -2^31 to 2^31 - 1.
abbrev pub FitsInt32 : ℕ → Type 0
FitsInt32 i = (i < 2 ^ 31) ⊎ ((2 ^ 64 - 2 ^ 31 ≤ i) × (i < 2 ^ 64))

pub int_of_int32-int32_of_int : (i : ℕ) → FitsInt32 i → int_of_int32 (int32_of_int i) ≡ i
unfolding int_of_int32 int32_of_int
int_of_int32-int32_of_int i h = ground arith

pub int32_of_int-int_of_int32 : (i : ℕ) → i < 2 ^ 32 → int32_of_int (int_of_int32 i) ≡ i
unfolding int_of_int32 int32_of_int
int32_of_int-int_of_int32 i h = ground arith

abbrev digit : ℕ → String
digit zero = "0"
digit (suc zero) = "1"
digit (suc (suc zero)) = "2"
digit (suc (suc (suc zero))) = "3"
digit (suc (suc (suc (suc zero)))) = "4"
digit (suc (suc (suc (suc (suc zero))))) = "5"
digit (suc (suc (suc (suc (suc (suc zero)))))) = "6"
digit (suc (suc (suc (suc (suc (suc (suc zero))))))) = "7"
digit (suc (suc (suc (suc (suc (suc (suc (suc zero)))))))) = "8"
digit _ = "9"

-- The decimal digits of a number below 10 ^ (fuel + 1), in front of `rest`.
decimal : ℕ → ℕ → String → String
decimal zero n rest = digit (n % 10) ++ rest
decimal (suc fuel) n rest =
    let shorter = decimal fuel (n / 10) (digit (n % 10) ++ rest) in
    if ltb n 10 then digit (n % 10) ++ rest else shorter

-- `strconv.Itoa`: 20 digits are enough for 64 bits.
unfoldable pub itoa : ℕ → String
unfolding decimal
itoa i = if ltb i (2 ^ 63) then decimal 20 i "" else "-" ++ decimal 20 (2 ^ 64 - i) ""
