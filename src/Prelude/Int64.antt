-- ===== src/Prelude/Int64.antt =====
-- Go's `int`, `int64` and `time.Duration` on a 64-bit platform: a value is its two's complement
-- bit pattern, a number below 2^64, with the wrap-around of each operation written out.
use netforge.Prelude.{ℕ, ◌+◌, ◌-◌, ◌%◌, ◌^◌, ◌≤◌, ◌<◌, ◌≡◌, Bool, arith, ltb, leb}

abbrev pub Int64 : Type 0
Int64 = ℕ

abbrev pub add64 : Int64 → Int64 → Int64
add64 a b = (a + b) % 2 ^ 64

abbrev pub sub64 : Int64 → Int64 → Int64
sub64 a b = (a + (2 ^ 64 - b)) % 2 ^ 64

-- The signed order is the unsigned order of the patterns with the sign bit flipped.
abbrev pub rank : Int64 → ℕ
rank a = (a + 2 ^ 63) % 2 ^ 64

abbrev pub lt64 : Int64 → Int64 → Bool
lt64 a b = ltb (rank a) (rank b)

abbrev pub le64 : Int64 → Int64 → Bool
le64 a b = leb (rank a) (rank b)

-- The pattern of a non-negative value.
abbrev pub IsNonneg : Int64 → Type 0
IsNonneg a = a < 2 ^ 63

-- The pattern of -1.
abbrev pub minus_one : Int64
minus_one = 2 ^ 64 - 1

pub lt64-ltb : (a b : Int64) → IsNonneg a → IsNonneg b → lt64 a b ≡ ltb a b
lt64-ltb a b ha hb = ground arith

pub le64-leb : (a b : Int64) → IsNonneg a → IsNonneg b → le64 a b ≡ leb a b
le64-leb a b ha hb = ground arith

pub add64-eq-add : (a b : Int64) → a + b < 2 ^ 63 → add64 a b ≡ a + b
add64-eq-add a b h = omega arith

pub sub64-eq-sub : (a b : Int64) → b ≤ a → a < 2 ^ 63 → sub64 a b ≡ a - b
sub64-eq-sub a b h k = omega arith
