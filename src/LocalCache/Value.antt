-- ===== src/LocalCache/Value.antt =====
-- cache/local_cache: the values of a cache (`interface{}`), and Go's arithmetic on them.
-- An integer is its bit pattern, below two to its width; `int`, `uint` and `uintptr` have 64 bits.
use gkit.Prelude.{ℕ, ◌+◌, ◌-◌, ◌%◌, ◌^◌, Option, none, some, ◌==◌, if◌then◌else◌}

pub data Kind : Type 0 where
  int int8 int16 int32 int64 : Kind
  uint uint8 uint16 uint32 uint64 uintptr : Kind

abbrev pub width : Kind → ℕ
width int8 = 8
width int16 = 16
width int32 = 32
width uint8 = 8
width uint16 = 16
width uint32 = 32
width _ = 64

abbrev pub tag : Kind → ℕ
tag int = 0
tag int8 = 1
tag int16 = 2
tag int32 = 3
tag int64 = 4
tag uint = 5
tag uint8 = 6
tag uint16 = 7
tag uint32 = 8
tag uint64 = 9
tag uintptr = 10

-- What the code takes from Go and from its user: the floating-point types with their operations
-- and conversions, the other values that an `interface{}` may hold, and the callbacks.
pub record Platform : Type 1 where
  pub Float32 : Type 0
  pub Float64 : Type 0
  pub Other : Type 0
  pub Capture : Type 0
  pub add32 : Float32 → Float32 → Float32
  pub sub32 : Float32 → Float32 → Float32
  pub add64 : Float64 → Float64 → Float64
  pub sub64 : Float64 → Float64 → Float64
  pub int_to_float32 : ℕ → Float32
  pub int_to_float64 : ℕ → Float64
  pub narrow : Float64 → Float32

-- `a + T(n)` and `a - T(n)` at an integer type of `w` bits: `T(n)` keeps the low bits.
unfoldable pub add_word : ℕ → ℕ → ℕ → ℕ
add_word w a n = (a + n % 2 ^ w) % 2 ^ w

unfoldable pub sub_word : ℕ → ℕ → ℕ → ℕ
sub_word w a n = (a + (2 ^ w - n % 2 ^ w)) % 2 ^ w

module _ (p : Platform) where
  pub data Value : Type 0 where
    num : Kind → ℕ → Value
    float32 : p.Float32 → Value
    float64 : p.Float64 → Value
    other : p.Other → Value

-- The type assertions `v.Val.(T)`.
module _ {p : Platform} where
  unfoldable pub as_kind : Kind → Value p → Option ℕ
  as_kind k (Value.num j a) = if tag j == tag k then some a else none
  as_kind k _ = none

  unfoldable pub as_float32 : Value p → Option p.Float32
  as_float32 (Value.float32 f) = some f
  as_float32 _ = none

  unfoldable pub as_float64 : Value p → Option p.Float64
  as_float64 (Value.float64 f) = some f
  as_float64 _ = none

  -- The switch of `Increment`, for an int64 `n`; `none` is its default case.
  unfoldable pub increment_value : ℕ → Value p → Option (Value p)
  unfolding add_word
  increment_value n (Value.num k a) = some (Value.num k (add_word (width k) a n))
  increment_value n (Value.float32 f) = some (Value.float32 (p.add32 f (p.int_to_float32 n)))
  increment_value n (Value.float64 f) = some (Value.float64 (p.add64 f (p.int_to_float64 n)))
  increment_value n (Value.other x) = none

  -- The switch of `Decrement`.
  unfoldable pub decrement_value : ℕ → Value p → Option (Value p)
  unfolding sub_word
  decrement_value n (Value.num k a) = some (Value.num k (sub_word (width k) a n))
  decrement_value n (Value.float32 f) = some (Value.float32 (p.sub32 f (p.int_to_float32 n)))
  decrement_value n (Value.float64 f) = some (Value.float64 (p.sub64 f (p.int_to_float64 n)))
  decrement_value n (Value.other x) = none

  -- The switches of `IncrementFloat` and `DecrementFloat`.
  unfoldable pub increment_float_value : p.Float64 → Value p → Option (Value p)
  increment_float_value n (Value.float32 f) = some (Value.float32 (p.add32 f (p.narrow n)))
  increment_float_value n (Value.float64 f) = some (Value.float64 (p.add64 f n))
  increment_float_value n _ = none

  unfoldable pub decrement_float_value : p.Float64 → Value p → Option (Value p)
  decrement_float_value n (Value.float32 f) = some (Value.float32 (p.sub32 f (p.narrow n)))
  decrement_float_value n (Value.float64 f) = some (Value.float64 (p.sub64 f n))
  decrement_float_value n _ = none
