-- ===== src/LocalCache/Typed.antt =====
-- cache/local_cache: Increment, Decrement and their typed forms. Each is one critical section.
-- The typed forms share one body in the source, written out once for each type.
use gkit.Prelude.{ℕ, Option, none, some, if◌then◌else◌}
use gkit.Prelude.Map.{String, lookup, put}
use gkit.LocalCache.Value.{
  Platform, Value, Kind, width, as_kind, as_float32, as_float64, add_word, sub_word,
  increment_value, decrement_value, increment_float_value, decrement_float_value,
}
use gkit.LocalCache.{
  Cache, Iterator, Step, Outcome, ok, err, no_exist, expire, type_err, expired, evict, returned,
}

module _ {p : Platform} where
  abbrev pub write : String → Iterator p → Value p → Cache p → Cache p
  write k it v c = record c { member = put k (record it { val = v }) c.member }

  -- The body of the forms that return only an error: `change` is the switch on the value's type.
  unfoldable pub update :
      (Value p → Option (Value p)) → String → ℕ → Cache p → Step p (Outcome (Unit {0}))
  unfolding expired evict
  update change k now c = elim (lookup k c.member) [
    | none ↦ returned c (err no_exist)
    | some it ↦ if expired now it then evict k (err expire) c else elim (change it.val) [
      | none ↦ returned c (err type_err)
      | some v ↦ returned (write k it v c) (ok tt)
    ]
  ]

  -- The body of the typed forms: `assert` is the type assertion.
  unfoldable pub update_typed :
      {A : Type 0}
      → (Value p → Option A)
      → (A → Value p)
      → (A → A)
      → String
      → ℕ
      → Cache p
      → Step p (Outcome A)
  unfolding expired evict
  update_typed assert wrap f k now c = elim (lookup k c.member) [
    | none ↦ returned c (err no_exist)
    | some it ↦ if expired now it then evict k (err expire) c else elim (assert it.val) [
      | none ↦ returned c (err type_err)
      | some i ↦ returned (write k it (wrap (f i)) c) (ok (f i))
    ]
  ]

  unfoldable pub increment_kind : Kind → String → ℕ → ℕ → Cache p → Step p (Outcome ℕ)
  unfolding update_typed as_kind add_word
  increment_kind t k n = update_typed (as_kind t) (Value.num t) (λ i. add_word (width t) i n) k

  unfoldable pub decrement_kind : Kind → String → ℕ → ℕ → Cache p → Step p (Outcome ℕ)
  unfolding update_typed as_kind sub_word
  decrement_kind t k n = update_typed (as_kind t) (Value.num t) (λ i. sub_word (width t) i n) k

  -- `n` is the bit pattern of an int64, of a float64 or of the type that is named.
  unfoldable pub increment : String → ℕ → ℕ → Cache p → Step p (Outcome (Unit {0}))
  unfolding update increment_value
  increment k n = update (increment_value n) k

  unfoldable pub decrement : String → ℕ → ℕ → Cache p → Step p (Outcome (Unit {0}))
  unfolding update decrement_value
  decrement k n = update (decrement_value n) k

  unfoldable pub increment_float : String → p.Float64 → ℕ → Cache p → Step p (Outcome (Unit {0}))
  unfolding update increment_float_value
  increment_float k n = update (increment_float_value n) k

  unfoldable pub decrement_float : String → p.Float64 → ℕ → Cache p → Step p (Outcome (Unit {0}))
  unfolding update decrement_float_value
  decrement_float k n = update (decrement_float_value n) k

  abbrev pub increment_int : String → ℕ → ℕ → Cache p → Step p (Outcome ℕ)
  increment_int = increment_kind Kind.int

  abbrev pub increment_int8 : String → ℕ → ℕ → Cache p → Step p (Outcome ℕ)
  increment_int8 = increment_kind Kind.int8

  abbrev pub increment_int16 : String → ℕ → ℕ → Cache p → Step p (Outcome ℕ)
  increment_int16 = increment_kind Kind.int16

  abbrev pub increment_int32 : String → ℕ → ℕ → Cache p → Step p (Outcome ℕ)
  increment_int32 = increment_kind Kind.int32

  abbrev pub increment_int64 : String → ℕ → ℕ → Cache p → Step p (Outcome ℕ)
  increment_int64 = increment_kind Kind.int64

  abbrev pub increment_uint : String → ℕ → ℕ → Cache p → Step p (Outcome ℕ)
  increment_uint = increment_kind Kind.uint

  abbrev pub increment_uint8 : String → ℕ → ℕ → Cache p → Step p (Outcome ℕ)
  increment_uint8 = increment_kind Kind.uint8

  abbrev pub increment_uint16 : String → ℕ → ℕ → Cache p → Step p (Outcome ℕ)
  increment_uint16 = increment_kind Kind.uint16

  abbrev pub increment_uint32 : String → ℕ → ℕ → Cache p → Step p (Outcome ℕ)
  increment_uint32 = increment_kind Kind.uint32

  abbrev pub increment_uint64 : String → ℕ → ℕ → Cache p → Step p (Outcome ℕ)
  increment_uint64 = increment_kind Kind.uint64

  abbrev pub increment_uint_ptr : String → ℕ → ℕ → Cache p → Step p (Outcome ℕ)
  increment_uint_ptr = increment_kind Kind.uintptr

  unfoldable pub increment_float32 : String → p.Float32 → ℕ → Cache p → Step p (Outcome p.Float32)
  unfolding update_typed as_float32
  increment_float32 k n = update_typed as_float32 Value.float32 (λ i. p.add32 i n) k

  unfoldable pub increment_float64 : String → p.Float64 → ℕ → Cache p → Step p (Outcome p.Float64)
  unfolding update_typed as_float64
  increment_float64 k n = update_typed as_float64 Value.float64 (λ i. p.add64 i n) k

  abbrev pub decrement_int : String → ℕ → ℕ → Cache p → Step p (Outcome ℕ)
  decrement_int = decrement_kind Kind.int

  abbrev pub decrement_int8 : String → ℕ → ℕ → Cache p → Step p (Outcome ℕ)
  decrement_int8 = decrement_kind Kind.int8

  abbrev pub decrement_int16 : String → ℕ → ℕ → Cache p → Step p (Outcome ℕ)
  decrement_int16 = decrement_kind Kind.int16

  abbrev pub decrement_int32 : String → ℕ → ℕ → Cache p → Step p (Outcome ℕ)
  decrement_int32 = decrement_kind Kind.int32

  abbrev pub decrement_int64 : String → ℕ → ℕ → Cache p → Step p (Outcome ℕ)
  decrement_int64 = decrement_kind Kind.int64

  abbrev pub decrement_uint : String → ℕ → ℕ → Cache p → Step p (Outcome ℕ)
  decrement_uint = decrement_kind Kind.uint

  abbrev pub decrement_uint8 : String → ℕ → ℕ → Cache p → Step p (Outcome ℕ)
  decrement_uint8 = decrement_kind Kind.uint8

  abbrev pub decrement_uint16 : String → ℕ → ℕ → Cache p → Step p (Outcome ℕ)
  decrement_uint16 = decrement_kind Kind.uint16

  abbrev pub decrement_uint32 : String → ℕ → ℕ → Cache p → Step p (Outcome ℕ)
  decrement_uint32 = decrement_kind Kind.uint32

  abbrev pub decrement_uint64 : String → ℕ → ℕ → Cache p → Step p (Outcome ℕ)
  decrement_uint64 = decrement_kind Kind.uint64

  abbrev pub decrement_uint_ptr : String → ℕ → ℕ → Cache p → Step p (Outcome ℕ)
  decrement_uint_ptr = decrement_kind Kind.uintptr

  unfoldable pub decrement_float32 : String → p.Float32 → ℕ → Cache p → Step p (Outcome p.Float32)
  unfolding update_typed as_float32
  decrement_float32 k n = update_typed as_float32 Value.float32 (λ i. p.sub32 i n) k

  unfoldable pub decrement_float64 : String → p.Float64 → ℕ → Cache p → Step p (Outcome p.Float64)
  unfolding update_typed as_float64
  decrement_float64 k n = update_typed as_float64 Value.float64 (λ i. p.sub64 i n) k
