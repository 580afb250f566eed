-- ===== src/Generator/Ids.antt =====
-- An identifier as a number, and its parts.
use gkit.Prelude.{ℕ, ◌+◌, ◌*◌, ◌/◌, ◌%◌, ◌^◌, ◌≡◌, ◌<◌, ◌≤◌, none, some, arith, ◌∙◌, dec_lt}
use gkit.Prelude.Bits.{bit_and, bit_or_fields, bit_and-ones, bit_and-shift_right}
use gkit.Generator.{Snowflake, IsValid, to_id, decompose}

-- The fields side by side.
abbrev pub packed : Snowflake → ℕ
packed s = (s.elapsed_time * 2 ^ 8 + s.sequence) * 2 ^ 16 + s.node

module _ (s : Snowflake) (v : IsValid s) where
  pub to_id-packed : s.elapsed_time < 2 ^ 39 → to_id s ≡ some (packed s)
  unfolding to_id
  to_id-packed h =
      let top : s.elapsed_time * 2 ^ 24 % 2 ^ 64 ≡ s.elapsed_time * 2 ^ 8 * 2 ^ 16 = omega arith in
      let mid : s.sequence * 2 ^ 16 % 2 ^ 64 ≡ s.sequence * 2 ^ 16 = omega arith in
      rw (top, mid) (ground (arith, bit_or_fields 8 16 s.elapsed_time s.sequence s.node))

  pub to_id_over : 2 ^ 39 ≤ s.elapsed_time → to_id s ≡ none
  unfolding to_id
  to_id_over h = ground arith

pub id-eq-packed :
    (s : Snowflake) (id : ℕ)
    → IsValid s
    → to_id s ≡ some id
    → (s.elapsed_time < 2 ^ 39) × (id ≡ packed s)
id-eq-packed s id v e = elim (dec_lt s.elapsed_time (2 ^ 39)) [
  | yes h ↦ (h, ground (arith, to_id-packed s v h))
  | no h ↦ cc (to_id_over s v (omega arith))
]

-- Decompose gives back the time, the sequence and the node of every identifier that is issued, and
-- its highest bit is 0.
pub decompose-to_id :
    (s : Snowflake) (id : ℕ)
    → IsValid s
    → to_id s ≡ some id
    → decompose id
      ≡ record { id = id; msb = 0; time = s.elapsed_time; sequence = s.sequence; node = s.node }
unfolding decompose
decompose-to_id s id v e =
    let (small, whole) = id-eq-packed s id v e in
    let mid : bit_and id (255 * 2 ^ 16) / 2 ^ 16 ≡ id / 2 ^ 16 % 2 ^ 8 =
      bit_and-shift_right 16 id 255 ∙ bit_and-ones 8 (id / 2 ^ 16) in
    ground (arith, mid, bit_and-ones 16 id)
