-- ===== src/Prelude/Bits.antt =====
-- The bits of words at variables: `|` of fields that do not overlap is a sum, `&` with a mask of
-- ones is a remainder. The native operations stand for a recursion on digits with fuel.
use Prim.Native.Nat.{min, max, digits, bitwise, bit_and-bitwise, bit_or-bitwise}
use mathlib.Core.Path.{◌≡◌, refl, ap, ap₂, sym, ◌≡⟨◌⟩◌, ◌∎}
use native.Mathlib.Nat.{pow-suc, pow-succ', one-le-pow, div-div-eq-div-mul}
use native.Mathlib.Omega.{arith}
pub use Prim.Native.Nat.{bit_and, bit_or}
use Prim.Native.Nat.{ℕ, zero, suc, ◌+◌, ◌-◌, ◌*◌, ◌/◌, ◌%◌, ◌^◌, ◌≤◌, ◌<◌}

module _ (rest : ℕ → ℕ) (join : ℕ → ℕ → ℕ) where
  enough : (i j x y : ℕ) → x ≤ i → x ≤ j → digits rest join i x y ≡ digits rest join j x y
  enough zero zero x y hi hj = refl
  enough zero (suc j) zero y hi hj = refl
  enough (suc i) zero zero y hi hj = refl
  enough (suc i) (suc j) zero y hi hj = refl
  enough zero j (suc x) y hi hj = absurd (omega arith)
  enough (suc i) zero (suc x) y hi hj = absurd (omega arith)
  enough (suc i) (suc j) (suc x) y hi hj =
      rw (enough i j (suc x / 2) (y / 2) (omega arith) (omega arith))

  lowest :
      (x y : ℕ)
      → 0 < x
      → bitwise rest join x y ≡ bitwise rest join (x / 2) (y / 2) * 2 + join (x % 2) (y % 2)
  lowest zero y h = absurd (omega arith)
  lowest (suc x) y h =
      rw (enough x (suc x / 2) (suc x / 2) (y / 2) (omega arith) (omega arith)) refl

bit_or-halve : (x y : ℕ) → bit_or x y ≡ bit_or (x / 2) (y / 2) * 2 + max (x % 2) (y % 2)
bit_or-halve zero y = simp bit_or-bitwise (omega arith)
bit_or-halve (suc x) y = simp bit_or-bitwise (lowest (λ t. t) max (suc x) y (omega arith))

bit_and-halve : (x y : ℕ) → bit_and x y ≡ bit_and (x / 2) (y / 2) * 2 + min (x % 2) (y % 2)
bit_and-halve zero y = simp bit_and-bitwise (omega arith)
bit_and-halve (suc x) y = simp bit_and-bitwise (lowest (λ t. 0) min (suc x) y (omega arith))

-- By the bits that are left: a bound that halves with the number.
bit_or-nothing : (n x : ℕ) → x ≤ n → bit_or x 0 ≡ x
bit_or-nothing n zero h = refl
bit_or-nothing zero (suc x) h = absurd (omega arith)
bit_or-nothing (suc n) (suc x) h =
    omega (arith, bit_or-halve (suc x) 0, bit_or-nothing n (suc x / 2) (omega arith))

bit_and-nothing : (n x : ℕ) → x ≤ n → bit_and x 0 ≡ 0
bit_and-nothing n zero h = refl
bit_and-nothing zero (suc x) h = absurd (omega arith)
bit_and-nothing (suc n) (suc x) h =
    omega (arith, bit_and-halve (suc x) 0, bit_and-nothing n (suc x / 2) (omega arith))

shift_step : (q w : ℕ) → q * 2 ^ suc w ≡ 2 * (q * 2 ^ w)
shift_step q w = omega (arith, ap (λ (t : ℕ). q * t) (pow-suc 2 w))

-- `q << w | r` is a sum when `r` has at most `w` bits.
pub bit_or-shift : (w q r : ℕ) → r < 2 ^ w → bit_or (q * 2 ^ w) r ≡ q * 2 ^ w + r
bit_or-shift zero q r h = ground (arith, bit_or-nothing q q)
bit_or-shift (suc w) q r h =
    ground (
      arith,
      bit_or-halve (q * 2 ^ suc w) r,
      shift_step q w,
      bit_or-shift w q (r / 2) (omega arith),
    )

bit_and_low : (w q r : ℕ) → r < 2 ^ w → bit_and (q * 2 ^ w + r) (2 ^ w - 1) ≡ r
bit_and_low zero q r h = ground (arith, bit_and-nothing (q * 1 + r) (q * 1 + r))
bit_and_low (suc w) q r h = ground (
  arith,
  bit_and-halve (q * 2 ^ suc w + r) (2 ^ suc w - 1),
  shift_step q w,
  pow-suc 2 w,
  bit_and_low w q (r / 2) (omega arith),
)

-- `x & (1 << w - 1)` keeps the low `w` bits.
pub bit_and-ones : (w x : ℕ) → bit_and x (2 ^ w - 1) ≡ x % 2 ^ w
bit_and-ones w x = ground (arith, one-le-pow w 2, bit_and_low w (x / 2 ^ w) (x % 2 ^ w))

bit_or-mul : (w x y : ℕ) → bit_or (x * 2 ^ w) (y * 2 ^ w) ≡ bit_or x y * 2 ^ w
bit_or-mul zero x y = ground arith
bit_or-mul (suc w) x y = ground (
  arith,
  bit_or-halve (x * 2 ^ suc w) (y * 2 ^ suc w),
  shift_step x w,
  shift_step y w,
  shift_step (bit_or x y) w,
  bit_or-mul w x y,
)

-- Three fields of one word.
pub bit_or_fields :
    (u w a b c : ℕ)
    → b < 2 ^ u
    → c < 2 ^ w
    → bit_or (bit_or (a * 2 ^ u * 2 ^ w) (b * 2 ^ w)) c ≡ (a * 2 ^ u + b) * 2 ^ w + c
bit_or_fields u w a b c hb hc =
    rw (bit_or-mul w (a * 2 ^ u) b, bit_or-shift u a b hb) (bit_or-shift w (a * 2 ^ u + b) c hc)

-- `&` before a shift to the right is `&` after it.
pub bit_and-shift_right : (w x m : ℕ) → bit_and x (m * 2 ^ w) / 2 ^ w ≡ bit_and (x / 2 ^ w) m
bit_and-shift_right zero x m = ground arith
bit_and-shift_right (suc w) x m =
    bit_and x (m * 2 ^ suc w) / 2 ^ suc w
    ≡⟨ ap₂ (λ s t. bit_and x s / t) (shift_step m w) (pow-succ' 2 w) ⟩
      bit_and x (2 * (m * 2 ^ w)) / (2 * 2 ^ w)
    ≡⟨ sym (div-div-eq-div-mul _ 2 (2 ^ w)) ⟩ bit_and x (2 * (m * 2 ^ w)) / 2 / 2 ^ w
    ≡⟨ ap (λ s. s / 2 ^ w) (omega (arith, bit_and-halve x (2 * (m * 2 ^ w)))) ⟩
      bit_and (x / 2) (2 * (m * 2 ^ w) / 2) / 2 ^ w
    ≡⟨ ap (λ s. bit_and (x / 2) s / 2 ^ w) (omega arith) ⟩ bit_and (x / 2) (m * 2 ^ w) / 2 ^ w
    ≡⟨ bit_and-shift_right w (x / 2) m ⟩ bit_and (x / 2 / 2 ^ w) m
    ≡⟨ ap (λ s. bit_and s m) (div-div-eq-div-mul x 2 (2 ^ w)) ⟩ bit_and (x / (2 * 2 ^ w)) m
    ≡⟨ ap (λ s. bit_and (x / s) m) (sym (pow-succ' 2 w)) ⟩ bit_and (x / 2 ^ suc w) m ∎
