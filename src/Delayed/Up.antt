-- ===== src/Delayed/Up.antt =====
-- siftupDelayed restores the heap order above a slot.
use gkit.Prelude.{
  ℕ, zero, suc, ◌+◌, ◌≡◌, ◌≢◌, ◌≤◌, ◌<◌, refl, ap, false, ◌||◌, Bool, Bool-cases, inl, inr, List,
  length, length-set, set, leb, ◌==◌, arith,
}
use gkit.Delayed.{Task, slot, when, parent, up_loop, siftup}
use gkit.Delayed.Slots.{one, count, slot-set, count-set}
use gkit.Delayed.Order.{IsHeap, at, IsBridged, set-IsHeap}

-- Only the edge above `i` may be out of order.
pub record UpInv (d : List Task) (tmp : Task) (i : ℕ) : Type 0 where
  pub inside : i < length d
  pub edges : (c : ℕ) → 0 < c → c < length d → c ≢ i → at d tmp i (parent c) ≤ at d tmp i c
  pub bridged : IsBridged d tmp i

moved :
    (d : List Task) (tmp : Task) (i : ℕ)
    → UpInv d tmp i
    → 0 < i
    → tmp.exec_time < when d (parent i)
    → UpInv (set d i (slot d (parent i))) tmp (parent i)
moved d tmp i v pos below =
    let size = length-set d i (slot d (parent i)) in
    let now = λ (c : ℕ). slot-set d i c (slot d (parent i)) v.inside in
    record {
      inside = omega (arith, size, v.inside);
      edges = λ c p q r. ground (arith, size, now c, now (parent c), v.edges c, v.bridged c);
      bridged = λ c p q r t.
          ground (arith, size, now c, now (parent (parent i)), v.edges c, v.edges (parent i));
    }

up_loop-IsHeap :
    (k : ℕ) (d : List Task) (tmp : Task) (i : ℕ)
    → i ≤ k
    → UpInv d tmp i
    → IsHeap (up_loop k d tmp i)
unfolding up_loop
up_loop-IsHeap zero d tmp i f v =
    set-IsHeap d i tmp v.inside (λ c p q. v.edges c p q (omega (arith, f, p)))
up_loop-IsHeap (suc k) d tmp i f v = elim (Bool-cases (i == 0)) [
  | inl root ↦
      rw root (set-IsHeap d i tmp v.inside (λ c p q. v.edges c p q (ground (arith, root, p))))
  | inr inner ↦ elim (Bool-cases (leb (when d (parent i)) tmp.exec_time)) [
    | inl settled ↦
        rw (inner, settled)
          (set-IsHeap d i tmp v.inside (λ c p q. ground (arith, v.edges c, settled)))
    | inr below ↦
        rw (inner, below)
          (up_loop-IsHeap k (set d i (slot d (parent i))) tmp (parent i) (ground (arith, inner, f))
            (moved d tmp i v (ground (arith, inner)) (ground (arith, below))))
  ]
]

-- The loop trades what was in the slot for the variable.
up_loop-count :
    (p : Task → Bool) (k : ℕ) (d : List Task) (tmp : Task) (i : ℕ)
    → i < length d
    → (count p (up_loop k d tmp i) + one p (slot d i) ≡ count p d + one p tmp)
      × (length (up_loop k d tmp i) ≡ length d)
unfolding up_loop
up_loop-count p zero d tmp i h = (count-set p d i tmp h, length-set d i tmp)
up_loop-count p (suc k) d tmp i h = elim (Bool-cases (i == 0)) [
  | inl root ↦ rw root (count-set p d i tmp h, length-set d i tmp)
  | inr inner ↦ elim (Bool-cases (leb (when d (parent i)) tmp.exec_time)) [
    | inl settled ↦ rw (inner, settled) (count-set p d i tmp h, length-set d i tmp)
    | inr below ↦
        let e = set d i (slot d (parent i)) in
        let size = length-set d i (slot d (parent i)) in
        let (rest, len) = up_loop-count p k e tmp (parent i) (omega (arith, size, h)) in
        let gave = count-set p d i (slot d (parent i)) h in
        let still : slot e (parent i) ≡ slot d (parent i) =
          ground (arith, inner, slot-set d i (parent i) (slot d (parent i)) h) in
        rw (inner, below) (omega (arith, rw still at rest, gave), omega (arith, len, size))
  ]
]

-- The variable is at first the task of the slot itself.
pub at-slot : (d : List Task) (i c : ℕ) → at d (slot d i) i c ≡ when d c
at-slot d i c = elim (Bool-cases (i == c)) [
  | inl same ↦ let e : i ≡ c = ground (arith, same) in rw same (ap (when d) e)
  | inr other ↦ rw other refl
]

-- siftupDelayed keeps the tasks.
pub siftup-count :
    (p : Task → Bool) (d : List Task) (i : ℕ)
    → (count p (siftup d i) ≡ count p d) × (length (siftup d i) ≡ length d)
unfolding siftup
siftup-count p d i = elim (Bool-cases (leb (length d) i || (when d i == 0))) [
  | inl stays ↦ rw stays (refl, refl)
  | inr sifts ↦
      let inside : i < length d = ground (arith, sifts) in
      let (same, len) = up_loop-count p i d (slot d i) i inside in
      rw sifts (omega (arith, same), len)
]

-- It makes a heap of a list in which only the edge above the slot may be out of order.
pub siftup-IsHeap :
    (d : List Task) (i : ℕ) → UpInv d (slot d i) i → 0 < when d i → IsHeap (siftup d i)
unfolding siftup
siftup-IsHeap d i v h =
    let sifts : (leb (length d) i || (when d i == 0)) ≡ false = ground (arith, v.inside, h) in
    rw sifts (up_loop-IsHeap i d (slot d i) i (omega arith) v)
