-- ===== src/Delayed/Down.antt =====
-- siftdownDelayed restores the heap order below a slot.
use gkit.Prelude.{
  ℕ, zero, suc, ◌+◌, ◌*◌, ◌≡◌, ◌≢◌, ◌≤◌, ◌<◌, refl, ap, false, ◌||◌, ◌&&◌, Bool, Bool-cases, inl,
  inr, ◌⊎◌, List, length, length-set, set, leb, ltb, ◌==◌, arith,
}
use gkit.Delayed.{Task, slot, when, parent, earlier, least_child, down_loop, siftdown}
use gkit.Delayed.Slots.{one, count, slot-set, count-set}
use gkit.Delayed.Order.{IsHeap, at, IsBridged, set-IsHeap}

-- Only the edges below `i` may be out of order.
pub record DownInv (d : List Task) (tmp : Task) (i : ℕ) : Type 0 where
  pub inside : i < length d
  pub edges : (c : ℕ) → 0 < c → c < length d → parent c ≢ i → at d tmp i (parent c) ≤ at d tmp i c
  pub bridged : IsBridged d tmp i

record IsLeastChild (d : List Task) (i m : ℕ) : Type 0 where
  inside : m < length d
  child : parent m ≡ i
  below : i < m
  least : (c : ℕ) → 0 < c → c < length d → parent c ≡ i → when d m ≤ when d c

earlier_lem :
    (d : List Task) (c : ℕ)
    → c < length d
    → (earlier d c < length d)
      × (c ≤ earlier d c)
      × (earlier d c ≤ c + 1)
      × (when d (earlier d c) ≤ when d c)
      × (c + 1 < length d → when d (earlier d c) ≤ when d (c + 1))
unfolding earlier
earlier_lem d c h = elim (Bool-cases (ltb (c + 1) (length d) && ltb (when d (c + 1)) (when d c))) [
  | inl next ↦
      rw next
        (ground (arith, next), omega arith, omega arith, ground (arith, next), λ p. omega arith)
  | inr here ↦ rw here (h, omega arith, omega arith, omega arith, λ p. ground (arith, here, p))
]

-- The four children of a slot.
child_cases :
    (c i : ℕ)
    → 0 < c
    → parent c ≡ i
    → (c ≡ i * 4 + 1) ⊎ ((c ≡ i * 4 + 1 + 1) ⊎ ((c ≡ i * 4 + 3) ⊎ (c ≡ i * 4 + 3 + 1)))
child_cases c i h e = ground (arith, h, e)

-- A time that is no later than that of each of the four.
least_of :
    (d : List Task) (i w : ℕ)
    → w ≤ when d (i * 4 + 1)
    → (i * 4 + 1 + 1 < length d → w ≤ when d (i * 4 + 1 + 1))
    → (i * 4 + 3 < length d → w ≤ when d (i * 4 + 3))
    → (i * 4 + 3 + 1 < length d → w ≤ when d (i * 4 + 3 + 1))
    → (c : ℕ) → 0 < c
    → c < length d
    → parent c ≡ i
    → w ≤ when d c
least_of d i w a b e f c p q r = elim (child_cases c i p r) [
  | inl at ↦ omega (arith, a, ap (when d) at)
  | inr (inl at) ↦ omega (arith, b (omega (arith, at, q)), ap (when d) at)
  | inr (inr (inl at)) ↦ omega (arith, e (omega (arith, at, q)), ap (when d) at)
  | inr (inr (inr at)) ↦ omega (arith, f (omega (arith, at, q)), ap (when d) at)
]

least_child-IsLeastChild :
    (d : List Task) (i : ℕ) → i * 4 + 1 < length d → IsLeastChild d i (least_child d i)
unfolding least_child
least_child-IsLeastChild d i h =
    let (in1, lo1, hi1, le1, next1) = earlier_lem d (i * 4 + 1) h in
    let first = earlier d (i * 4 + 1) in
    let second = earlier d (i * 4 + 3) in
    elim (Bool-cases (ltb (i * 4 + 3) (length d))) [
      | inr short ↦
          let out : (x : ℕ) → i * 4 + 3 + x < length d → x < 0 = λ x q. ground (arith, short, q) in
          rw short (record {
            inside = in1;
            child = omega (arith, lo1, hi1);
            below = omega (arith, lo1);
            least =
                least_of d i (when d first) le1 next1
                  (λ q. absurd (omega (arith, out 0 (omega (arith, q)))))
                  (λ q. absurd (omega (arith, out 1 q)));
          })
      | inl long ↦
          let (in3, lo3, hi3, le3, next3) = earlier_lem d (i * 4 + 3) (ground (arith, long)) in
          elim (Bool-cases (ltb (when d second) (when d first))) [
            | inl right ↦
                let less : when d second < when d first = ground (arith, right) in
                rw (long, right)
                  (record {
                    inside = in3;
                    child = omega (arith, lo3, hi3);
                    below = omega (arith, lo3);
                    least =
                        least_of d i (when d second) (omega (arith, less, le1))
                          (λ q. omega (arith, less, next1 q)) (λ q. le3) next3;
                  })
            | inr left ↦
                let more : when d first ≤ when d second = ground (arith, left) in
                rw (long, left)
                  (record {
                    inside = in1;
                    child = omega (arith, lo1, hi1);
                    below = omega (arith, lo1);
                    least =
                        least_of d i (when d first) le1 next1 (λ q. omega (arith, more, le3))
                          (λ q. omega (arith, more, next3 q));
                  })
          ]
    ]

sunk :
    (d : List Task) (tmp : Task) (i m : ℕ)
    → DownInv d tmp i
    → IsLeastChild d i m
    → when d m < tmp.exec_time
    → DownInv (set d i (slot d m)) tmp m
sunk d tmp i m v s later =
    let size = length-set d i (slot d m) in
    let now = λ (c : ℕ). slot-set d i c (slot d m) v.inside in
    record {
      inside = omega (arith, size, s.inside);
      edges = λ c p q r.
          ground (
            arith,
            size,
            now c,
            now (parent c),
            v.edges c,
            v.bridged m,
            s.least c,
            s.child,
            s.below,
          );
      bridged =
          λ c p q r t. ground (arith, size, now c, now (parent m), v.edges c, s.child, s.below);
    }

down_loop-IsHeap :
    (k : ℕ) (d : List Task) (tmp : Task) (i : ℕ)
    → length d ≤ k + i
    → DownInv d tmp i
    → IsHeap (down_loop k d tmp i)
unfolding down_loop
down_loop-IsHeap zero d tmp i f v = absurd (omega (arith, f, v.inside))
down_loop-IsHeap (suc k) d tmp i f v = elim (Bool-cases (leb (length d) (i * 4 + 1))) [
  | inl leaf ↦
      rw leaf (set-IsHeap d i tmp v.inside (λ c p q. v.edges c p q (ground (arith, leaf, p, q))))
  | inr inner ↦
      let m = least_child d i in
      let s = least_child-IsLeastChild d i (ground (arith, inner)) in
      elim (Bool-cases (leb tmp.exec_time (when d m))) [
        | inl settled ↦
            rw (inner, settled)
              (set-IsHeap d i tmp v.inside (λ c p q. ground (arith, v.edges c, s.least c, settled)))
        | inr later ↦
            let size = length-set d i (slot d m) in
            rw (inner, later)
              (down_loop-IsHeap k (set d i (slot d m)) tmp m (omega (arith, size, f, s.below))
                (sunk d tmp i m v s (ground (arith, later))))
      ]
]

down_loop-count :
    (p : Task → Bool) (k : ℕ) (d : List Task) (tmp : Task) (i : ℕ)
    → i < length d
    → (count p (down_loop k d tmp i) + one p (slot d i) ≡ count p d + one p tmp)
      × (length (down_loop k d tmp i) ≡ length d)
unfolding down_loop
down_loop-count p zero d tmp i h = (count-set p d i tmp h, length-set d i tmp)
down_loop-count p (suc k) d tmp i h = elim (Bool-cases (leb (length d) (i * 4 + 1))) [
  | inl leaf ↦ rw leaf (count-set p d i tmp h, length-set d i tmp)
  | inr inner ↦
      let m = least_child d i in
      let s = least_child-IsLeastChild d i (ground (arith, inner)) in
      elim (Bool-cases (leb tmp.exec_time (when d m))) [
        | inl settled ↦ rw (inner, settled) (count-set p d i tmp h, length-set d i tmp)
        | inr later ↦
            let e = set d i (slot d m) in
            let size = length-set d i (slot d m) in
            let (rest, len) = down_loop-count p k e tmp m (omega (arith, size, s.inside)) in
            let gave = count-set p d i (slot d m) h in
            let still : slot e m ≡ slot d m =
              ground (arith, s.below, slot-set d i m (slot d m) h) in
            rw (inner, later) (omega (arith, rw still at rest, gave), omega (arith, len, size))
      ]
]

-- siftdownDelayed keeps the tasks.
pub siftdown-count :
    (p : Task → Bool) (d : List Task) (i : ℕ)
    → (count p (siftdown d i) ≡ count p d) × (length (siftdown d i) ≡ length d)
unfolding siftdown
siftdown-count p d i = elim (Bool-cases (leb (length d) i || (when d i == 0))) [
  | inl stays ↦ rw stays (refl, refl)
  | inr sifts ↦
      let (same, len) = down_loop-count p (length d) d (slot d i) i (ground (arith, sifts)) in
      rw sifts (omega (arith, same), len)
]

-- It makes a heap of a list in which only the edges below the slot may be out of order.
pub siftdown-IsHeap :
    (d : List Task) (i : ℕ) → DownInv d (slot d i) i → 0 < when d i → IsHeap (siftdown d i)
unfolding siftdown
siftdown-IsHeap d i v h =
    let sifts : (leb (length d) i || (when d i == 0)) ≡ false = ground (arith, v.inside, h) in
    rw sifts (down_loop-IsHeap (length d) d (slot d i) i (omega arith) v)
