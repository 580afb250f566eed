-- ===== src/Delayed/Order.antt =====
-- The heap order, also where the task of one slot is in a variable.
use gkit.Prelude.{
  ℕ, zero, suc, ◌≡◌, ◌≤◌, ◌<◌, List, length, length-set, set, ◌==◌, if◌then◌else◌, arith,
}
use gkit.Delayed.{Task, when, parent}
use gkit.Delayed.Slots.{slot-set}

abbrev pub IsHeap : List Task → Type 0
IsHeap d = (c : ℕ) → 0 < c → c < length d → when d (parent c) ≤ when d c

-- The time at slot `c` once `tmp` is written to slot `i`.
abbrev pub at : List Task → Task → ℕ → ℕ → ℕ
at d tmp i c = if i == c then tmp.exec_time else when d c

-- The edges past `i`, from its parent to its children, are in order.
abbrev pub IsBridged : List Task → Task → ℕ → Type 0
IsBridged d tmp i =
    (c : ℕ) → 0 < c → c < length d → parent c ≡ i → 0 < i → at d tmp i (parent i) ≤ at d tmp i c

when-set :
    (d : List Task) (i c : ℕ) (tmp : Task) → i < length d → when (set d i tmp) c ≡ at d tmp i c
when-set d i c tmp h = ground (arith, slot-set d i c tmp h)

-- Once the variable is written, the heap is in order if its edges were.
pub set-IsHeap :
    (d : List Task) (i : ℕ) (tmp : Task)
    → i < length d
    → ((c : ℕ) → 0 < c → c < length d → at d tmp i (parent c) ≤ at d tmp i c)
    → IsHeap (set d i tmp)
set-IsHeap d i tmp h edges c p q =
    let size = length-set d i tmp in
    let low = when-set d i (parent c) tmp h in
    let high = when-set d i c tmp h in omega (arith, low, high, edges c p (omega (arith, size, q)))

root_least_below :
    (k : ℕ) (d : List Task) (i : ℕ) → IsHeap d → i < k → i < length d → when d 0 ≤ when d i
root_least_below zero d i h f p = absurd (omega arith)
root_least_below (suc k) d zero h f p = omega arith
root_least_below (suc k) d (suc i) h f p =
    let up = h (suc i) (omega arith) p in
    omega (arith, up, root_least_below k d (parent (suc i)) h (omega (arith, f)) (omega (arith, p)))

pub root_least : (d : List Task) (i : ℕ) → IsHeap d → i < length d → when d 0 ≤ when d i
root_least d i h p = root_least_below (suc i) d i h (omega arith) p
