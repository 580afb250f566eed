-- ===== src/Delayed/Removing.antt =====
-- delDelayed, which takes a task out of the middle of the heap.
use gkit.Prelude.{
  ℕ, zero, suc, ◌+◌, ◌-◌, ◌≡◌, ◌≤◌, ◌<◌, refl, sym, ap, subst, true, false, ◌||◌, ◌&&◌, Bool,
  Bool-cases, inl, inr, some, List, [], ◌∷◌, length, set, leb, ltb, ◌==◌, if◌then◌else◌, arith,
}
use gkit.Delayed.{Task, slot, when, parent, siftup, siftdown, up_loop, Dispatcher, cut, del_delayed}
use gkit.Delayed.Slots.{one, count}
use gkit.Delayed.Order.{IsHeap}
use gkit.Delayed.Up.{UpInv, at-slot, siftup-count, siftup-IsHeap}
use gkit.Delayed.Down.{DownInv, siftdown-count, siftdown-IsHeap}
use gkit.Delayed.Queue.{IsValid, is_invalid, timed_slot, cut-count, cut-slot}

set_same : (d : List Task) (i : ℕ) → set d i (slot d i) ≡ d
set_same [] i = refl
set_same (x ∷ d) zero = refl
set_same (x ∷ d) (suc i) = ap (λ e. x ∷ e) (set_same d i)

-- siftupDelayed leaves a task that is not earlier than its parent.
siftup_stays : (d : List Task) (i : ℕ) → (0 < i → when d (parent i) ≤ when d i) → siftup d i ≡ d
unfolding siftup up_loop
siftup_stays d zero h = elim (Bool-cases (leb (length d) 0 || (when d 0 == 0))) [
  | inl stays ↦ rw stays refl
  | inr sifts ↦ rw sifts (set_same d 0)
]
siftup_stays d (suc i) h = elim (Bool-cases (leb (length d) (suc i) || (when d (suc i) == 0))) [
  | inl stays ↦ rw stays refl
  | inr sifts ↦
      let settled : leb (when d (parent (suc i))) (when d (suc i)) ≡ true =
        ground (arith, h (omega arith)) in
      let apart : (suc i == 0) ≡ false = ground arith in
      rw (sifts, apart, settled) (set_same d (suc i))
]

siftdown_idle :
    (d : List Task) (i : ℕ) → (leb (length d) i || (when d i == 0)) ≡ true → siftdown d i ≡ d
unfolding siftdown
siftdown_idle d i e = rw e refl

-- siftdownDelayed makes a heap of a heap.
siftdown_keeps : (d : List Task) (i : ℕ) → IsHeap d → IsHeap (siftdown d i)
siftdown_keeps d i h = elim (Bool-cases (leb (length d) i || (when d i == 0))) [
  | inl stays ↦ subst IsHeap (sym (siftdown_idle d i stays)) h
  | inr sifts ↦
      siftdown-IsHeap d i
        (record {
          inside = ground (arith, sifts);
          edges = λ c p q r. omega (arith, at-slot d i (parent c), at-slot d i c, h c p q);
          bridged = λ c p q r t.
              let up : when d (parent i) ≤ when d i = h i t (ground (arith, sifts)) in
              omega (arith, at-slot d i (parent i), at-slot d i c, up, h c p q, ap (when d) r);
        })
        (ground (arith, sifts))
]

-- A task from the end, put into slot `i`, is too early for its parent, or at most too late for its
-- children.
module _ (d : List Task) (i : ℕ) (inside : i < length d - 1) (heap : IsHeap d) where
  inside' : i < length d
  inside' = omega (arith, inside)

  len : length (cut d i) ≡ length d - 1
  len = (cut-count d i inside' is_invalid).1

  cut-UpInv :
      0 < i → when (cut d i) i < when (cut d i) (parent i) → UpInv (cut d i) (slot (cut d i) i) i
  cut-UpInv pos early =
      let e = cut d i in
      let up = heap i pos inside' in
      let above = cut-slot d i inside' (parent i) (omega (arith, inside)) in
      record {
        inside = omega (arith, len, inside);
        edges = λ c p q r.
            let low = cut-slot d i inside' (parent c) (omega (arith, len, q)) in
            let high = cut-slot d i inside' c (omega (arith, len, q)) in
            ground (
              arith,
              at-slot e i (parent c),
              at-slot e i c,
              low,
              high,
              above,
              early,
              up,
              heap c,
              r,
              p,
              q,
              len,
            );
        bridged = λ c p q r t.
            let high = cut-slot d i inside' c (omega (arith, len, q)) in
            ground
              (arith, at-slot e i (parent i), at-slot e i c, high, above, up, heap c, r, p, q, len);
      }

  cut-DownInv :
      (0 < i → when (cut d i) (parent i) ≤ when (cut d i) i)
      → DownInv (cut d i) (slot (cut d i) i) i
  cut-DownInv late =
      let e = cut d i in
      record {
        inside = omega (arith, len, inside);
        edges = λ c p q r.
            let low = cut-slot d i inside' (parent c) (omega (arith, len, q)) in
            let high = cut-slot d i inside' c (omega (arith, len, q)) in
            elim (Bool-cases (i == c)) [
              | inl same ↦
                  let at_i : i ≡ c = ground (arith, same) in
                  let fine = late (omega (arith, at_i, p)) in
                  omega (
                    arith,
                    at-slot e i (parent c),
                    at-slot e i c,
                    fine,
                    ap (λ j. when e (parent j)) at_i,
                    ap (when e) at_i,
                  )
              | inr other ↦ ground (
                arith,
                at-slot e i (parent c),
                at-slot e i c,
                low,
                high,
                heap c,
                other,
                r,
                p,
                q,
                len,
              )
            ];
        bridged = λ c p q r t.
            let up = heap i t inside' in
            let above = cut-slot d i inside' (parent i) (omega (arith, inside)) in
            let high = cut-slot d i inside' c (omega (arith, len, q)) in
            ground
              (arith, at-slot e i (parent i), at-slot e i c, high, above, up, heap c, r, p, q, len);
      }

  both_sifts : count is_invalid d ≡ 0 → IsHeap (siftdown (siftup (cut d i) i) i)
  both_sifts timed =
      let e = cut d i in
      let none_bad : count is_invalid e ≡ 0 =
        omega (arith, (cut-count d i inside' is_invalid).0, timed) in
      let pos = timed_slot e i none_bad (omega (arith, len, inside)) in
      elim (Bool-cases (ltb 0 i && ltb (when e i) (when e (parent i)))) [
        | inl early ↦
            siftdown_keeps (siftup e i) i
              (siftup-IsHeap e i (cut-UpInv (ground (arith, early)) (ground (arith, early))) pos)
        | inr late ↦
            let fine : 0 < i → when e (parent i) ≤ when e i = λ h. ground (arith, late, h) in
            subst (λ f. IsHeap (siftdown f i)) (sym (siftup_stays e i fine))
              (siftdown-IsHeap e i (cut-DownInv fine) pos)
      ]

-- What delDelayed leaves.
abbrev left_of : List Task → ℕ → List Task
left_of d i = if i == length d - 1 then cut d i else siftdown (siftup (cut d i) i) i

left_of-count :
    (d : List Task) (i : ℕ) (p : Task → Bool)
    → i < length d
    → count p (left_of d i) + one p (slot d i) ≡ count p d
left_of-count d i p h =
    let (less, _) = cut-count d i h p in
    elim (Bool-cases (i == length d - 1)) [
      | inl last ↦ rw last less
      | inr other ↦
          let up = (siftup-count p (cut d i) i).0 in
          let down = (siftdown-count p (siftup (cut d i) i) i).0 in
          rw other (omega (arith, less, up, down))
    ]

left_of-IsHeap : (d : List Task) (i : ℕ) → i < length d → IsValid d → IsHeap (left_of d i)
left_of-IsHeap d i h v = elim (Bool-cases (i == length d - 1)) [
  | inl last ↦
      let size = (cut-count d i h is_invalid).1 in
      rw last (λ c p q.
        let low = cut-slot d i h (parent c) (omega (arith, size, p, q)) in
        let high = cut-slot d i h c (omega (arith, size, q)) in
        ground (arith, low, high, v.heap c, last, p, q, size))
  | inr other ↦ rw other (both_sifts d i (ground (arith, other, h)) v.heap v.timed)
]

-- delDelayed of a slot in range gives its task, takes that one task away, and leaves a valid heap.
pub del_delayed_lem :
    (i : ℕ) (d : Dispatcher)
    → IsValid d.delays
    → i < length d.delays
    → let (rest, t) = del_delayed i d in
      (t ≡ some (slot d.delays i))
      × IsValid rest.delays
      × ((p : Task → Bool) → count p rest.delays + one p (slot d.delays i) ≡ count p d.delays)
unfolding del_delayed
del_delayed_lem i d v h =
    let within : leb (length d.delays) i ≡ false = ground (arith, h) in
    let less = λ (p : Task → Bool). left_of-count d.delays i p h in
    rw within (
      refl,
      record {
        heap = left_of-IsHeap d.delays i h v;
        timed = omega (arith, less is_invalid, v.timed);
      },
      less,
    )
