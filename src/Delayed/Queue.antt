-- ===== src/Delayed/Queue.antt =====
-- The operations of the dispatcher on its heap.
use gkit.Prelude.{
  ℕ, suc, ◌+◌, ◌-◌, ◌≡◌, ◌<◌, ap, ◌∙◌, Bool, Bool-cases, inl, inr, List, [], ◌∷◌, ◌++◌, length,
  length-append, length-set, set, ◌==◌, if◌then◌else◌, arith,
}
use gkit.Delayed.{Task, slot, when, parent, Dispatcher, add_locked, cut, cut_top}
use gkit.Delayed.Slots.{
  one, count, slot-set, count-set, count-append, slot-append, slot-append_last, slot-take,
  count-take, slot_fails, length-take_last,
}
use gkit.Delayed.Order.{IsHeap}
use gkit.Delayed.Up.{UpInv, at-slot, siftup-count, siftup-IsHeap}
use gkit.Delayed.Down.{DownInv, siftdown-count, siftdown-IsHeap}

abbrev pub is_invalid : Task → Bool
is_invalid t = t.exec_time == 0

-- A heap of tasks with a time above 0.
pub record IsValid (d : List Task) : Type 0 where
  pub heap : IsHeap d
  pub timed : count is_invalid d ≡ 0

pub timed_slot : (d : List Task) (i : ℕ) → count is_invalid d ≡ 0 → i < length d → 0 < when d i
timed_slot d i e h = ground (arith, slot_fails is_invalid d i e h)

-- The list that AddDelayed hands to siftupDelayed.
grown-UpInv :
    (d : List Task) (t : Task)
    → IsHeap d
    → UpInv (d ++ t ∷ []) (slot (d ++ t ∷ []) (length d)) (length d)
grown-UpInv d t h =
    let size = length-append d (t ∷ []) in
    let e = d ++ t ∷ [] in
    record {
      inside = omega (arith, size);
      edges = λ c p q r.
          let low = slot-append d (t ∷ []) (parent c) (omega (arith, p, q, r, size)) in
          let high = slot-append d (t ∷ []) c (omega (arith, p, q, r, size)) in
          omega (
            arith,
            at-slot e (length d) (parent c),
            at-slot e (length d) c,
            ap Task.exec_time low,
            ap Task.exec_time high,
            h c p (omega (arith, q, r, size)),
          );
      bridged = λ c p q r t. absurd (omega (arith, q, r, size, t));
    }

pub add_locked-IsValid :
    (t : Task) (d : Dispatcher)
    → 0 < t.exec_time
    → IsValid d.delays
    → IsValid (add_locked t d).delays
unfolding add_locked
add_locked-IsValid t d h v = elim (Bool-cases d.is_close) [
  | inl shut ↦ rw shut v
  | inr open_ ↦
      let e = d.delays ++ t ∷ [] in
      let n = length d.delays in
      let last = slot-append_last d.delays t in
      rw open_ (record {
        heap =
            siftup-IsHeap e n (grown-UpInv d.delays t v.heap)
              (omega (arith, ap Task.exec_time last, h));
        timed = ground (
          arith,
          (siftup-count is_invalid e n).0,
          count-append is_invalid d.delays (t ∷ []),
          v.timed,
          h,
        );
      })
]

-- One task more, if the dispatcher is open.
pub add_locked-count :
    (p : Task → Bool) (t : Task) (d : Dispatcher)
    → count p (add_locked t d).delays ≡ count p d.delays + (if d.is_close then 0 else one p t)
unfolding add_locked
add_locked-count p t d = elim (Bool-cases d.is_close) [
  | inl shut ↦ rw shut (omega arith)
  | inr open_ ↦
      let e = d.delays ++ t ∷ [] in
      let same = (siftup-count p e (length d.delays)).0 in
      rw open_ (omega (arith, same, count-append p d.delays (t ∷ [])))
]

module _ (d : List Task) (i : ℕ) (inside : i < length d) where
  pub cut-count :
      (p : Task → Bool)
      → (count p (cut d i) + one p (slot d i) ≡ count p d) × (length (cut d i) ≡ length d - 1)
  unfolding cut
  cut-count p =
      let last = length d - 1 in
      let size : length d ≡ suc last = omega (arith, inside) in
      elim (Bool-cases (i == last)) [
        | inl same ↦
            let e : i ≡ last = ground (arith, same) in
            let gone : one p (slot d i) ≡ one p (slot d last) = ap (λ j. one p (slot d j)) e in
            rw same (omega (arith, count-take p last d size, gone), length-take_last last d size)
        | inr other ↦
            let e = set d i (slot d last) in
            let len = length-set d i (slot d last) in
            let size' : length e ≡ suc last = len ∙ size in
            let gave = count-set p d i (slot d last) inside in
            let still : slot e last ≡ slot d last =
              ground (arith, other, slot-set d i last (slot d last) inside) in
            let gone = count-take p last e size' in
            rw other (omega (arith, rw still at gone, gave), length-take_last last e size')
      ]

  pub cut-slot :
      (c : ℕ)
      → c < length d - 1
      → when (cut d i) c ≡ (if i == c then when d (length d - 1) else when d c)
  unfolding cut
  cut-slot c h =
      let last = length d - 1 in
      elim (Bool-cases (i == last)) [
        | inl same ↦ rw same (ground (arith, same, h, slot-take last d c h))
        | inr other ↦
            let e = set d i (slot d last) in
            rw other (ground (arith, slot-take last e c h, slot-set d i c (slot d last) inside))
      ]

pub cut_top-count :
    (d : List Task) (p : Task → Bool)
    → 0 < length d
    → (count p (cut_top d) + one p (slot d 0) ≡ count p d) × (length (cut_top d) ≡ length d - 1)
unfolding cut_top
cut_top-count d p h =
    let (less, len) = cut-count d 0 h p in
    elim (Bool-cases (length d - 1 == 0)) [
      | inl only ↦ rw only (less, len)
      | inr more ↦
          let (same, kept) = siftdown-count p (cut d 0) 0 in
          rw more (omega (arith, less, same), omega (arith, len, kept))
    ]

cut_top-DownInv : (d : List Task) → 1 < length d → IsHeap d → DownInv (cut d 0) (slot (cut d 0) 0) 0
cut_top-DownInv d h heap =
    let e = cut d 0 in
    let len = (cut-count d 0 (omega (arith, h)) is_invalid).1 in
    let now = λ (c : ℕ). cut-slot d 0 (omega (arith, h)) c in
    record {
      inside = omega (arith, len, h);
      edges = λ c p q r.
          let low = now (parent c) (omega (arith, len, p, q)) in
          let high = now c (omega (arith, len, q)) in
          ground (arith, at-slot e 0 (parent c), at-slot e 0 c, low, high, heap c, len, q, p, r);
      bridged = λ c p q r t. absurd (omega (arith, t));
    }

pub cut_top-IsValid : (d : List Task) → 0 < length d → IsValid d → IsValid (cut_top d)
unfolding cut_top
cut_top-IsValid d h v =
    let (less, len) = cut-count d 0 h is_invalid in
    elim (Bool-cases (length d - 1 == 0)) [
      | inl only ↦ rw only (record {
        heap = λ c p q. absurd (ground (arith, only, len, p, q));
        timed = omega (arith, less, v.timed);
      })
      | inr more ↦
          let timed : count is_invalid (cut d 0) ≡ 0 = omega (arith, less, v.timed) in
          let some_left : 0 < length (cut d 0) = ground (arith, more, len) in
          let inv = cut_top-DownInv d (ground (arith, more)) v.heap in
          rw more (record {
            heap = siftdown-IsHeap (cut d 0) 0 inv (timed_slot (cut d 0) 0 timed some_left);
            timed = omega (arith, timed, (siftdown-count is_invalid (cut d 0) 0).0);
          })
    ]
