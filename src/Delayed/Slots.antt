-- ===== src/Delayed/Slots.antt =====
-- Reading, writing and counting the slots of a list of tasks.
use gkit.Prelude.{
  ℕ, zero, suc, ◌+◌, ◌≡◌, ◌<◌, refl, Bool, false, ◌≤◌, List, [], ◌∷◌, ◌++◌, length, length-take,
  set, take, ◌==◌, if◌then◌else◌, arith,
}
use gkit.Delayed.{Task, slot}

-- How many tasks pass a test. Two lists on which every test counts alike hold the same tasks.
abbrev pub one : (Task → Bool) → Task → ℕ
one p t = if p t then 1 else 0

abbrev pub count : (Task → Bool) → List Task → ℕ
count p [] = 0
count p (t ∷ ts) = one p t + count p ts

pub slot-set :
    (d : List Task) (i j : ℕ) (v : Task)
    → i < length d
    → slot (set d i v) j ≡ (if i == j then v else slot d j)
slot-set [] i j v h = absurd (omega arith)
slot-set (x ∷ d) zero zero v h = ground arith
slot-set (x ∷ d) zero (suc j) v h = ground arith
slot-set (x ∷ d) (suc i) zero v h = ground arith
slot-set (x ∷ d) (suc i) (suc j) v h = ground (arith, slot-set d i j v)

pub count-set :
    (p : Task → Bool) (d : List Task) (i : ℕ) (v : Task)
    → i < length d
    → count p (set d i v) + one p (slot d i) ≡ count p d + one p v
count-set p [] i v h = absurd (omega arith)
count-set p (x ∷ d) zero v h = omega arith
count-set p (x ∷ d) (suc i) v h = omega (arith, count-set p d i v (omega arith))

pub count-append : (p : Task → Bool) (c d : List Task) → count p (c ++ d) ≡ count p c + count p d
count-append p [] d = omega arith
count-append p (x ∷ c) d = omega (arith, count-append p c d)

pub slot-append : (d e : List Task) (i : ℕ) → i < length d → slot (d ++ e) i ≡ slot d i
slot-append [] e i h = absurd (omega arith)
slot-append (x ∷ d) e zero h = refl
slot-append (x ∷ d) e (suc i) h = slot-append d e i (omega arith)

pub slot-append_last : (d : List Task) (t : Task) → slot (d ++ t ∷ []) (length d) ≡ t
slot-append_last [] t = refl
slot-append_last (x ∷ d) t = slot-append_last d t

pub slot-take : (n : ℕ) (d : List Task) (i : ℕ) → i < n → slot (take n d) i ≡ slot d i
slot-take zero d i h = absurd (omega arith)
slot-take (suc n) [] i h = refl
slot-take (suc n) (x ∷ d) zero h = refl
slot-take (suc n) (x ∷ d) (suc i) h = slot-take n d i (omega arith)

-- The last slot is cut off.
pub count-take :
    (p : Task → Bool) (n : ℕ) (d : List Task)
    → length d ≡ suc n
    → count p (take n d) + one p (slot d n) ≡ count p d
count-take p n [] h = absurd (omega arith)
count-take p zero (x ∷ []) h = omega arith
count-take p zero (x ∷ y ∷ d) h = absurd (omega arith)
count-take p (suc n) (x ∷ d) h = omega (arith, count-take p n d (omega arith))

pub one-le-count :
    (p : Task → Bool) (d : List Task) (i : ℕ) → i < length d → one p (slot d i) ≤ count p d
one-le-count p [] i h = absurd (omega arith)
one-le-count p (x ∷ d) zero h = omega arith
one-le-count p (x ∷ d) (suc i) h = omega (arith, one-le-count p d i (omega arith))

-- A test that no slot passes.
pub count-none :
    (p : Task → Bool) (d : List Task)
    → ((i : ℕ) → i < length d → p (slot d i) ≡ false)
    → count p d ≡ 0
count-none p [] h = refl
count-none p (x ∷ d) h =
    let first = h 0 (omega arith) in
    let rest = count-none p d (λ i q. h (suc i) (omega (arith, q))) in ground (arith, first, rest)

pub slot_fails :
    (p : Task → Bool) (d : List Task) (i : ℕ) → count p d ≡ 0 → i < length d → p (slot d i) ≡ false
slot_fails p d i e h = ground (arith, one-le-count p d i h, e)

pub length-take_last : (n : ℕ) (d : List Task) → length d ≡ suc n → length (take n d) ≡ n
length-take_last n d h = omega (arith, length-take n d, h)
