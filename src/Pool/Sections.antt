-- ===== src/Pool/Sections.antt =====
-- What each critical section of the list pool does to its resources, counted one by one, and to the
-- counter of active ones.
use gkit.Prelude.{
  ℕ, zero, suc, ◌+◌, ◌-◌, ◌%◌, ◌≡◌, ◌≤◌, ◌<◌, refl, sym, ap, ◌∙◌, Bool, false, not, ◌||◌, none,
  some, List, [], ◌∷◌, ◌++◌, length, length-append, ltb, ◌==◌, if◌then◌else◌, arith, Bool-cases,
  inl, inr,
}
use gkit.Prelude.Int.{ℤ, pos, ltb_ℤ}
use gkit.Pool.{
  Item, Pool, reserved, taken, minus, notify, release, take_from, take, reserve, split_back, put,
  clean, clean_onto, clean_expired, resources, shutdown, expire,
}
use gkit.Pool.Steps.{of_option}

abbrev pub count : ℕ → List ℕ → ℕ
count k [] = 0
count k (x ∷ xs) = (if k == x then 1 else 0) + count k xs

pub count-append : (k : ℕ) (xs ys : List ℕ) → count k (xs ++ ys) ≡ count k xs + count k ys
count-append k [] ys = omega arith
count-append k (x ∷ xs) ys = omega (arith, count-append k xs ys)

count_none : (k : ℕ) (xs : List ℕ) → length xs ≡ 0 → count k xs ≡ 0
count_none k [] h = refl
count_none k (x ∷ xs) h = absurd (omega arith)

pub length-resources : (its : List Item) → length (resources its) ≡ length its
length-resources [] = refl
length-resources (it ∷ its) = ap suc (length-resources its)

pub minus_le : (a n : ℕ) → n ≤ a → minus a n ≡ a - n
unfolding minus
minus_le a n h = ground arith

-- Taking an item leaves the rest of the pool.
abbrev pub Takes : ℕ → Pool → Pool → Type 0
Takes s p q =
    (resources p.idles ≡ s ∷ resources q.idles)
    × (q.active ≡ p.active)
    × (q.closed ≡ p.closed)
    × (q.generation ≡ p.generation)
    × (q.conf ≡ p.conf)

taken-reserve : (p : Pool) → taken (reserve p).1 ≡ none
unfolding reserve
taken-reserve p = ground arith

take_from_item :
    (its : List Item) (left now s : ℕ) (p : Pool)
    → p.idles ≡ its
    → taken (take_from its left now p).1 ≡ some s
    → Takes s p (take_from its left now p).0
unfolding take_from
take_from_item [] left now s p e h = absurd (ground (arith, h, taken-reserve p))
take_from_item (it ∷ its) zero now s p e h = absurd (ground (arith, h, taken-reserve p))
take_from_item (it ∷ its) (suc left) now s p e h =
    let same : it.s ≡ s = elim (Bool-cases (expire p.conf.idle_timeout now it)) [
      | inl old ↦ ground (arith, h, old)
      | inr new ↦ ground (arith, h, new)
    ] in
    (ap resources e ∙ ap (λ x. x ∷ resources its) same, refl, refl, refl, refl)

pub take_item :
    (left now s : ℕ) (p : Pool) → taken (take left now p).1 ≡ some s → Takes s p (take left now p).0
unfolding take
take_item left now s p h = take_from_item p.idles left now s p refl h

pub split_back_count :
    (k : ℕ) (it : Item) (its : List Item)
    → let (front, back) = split_back it its in
      (count k (resources front) + (if k == back then 1 else 0)
        ≡ (if k == it.s then 1 else 0) + count k (resources its))
      × (length front ≡ length its)
unfolding split_back
split_back_count k it [] = (omega arith, refl)
split_back_count k it (j ∷ its) =
    let (rest, len) = split_back_count k j its in (omega (arith, rest), ap suc len)

clean_onto_count :
    (k : ℕ) (timeout : ℤ) (clock : ℕ → ℕ) (it : Item) (its : List Item) (r : List Item × List ℕ)
    → count k (resources r.0) + count k r.1 ≡ count k (resources its)
    → length r.0 + length r.1 ≡ length its
    → let (kept, gone) = clean_onto timeout clock it r in
      (count k (resources kept) + count k gone ≡ count k (resources (it ∷ its)))
      × (length kept + length gone ≡ suc (length its))
unfolding clean_onto
clean_onto_count k timeout clock it its ([], gone) h l =
    elim (Bool-cases (expire timeout (clock (length gone)) it)) [
      | inl old ↦ rw old (
        omega (arith, h, count-append k gone (it.s ∷ [])),
        omega (arith, l, length-append gone (it.s ∷ [])),
      )
      | inr new ↦ rw new (omega (arith, h), omega (arith, l))
    ]
clean_onto_count k timeout clock it its (j ∷ js, gone) h l = (omega (arith, h), omega (arith, l))

clean_count :
    (k : ℕ) (timeout : ℤ) (clock : ℕ → ℕ) (its : List Item)
    → let (kept, gone) = clean timeout clock its in
      (count k (resources kept) + count k gone ≡ count k (resources its))
      × (length kept + length gone ≡ length its)
unfolding clean
clean_count k timeout clock [] = (refl, refl)
clean_count k timeout clock (it ∷ its) =
    let (h, l) = clean_count k timeout clock its in
    clean_onto_count k timeout clock it its (clean timeout clock its) h l

-- What a section that shuts resources down makes of the pool: `one` more comes in for the resource
-- `k`, `more` in all, and those that are gone leave the list and the counter.
abbrev pub Gives : ℕ → ℕ → ℕ → Pool → Pool → List ℕ → Type 0
Gives k one more p q gone =
    (count k (resources q.idles) + count k gone ≡ one + count k (resources p.idles))
    × (q.active + length gone ≡ p.active)
    × (length q.idles + length gone ≡ more + length p.idles)
    × ((if q.closed then length q.idles else 0) ≡ 0)

pub put-Gives :
    (k now s : ℕ) (force_close : Bool) (p : Pool)
    → 1 ≤ p.active
    → (if p.closed then length p.idles else 0) ≡ 0
    → Gives k
        (if k == s then 1 else 0)
        1
        p
        (put now s force_close p).0
        (of_option (put now s force_close p).1)
unfolding put release notify
put-Gives k now s force_close p h d =
    let it : Item = record { created_at = now; s = s } in
    let (rest, len) = split_back_count k it p.idles in
    let less = minus_le p.active 1 h in
    elim (Bool-cases (p.closed || force_close)) [
      | inl closes ↦ rw closes (omega arith, omega (arith, less, h), omega arith, d)
      | inr stays ↦
          let still : p.closed ≡ false = ground (arith, stays) in
          elim (Bool-cases (ltb p.conf.idle (suc (length p.idles)))) [
            | inl over ↦
                rw (stays, over)
                  (omega (arith, rest), omega (arith, less, h), omega (arith, len), rw still refl)
            | inr room ↦ rw (stays, room) (omega arith, omega arith, omega arith, rw still refl)
          ]
    ]

pub clean_expired-Gives :
    (k : ℕ) (clock : ℕ → ℕ) (p : Pool)
    → length p.idles ≤ p.active
    → (if p.closed then length p.idles else 0) ≡ 0
    → Gives k 0 0 p (clean_expired clock p).0 (clean_expired clock p).1
unfolding clean_expired notify
clean_expired-Gives k clock p h d =
    let (rest, len) = clean_count k p.conf.idle_timeout clock p.idles in
    let gone = (clean p.conf.idle_timeout clock p.idles).1 in
    let less = minus_le p.active (length gone) (omega (arith, len, h)) in
    elim (Bool-cases (p.closed || not (ltb_ℤ (pos 0) p.conf.idle_timeout))) [
      | inl stays ↦ rw stays (omega arith, omega arith, omega arith, d)
      | inr looks ↦
          let still : p.closed ≡ false = ground (arith, looks) in
          elim (Bool-cases (length gone == 0)) [
            | inl nothing ↦
                let none_gone = count_none k gone (ground (arith, nothing)) in
                let no_more : length gone ≡ 0 = ground (arith, nothing) in
                rw (looks, nothing)
                  (
                    omega (arith, rest, none_gone),
                    omega arith,
                    omega (arith, len, no_more),
                    rw still refl,
                  )
            | inr some_gone ↦
                rw (looks, some_gone)
                  (
                    omega (arith, rest),
                    omega (arith, less, len, h),
                    omega (arith, len),
                    rw still refl,
                  )
          ]
    ]

pub shutdown-Gives :
    (k : ℕ) (p : Pool) (gone : List ℕ)
    → length p.idles ≤ p.active
    → (shutdown p).1 ≡ some gone
    → Gives k 0 0 p (shutdown p).0 gone
unfolding shutdown notify
shutdown-Gives k p gone h e = elim (Bool-cases p.closed) [
  | inl was ↦ absurd (ground (arith, e, was))
  | inr open_ ↦
      let same : resources p.idles ≡ gone = ground (arith, e, open_) in
      let less = minus_le p.active (length p.idles) h in
      let len : length gone ≡ length p.idles = sym (ap length same) ∙ length-resources p.idles in
      let all = ap (count k) same in
      rw open_ (omega (arith, all), omega (arith, less, len, h), omega (arith, len), refl)
]

pub reserve_more :
    (p : Pool)
    → (reserve p).1 ≡ reserved
    → ((reserve p).0.active ≡ (p.active + 1) % 18446744073709551616)
      × ((reserve p).0.idles ≡ p.idles)
      × ((reserve p).0.closed ≡ p.closed)
unfolding reserve
reserve_more p e = ground (arith, e)

pub reserve_one :
    (p : Pool)
    → (reserve p).1 ≡ reserved
    → p.active + 1 < 18446744073709551616
    → (reserve p).0.active ≡ p.active + 1
reserve_one p e h = omega (arith, (reserve_more p e).0, h)
