-- ===== src/Generator/Order.antt =====
-- The identifiers of one generator ascend, whatever its clock shows; two generators with different
-- nodes share none.
use gkit.Prelude.{
  ℕ, ◌+◌, ◌%◌, ◌^◌, ◌≡◌, ◌≢◌, ◌<◌, ◌≤◌, none, some, List, [], ◌∷◌, arith, sym, ◌∙◌, ap,
  Option-cases, inl, inr,
}
use gkit.Prelude.Int.{ℤ, pos, negsuc}
use gkit.Prelude.Bits.{bit_and-ones}
use gkit.Generator.{
  Snowflake, Parts, IsValid, to_id, decompose, choose, advance, next_id, current_elapsed_time,
  new_snowflake, StartTime,
}
use gkit.Generator.Ids.{packed, id-eq-packed, decompose-to_id}

-- NextID keeps the fields in their bits.
pub choose-IsValid :
    (current : ℤ) (now : ℕ) (s : Snowflake) → IsValid s → IsValid (choose current now s).0
unfolding choose
choose-IsValid (pos n) now s v = ground (arith, bit_and-ones 8 ((s.sequence + 1) % 2 ^ 16))
choose-IsValid (negsuc n) now s v = ground (arith, bit_and-ones 8 ((s.sequence + 1) % 2 ^ 16))

-- It moves the fields, read as one number, up.
packed-lt-choose :
    (current : ℤ) (now : ℕ) (s : Snowflake) → IsValid s → packed s < packed (choose current now s).0
unfolding choose
packed-lt-choose (pos n) now s v = ground (arith, bit_and-ones 8 ((s.sequence + 1) % 2 ^ 16))
packed-lt-choose (negsuc n) now s v = ground (arith, bit_and-ones 8 ((s.sequence + 1) % 2 ^ 16))

module _ (now now' : ℕ) (s : Snowflake) (v : IsValid s) where
  pub advance-IsValid : IsValid (advance now now' s).0
  unfolding advance
  advance-IsValid = choose-IsValid (current_elapsed_time s.start_time now) now' s v

  pub packed-lt-advance : packed s < packed (advance now now' s).0
  unfolding advance
  packed-lt-advance = packed-lt-choose (current_elapsed_time s.start_time now) now' s v

-- The identifiers that a generator issues at successive calls, each with its readings of the clock;
-- a call that fails issues none.
unfoldable pub issue : List (ℕ × ℕ) → Snowflake → List ℕ
issue [] s = []
issue ((now, now') ∷ calls) s =
    let rest = issue calls (next_id now now' s).0 in
    elim (next_id now now' s).1 [ none ↦ rest | some id ↦ id ∷ rest ]

-- Every identifier is above the bound and below the next.
abbrev pub AscendsFrom : ℕ → List ℕ → Type 0
AscendsFrom b [] = Unit
AscendsFrom b (x ∷ xs) = (b < x) × AscendsFrom x xs

issue-AscendsFrom :
    (b : ℕ) (calls : List (ℕ × ℕ)) (s : Snowflake)
    → IsValid s
    → b ≤ packed s
    → AscendsFrom b (issue calls s)
unfolding issue next_id
issue-AscendsFrom b [] s v h = tt
issue-AscendsFrom b ((now, now') ∷ calls) s v h =
    let s' = (advance now now' s).0 in
    let v' = advance-IsValid now now' s v in
    let up = packed-lt-advance now now' s v in
    elim (Option-cases (to_id s')) [
      | inl e ↦ rw (e, issue, next_id) (issue-AscendsFrom b calls s' v' (omega arith))
      | inr (id, e) ↦
          let (_, whole) = id-eq-packed s' id v' e in
          rw (e, issue, next_id)
            (omega (arith, up, whole), issue-AscendsFrom id calls s' v' (omega (arith, whole)))
    ]

-- However the clock runs, back too, and however often calls fail: the identifiers that a valid
-- generator issues ascend strictly, so that no two of them are equal.
pub issue_ascends :
    (calls : List (ℕ × ℕ)) (s : Snowflake) → IsValid s → AscendsFrom (packed s) (issue calls s)
issue_ascends calls s v = issue-AscendsFrom (packed s) calls s v (omega arith)

-- Two generators with different nodes never issue the same identifier.
pub to_id_disjoint :
    (s t : Snowflake) (a b : ℕ)
    → IsValid s
    → IsValid t
    → s.node ≢ t.node
    → to_id s ≡ some a
    → to_id t ≡ some b
    → a ≢ b
to_id_disjoint s t a b vs vt differ e f same = differ (
    sym (ap (λ (x : Parts). x.node) (decompose-to_id s a vs e))
    ∙ ap (λ x. (decompose x).node) same
    ∙ ap (λ (x : Parts). x.node) (decompose-to_id t b vt f))

-- NewSnowflakeE gives a valid generator.
pub new_snowflake-IsValid :
    (start : StartTime) (node now : ℕ) (s : Snowflake)
    → node < 2 ^ 16
    → new_snowflake start node now ≡ some s
    → IsValid s
unfolding new_snowflake
new_snowflake-IsValid StartTime.zero_time node now s h e = ground arith
new_snowflake-IsValid (StartTime.at t) node now s h e = ground arith
