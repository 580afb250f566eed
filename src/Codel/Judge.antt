-- ===== src/Codel/Judge.antt =====
-- What judge decides, and the counter that the control law divides by.
use gkit.Prelude.{
  ◌≡◌, refl, subst, ◌∙◌, Bool, true, false, not, ◌||◌, if◌then◌else◌, arith, Bool-cases, inl, inr,
}
use gkit.Prelude.Int.{ℤ, pos, ◌-ℤ◌, ◌≤ℤ◌, ltb_ℤ, +ℤ_parts, -ℤ_parts}
use gkit.Codel.{Packet, Queue, is_zero, observe, control_law, judge_dropping, judge_calm, judge}

-- In the dropping state at least one packet has been counted.
abbrev pub IsCounted : Queue → Type 0
IsCounted q = if q.dropping then pos 1 ≤ℤ q.count else pos 0 ≤ℤ q.count

less_two : (c : ℤ) → pos 1 ≤ℤ (if ltb_ℤ (pos 2) c then c -ℤ pos 2 else pos 1)
less_two c = elim (Bool-cases (ltb_ℤ (pos 2) c)) [
  | inl more ↦ rw more (ground (arith, -ℤ_parts c (pos 2), more))
  | inr few ↦ rw few (omega arith)
]

module _ (pause : ℤ → ℤ → ℤ) where
  judge_dropping-fst :
      (now : ℤ) (drop : Bool) (q : Queue) → (judge_dropping pause now drop q).0 ≡ drop
  unfolding judge_dropping
  judge_dropping-fst now true q = ground arith
  judge_dropping-fst now false q = refl

  judge_calm-fst : (now : ℤ) (drop : Bool) (q : Queue) → (judge_calm pause now drop q).0 ≡ drop
  unfolding judge_calm
  judge_calm-fst now true q = ground arith
  judge_calm-fst now false q = refl

  either-fst :
      (on : Bool) (now : ℤ) (drop : Bool) (q : Queue)
      → (if on then judge_dropping pause now drop q else judge_calm pause now drop q).0 ≡ drop
  either-fst true now drop q = judge_dropping-fst now drop q
  either-fst false now drop q = judge_calm-fst now drop q

  -- Whether judge drops a packet is settled by how long it has waited and by the time since which
  -- packets have waited too long; the dropping state, the counter and the time that the control law
  -- set for the next drop do not enter.
  pub judge-observe :
      (now : ℤ) (p : Packet) (q : Queue) → (judge pause now p q).0 ≡ (observe now p q).0
  unfolding judge
  judge-observe now p q = let (drop, q') = observe now p q in either-fst q'.dropping now drop q'

  judge_dropping-IsCounted :
      (now : ℤ) (drop : Bool) (q : Queue)
      → pos 1 ≤ℤ q.count
      → q.dropping ≡ true
      → IsCounted (judge_dropping pause now drop q).1
  unfolding judge_dropping control_law
  judge_dropping-IsCounted now false q h on = omega arith
  judge_dropping-IsCounted now true q h on = elim (Bool-cases (ltb_ℤ q.drop_next now)) [
    | inl late ↦ rw (late, on) (omega (arith, +ℤ_parts q.count (pos 1)))
    | inr early ↦ rw (early, on) h
  ]

  judge_calm-IsCounted :
      (now : ℤ) (drop : Bool) (q : Queue)
      → pos 0 ≤ℤ q.count
      → q.dropping ≡ false
      → IsCounted (judge_calm pause now drop q).1
  unfolding judge_calm control_law
  judge_calm-IsCounted now false q h off = rw off h
  judge_calm-IsCounted now true q h off =
      let recent = ltb_ℤ (now -ℤ q.drop_next) q.conf.internal in
      let enter = recent || not (ltb_ℤ (now -ℤ q.fa_time) q.conf.internal) in
      elim (Bool-cases enter) [
        | inl entered ↦ elim (Bool-cases recent) [
          | inl soon ↦ rw (entered, soon) (less_two q.count)
          | inr late ↦ rw (entered, late) (omega arith)
        ]
        | inr stayed ↦ rw (stayed, off) h
      ]

  observe_keeps :
      (now : ℤ) (p : Packet) (q : Queue)
      → ((observe now p q).1.dropping ≡ q.dropping)
        × ((observe now p q).1.count ≡ q.count)
        × ((observe now p q).1.packets ≡ q.packets)
  unfolding observe
  observe_keeps now p q = elim (Bool-cases (ltb_ℤ (now -ℤ p.ts) q.conf.target)) [
    | inl short ↦ rw (observe, short) (refl, refl, refl)
    | inr long ↦ elim (Bool-cases (is_zero q.fa_time)) [
      | inl first ↦ rw (observe, long, first) (refl, refl, refl)
      | inr again ↦ elim (Bool-cases (ltb_ℤ now q.fa_time)) [
        | inl soon ↦ rw (observe, long, again, soon) (refl, refl, refl)
        | inr late ↦ rw (observe, long, again, late) (refl, refl, refl)
      ]
    ]
  ]

  either-IsCounted :
      (on : Bool) (now : ℤ) (drop : Bool) (q : Queue)
      → q.dropping ≡ on
      → IsCounted q
      → IsCounted (if on then judge_dropping pause now drop q else judge_calm pause now drop q).1
  either-IsCounted true now drop q e h =
      let some_counted : pos 1 ≤ℤ q.count =
        subst (λ b. if b then pos 1 ≤ℤ q.count else pos 0 ≤ℤ q.count) e h in
      judge_dropping-IsCounted now drop q some_counted e
  either-IsCounted false now drop q e h =
      let not_less : pos 0 ≤ℤ q.count =
        subst (λ b. if b then pos 1 ≤ℤ q.count else pos 0 ≤ℤ q.count) e h in
      judge_calm-IsCounted now drop q not_less e

  -- judge keeps the counter at 1 or more in the dropping state, and at 0 or more outside it.
  pub judge-IsCounted :
      (now : ℤ) (p : Packet) (q : Queue) → IsCounted q → IsCounted (judge pause now p q).1
  unfolding judge
  judge-IsCounted now p q h =
      let (drop, q') = observe now p q in
      let (same_state, same_count, same_packets) = observe_keeps now p q in
      either-IsCounted q'.dropping now drop q' refl (rw (same_state, same_count) h)

  judge_dropping-packets :
      (now : ℤ) (drop : Bool) (q : Queue) → (judge_dropping pause now drop q).1.packets ≡ q.packets
  unfolding judge_dropping control_law
  judge_dropping-packets now false q = refl
  judge_dropping-packets now true q = elim (Bool-cases (ltb_ℤ q.drop_next now)) [
    | inl late ↦ rw late refl
    | inr early ↦ rw early refl
  ]

  judge_calm-packets :
      (now : ℤ) (drop : Bool) (q : Queue) → (judge_calm pause now drop q).1.packets ≡ q.packets
  unfolding judge_calm control_law
  judge_calm-packets now false q = refl
  judge_calm-packets now true q =
      let recent = ltb_ℤ (now -ℤ q.drop_next) q.conf.internal in
      let enter = recent || not (ltb_ℤ (now -ℤ q.fa_time) q.conf.internal) in
      elim (Bool-cases enter) [ inl entered ↦ rw entered refl | inr stayed ↦ rw stayed refl ]

  either-packets :
      (on : Bool) (now : ℤ) (drop : Bool) (q : Queue)
      → (if on then judge_dropping pause now drop q else judge_calm pause now drop q).1.packets
        ≡ q.packets
  either-packets true now drop q = judge_dropping-packets now drop q
  either-packets false now drop q = judge_calm-packets now drop q

  pub judge-packets :
      (now : ℤ) (p : Packet) (q : Queue) → (judge pause now p q).1.packets ≡ q.packets
  unfolding judge
  judge-packets now p q =
      let (drop, q') = observe now p q in
      let (same_state, same_count, same_packets) = observe_keeps now p q in
      either-packets q'.dropping now drop q' ∙ same_packets
