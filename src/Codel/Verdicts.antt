-- ===== src/Codel/Verdicts.antt =====
-- Which packets Pop drops and which it lets through.
use gkit.Prelude.{
  ℕ, suc, ◌≡◌, refl, sym, ap, ◌∙◌, true, false, Bool-cases, inl, inr, Option, none, some, List, [],
  ◌∷◌, ◌++◌, arith,
}
use gkit.Prelude.Int.{ℤ, ◌-ℤ◌, ◌≤ℤ◌, ltb_ℤ}
use gkit.Codel.{Packet, Queue, observe, judge, pop_loop, pop}
use gkit.Codel.Judge.{judge-observe, judge-packets}

abbrev pub of_option : Option Packet → List Packet
of_option none = []
of_option (some p) = p ∷ []

-- A dropped packet has waited for the target or longer.
observe-long :
    (now : ℤ) (p : Packet) (q : Queue) → (observe now p q).0 ≡ true → q.conf.target ≤ℤ now -ℤ p.ts
unfolding observe
observe-long now p q h = elim (Bool-cases (ltb_ℤ (now -ℤ p.ts) q.conf.target)) [
  | inl short ↦ absurd (ground (arith, rw (observe, short) at h))
  | inr long ↦ ground (arith, long)
]

module _ (pause : ℤ → ℤ → ℤ) where
  -- The queue `q`, from which the packets `ps` are looked at in turn with the readings of the clock
  -- from number `i` on, drops `ds` and lets `a` through: a packet is dropped if it has waited for
  -- the target or longer and the first test of judge holds, and let through if that test fails.
  unfoldable pub Verdicts : (ℕ → ℤ) → ℕ → List Packet → Queue → List Packet → Option Packet → Type 0
  Verdicts clock i [] q ds a = (ds ≡ []) × (a ≡ none)
  Verdicts clock i (p ∷ ps) q [] a = (a ≡ some p) × ((observe (clock i) p q).0 ≡ false)
  Verdicts clock i (p ∷ ps) q (d ∷ ds) a =
      (d ≡ p)
      × ((observe (clock i) p q).0 ≡ true)
      × (q.conf.target ≤ℤ clock i -ℤ p.ts)
      × Verdicts clock (suc i) ps (judge pause (clock i) p (record q { packets = ps })).1 ds a

  observe-packets :
      (now : ℤ) (p : Packet) (ps : List Packet) (q : Queue)
      → (observe now p (record q { packets = ps })).0 ≡ (observe now p q).0
  unfolding observe
  observe-packets now p ps q = ground arith

  pop_loop_lem :
      (clock : ℕ → ℤ) (i : ℕ) (ps : List Packet) (q : Queue)
      → let (dropped, admitted, end) = pop_loop pause clock i ps q in
        (ps ≡ dropped ++ (of_option admitted ++ end.packets))
        × Verdicts clock i ps q dropped admitted
  unfolding pop_loop Verdicts
  pop_loop_lem clock i [] q = (refl, (refl, refl))
  pop_loop_lem clock i (p ∷ ps) q =
      let q' : Queue = record q { packets = ps } in
      let after = (judge pause (clock i) p q').1 in
      let (order, verdicts) = pop_loop_lem clock (suc i) ps after in
      let test = judge-observe pause (clock i) p q' ∙ observe-packets (clock i) p ps q in
      elim (Bool-cases (judge pause (clock i) p q').0) [
        | inl drop ↦
            let on = sym test ∙ drop in
            rw drop (ap (◌∷◌ p) order, (refl, on, observe-long (clock i) p q on, verdicts))
        | inr admit ↦
            rw admit
              (ap (◌∷◌ p) (sym (judge-packets pause (clock i) p q')), (refl, sym test ∙ admit))
      ]

  -- Pop answers the packets that wait from the oldest on: all that it drops, then the one that it
  -- lets through, and the others stay. Each dropped packet has waited for the target or longer when
  -- it is looked at and the first test of judge holds for it; the one that is let through is the
  -- first for which that test fails; if there is none, all packets are dropped.
  pub pop_order :
      (clock : ℕ → ℤ) (q : Queue)
      → let (dropped, admitted, end) = pop pause clock q in
        (q.packets ≡ dropped ++ (of_option admitted ++ end.packets))
        × Verdicts clock 0 q.packets q dropped admitted
  unfolding pop
  pop_order clock q = pop_loop_lem clock 0 q.packets q
