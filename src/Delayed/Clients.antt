-- ===== src/Delayed/Clients.antt =====
-- What clients do between the passes of the sentinel's loop.
use gkit.Prelude.{
  ℕ, ◌+◌, ◌≡◌, ◌≤◌, ◌<◌, refl, sym, ap, subst, ◌∙◌, true, false, Bool, Bool-cases, inl, inr, List,
  [], ◌∷◌, length, ◌==◌, if◌then◌else◌, arith,
}
use gkit.Delayed.{
  Task, Dispatcher, add_locked, add_delayed, close, Client, adds, closes, act, act_all,
}
use gkit.Delayed.Slots.{count, count-append}
use gkit.Delayed.Queue.{IsValid, add_locked-IsValid, add_locked-count}

-- What clients do keeps the heap, and adds just the tasks that were accepted.
pub record Acted (n : ℕ) (d e : Dispatcher) (ts : List Task) : Type 0 where
  pub valid : IsValid e.delays
  pub kept : (p : Task → Bool) → count p e.delays ≡ count p d.delays + count p ts
  pub few : length e.delays ≤ length d.delays + n

count-length : (ts : List Task) → count (λ t. true) ts ≡ length ts
count-length [] = refl
count-length (t ∷ ts) = omega (arith, count-length ts)

locked-Acted :
    (t : Task) (d : Dispatcher)
    → 0 < t.exec_time
    → IsValid d.delays
    → Acted 1 d (add_locked t d) (if d.is_close then [] else t ∷ [])
locked-Acted t d h v = record {
  valid = add_locked-IsValid t d h v;
  kept = λ p. ground (arith, add_locked-count p t d);
  few = ground (
    arith,
    add_locked-count (λ u. true) t d,
    count-length (add_locked t d).delays,
    count-length d.delays,
  );
}

same-Acted : (d : Dispatcher) → IsValid d.delays → Acted 1 d d []
same-Acted d v = record { valid = v; kept = λ p. omega arith; few = omega arith }

close-Acted : (d : Dispatcher) → IsValid d.delays → Acted 1 d (close d).0 []
unfolding close
close-Acted d v = elim (Bool-cases d.is_close) [
  | inl shut ↦ rw (close, shut) (record { valid = v; kept = λ p. omega arith; few = omega arith })
  | inr open_ ↦ rw (close, open_) (record { valid = v; kept = λ p. omega arith; few = omega arith })
]

pub add_locked_shut : (t : Task) (d : Dispatcher) → d.is_close ≡ true → add_locked t d ≡ d
unfolding add_locked
add_locked_shut t d h = rw h refl

-- The test of IsClose before the lock is the one under it.
add_delayed-add_locked :
    (t : Task) (d : Dispatcher) → (t.exec_time == 0) ≡ false → add_delayed t d ≡ add_locked t d
unfolding add_delayed
add_delayed-add_locked t d timed = elim (Bool-cases d.is_close) [
  | inl shut ↦
      ap (λ b. if b then d else if d.is_close then d else add_locked t d) timed
      ∙ ap (λ b. if b then d else add_locked t d) shut
      ∙ sym (add_locked_shut t d shut)
  | inr open_ ↦
      ap (λ b. if b then d else if d.is_close then d else add_locked t d) timed
      ∙ ap (λ b. if b then d else add_locked t d) open_
]

add_delayed_invalid : (t : Task) (d : Dispatcher) → (t.exec_time == 0) ≡ true → add_delayed t d ≡ d
unfolding add_delayed
add_delayed_invalid t d h = ap (λ b. if b then d else if d.is_close then d else add_locked t d) h

act-Acted : (c : Client) (d : Dispatcher) → IsValid d.delays → Acted 1 d (act c d).0 (act c d).1
unfolding act
act-Acted closes d v = close-Acted d v
act-Acted (adds t) d v =
    let taken = λ (b : Bool). if b then [] else if d.is_close then [] else t ∷ [] in
    elim (Bool-cases (t.exec_time == 0)) [
      | inl invalid ↦
          subst (λ b. Acted 1 d (add_delayed t d) (taken b)) (sym invalid)
            (subst (λ e. Acted 1 d e []) (sym (add_delayed_invalid t d invalid)) (same-Acted d v))
      | inr timed ↦
          subst (λ b. Acted 1 d (add_delayed t d) (taken b)) (sym timed)
            (subst (λ e. Acted 1 d e (if d.is_close then [] else t ∷ []))
              (sym (add_delayed-add_locked t d timed)) (locked-Acted t d (ground (arith, timed)) v))
    ]

pub act_all-Acted :
    (cs : List Client) (d : Dispatcher)
    → IsValid d.delays
    → Acted (length cs) d (act_all cs d).0 (act_all cs d).1
unfolding act_all
act_all-Acted [] d v = record { valid = v; kept = λ p. omega arith; few = omega arith }
act_all-Acted (c ∷ cs) d v =
    let s = act-Acted c d v in
    let u = act_all-Acted cs (act c d).0 s.valid in
    record {
      valid = u.valid;
      kept = λ p.
          omega (arith, s.kept p, u.kept p, count-append p (act c d).1 (act_all cs (act c d).0).1);
      few = omega (arith, s.few, u.few);
    }
