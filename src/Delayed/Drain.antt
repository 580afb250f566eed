-- ===== src/Delayed/Drain.antt =====
-- popIfReady and the sentinel's loop over it, with clients at work between its passes.
use gkit.Prelude.{
  ℕ, zero, suc, ◌+◌, ◌≡◌, ◌≤◌, ◌<◌, refl, not, ◌&&◌, ◌++◌, Bool, Bool-cases, inl, inr, Option, none,
  some, List, [], ◌∷◌, length, ltb, ◌==◌, arith,
}
use gkit.Delayed.{
  Task, slot, when, Dispatcher, cut_top, pop_if_ready, Client, act_all, first, later, actions,
  drain_loop, drain,
}
use gkit.Delayed.Slots.{one, count, count-none, count-append}
use gkit.Delayed.Order.{root_least}
use gkit.Delayed.Clients.{act_all-Acted}
use gkit.Delayed.Queue.{IsValid, cut_top-count, cut_top-IsValid}

-- Whether a task is before the time `n`, and whether it is past it.
abbrev pub before : ℕ → Task → Bool
before n t = ltb t.exec_time n

abbrev pub past : ℕ → Task → Bool
past n t = ltb n t.exec_time

-- What popIfReady leaves, and what it gives.
pub data Popped (now : ℕ) (d : Dispatcher) : Dispatcher × Option Task → Type 0 where
  idle : count (λ t. not (past now t)) d.delays ≡ 0 → Popped now d (d, none)
  ready :
      (rest : Dispatcher) (t : Task)
      → IsValid rest.delays
      → t.exec_time ≤ now
      → rest.is_close ≡ d.is_close
      → suc (length rest.delays) ≡ length d.delays
      → ((p : Task → Bool) → one p t + count p rest.delays ≡ count p d.delays)
      → count (before t.exec_time) d.delays ≡ 0
      → Popped now d (rest, some t)

pub pop_if_ready-Popped :
    (now : ℕ) (d : Dispatcher) → IsValid d.delays → Popped now d (pop_if_ready now d)
unfolding pop_if_ready
pop_if_ready-Popped now d v = elim (Bool-cases (length d.delays == 0)) [
  | inl empty ↦ rw empty (idle (count-none _ d.delays (λ i h. absurd (ground (arith, empty, h)))))
  | inr filled ↦
      let some_left : 0 < length d.delays = ground (arith, filled) in
      let least = λ (i : ℕ) (h : i < length d.delays). root_least d.delays i v.heap h in
      elim (Bool-cases (ltb now (when d.delays 0))) [
        | inl later ↦
            rw (filled, later)
              (idle (count-none _ d.delays (λ i h. ground (arith, later, least i h))))
        | inr due ↦
            let (_, len) = cut_top-count d.delays (before 0) some_left in
            rw (filled, due)
              (ready (record d { delays = cut_top d.delays }) (slot d.delays 0)
                (cut_top-IsValid d.delays some_left v) (ground (arith, due)) refl
                (omega (arith, len, some_left))
                (λ p. omega (arith, (cut_top-count d.delays p some_left).0))
                (count-none _ d.delays (λ i h. ground (arith, least i h))))
      ]
]

count-and : (p q : Task → Bool) (ts : List Task) → count (λ u. p u && q u) ts ≤ count p ts
count-and p q [] = omega arith
count-and p q (t ∷ ts) =
    let rest = count-and p q ts in
    elim (Bool-cases (p t)) [
      | inl yes_p ↦ elim (Bool-cases (q t)) [
        | inl yes_q ↦ rw (yes_p, yes_q) (omega (arith, rest))
        | inr no_q ↦ rw (yes_p, no_q) (omega (arith, rest))
      ]
      | inr no_p ↦ rw no_p (omega (arith, rest))
    ]

actions_split : (css : List (List Client)) → length (first css) + actions (later css) ≡ actions css
actions_split [] = omega arith
actions_split (cs ∷ css) = refl

-- The tasks that were handed on, and those that were added meanwhile.
abbrev pub handed : List (Task × List Task) → List Task
handed [] = []
handed ((t, added) ∷ passes) = t ∷ handed passes

abbrev pub accepted : List (Task × List Task) → List Task
accepted [] = []
accepted ((t, added) ∷ passes) = added ++ accepted passes

-- In the order of their times, but for those that were added too late for it: of the tasks of any
-- kind that are handed on after a task and have an earlier time there are no more than were added
-- after that task had been handed on.
unfoldable pub IsOrdered : List (Task × List Task) → Type 0
IsOrdered [] = Unit
IsOrdered ((t, added) ∷ passes) =
    ((p : Task → Bool)
      → count (λ u. before t.exec_time u && p u) (handed passes)
        ≤ count (λ u. before t.exec_time u && p u) (added ++ accepted passes))
    × IsOrdered passes

-- What the sentinel leaves of the tasks `d`, and what it hands on in its passes.
pub record Drained (now : ℕ) (d last : List Task) (passes : List (Task × List Task)) : Type 0 where
  pub valid : IsValid last
  pub ordered : IsOrdered passes
  pub due : count (past now) (handed passes) ≡ 0
  pub left : count (λ t. not (past now t)) last ≡ 0
  pub kept :
      (p : Task → Bool)
      → count p (handed passes) + count p last ≡ count p d + count p (accepted passes)

drain_step :
    (k now : ℕ) (css : List (List Client)) (d : Dispatcher) (r : Dispatcher × Option Task)
    → length d.delays + actions css < suc k
    → IsValid d.delays
    → Popped now d r
    → ((e : Dispatcher)
        → length e.delays + actions (later css) < k
        → IsValid e.delays
        → let (last, ps) = drain_loop k now (later css) e in Drained now e.delays last.delays ps)
    → let (rest', added) = act_all (first css) r.0 in
      let (last, ps) = drain_loop k now (later css) rest' in
      let (last', ps') = elim r.1 as (λ _. Dispatcher × List (Task × List Task)) [
        | none ↦ (r.0, [])
        | some t ↦ (last, (t, added) ∷ ps)
      ] in
      Drained now d.delays last'.delays ps'
unfolding IsOrdered
drain_step k now css d r f v (idle none_due) ih = record {
  valid = v;
  ordered = tt;
  due = refl;
  left = none_due;
  kept = λ p. omega arith;
}
drain_step k now css d r f v (ready rest t ok due same len kept least) ih =
    let a = act_all-Acted (first css) rest ok in
    let added = (act_all (first css) rest).1 in
    let rest' = (act_all (first css) rest).0 in
    let fuel : length rest'.delays + actions (later css) < k =
      omega (arith, f, len, a.few, actions_split css) in
    let s = ih rest' fuel a.valid in
    let ps = (drain_loop k now (later css) rest').1 in
    let none_before : count (before t.exec_time) rest.delays ≡ 0 =
      omega (arith, kept (before t.exec_time), least) in
    record {
      valid = s.valid;
      ordered = (
        (λ p.
            let q = λ (u : Task). before t.exec_time u && p u in
            omega (
              arith,
              s.kept q,
              a.kept q,
              count-and (before t.exec_time) p rest.delays,
              none_before,
              count-append q added (accepted ps),
            )),
        s.ordered,
      );
      due = ground (arith, s.due, due);
      left = s.left;
      kept = λ p. omega (arith, s.kept p, kept p, a.kept p, count-append p added (accepted ps));
    }

drain_loop-Drained :
    (k now : ℕ) (css : List (List Client)) (d : Dispatcher)
    → length d.delays + actions css < k
    → IsValid d.delays
    → let (last, ps) = drain_loop k now css d in Drained now d.delays last.delays ps
unfolding drain_loop
drain_loop-Drained zero now css d f v = absurd (omega (arith, f))
drain_loop-Drained (suc k) now css d f v =
    drain_step k now css d (pop_if_ready now d) f v (pop_if_ready-Popped now d v)
      (λ e g w. drain_loop-Drained k now (later css) e g w)

-- At a tick, whatever clients add and whether they close the dispatcher between the passes of its
-- loop, the sentinel's loop ends; it has handed on only tasks whose time has come, and those that are
-- left are all past that time and a valid heap; no task is lost or twice there. Of the tasks handed on
-- after another with an earlier time, all were added after that other one had been handed on: with no
-- such tasks the order is that of the times.
pub drain-Drained :
    (now : ℕ) (css : List (List Client)) (d : Dispatcher)
    → IsValid d.delays
    → let (last, passes) = drain now css d in Drained now d.delays last.delays passes
unfolding drain
drain-Drained now css d v =
    drain_loop-Drained (length d.delays + actions css + 1) now css d (omega arith) v
