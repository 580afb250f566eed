-- ===== src/Codel.antt =====
-- container/queue/codel/queue.go: the CoDel queue. Times are signed milliseconds, a reading of the
-- clock is an argument, and what the division by the square root gives is a parameter. A packet's
-- channel is its number.
pub mod Judge
pub mod Verdicts
mod Tests
use gkit.Prelude.{
  ℕ, zero, suc, ◌+◌, ◌≡◌, refl, Bool, true, false, not, ◌&&◌, ◌||◌, Option, none, some, List, [],
  ◌∷◌, ◌++◌, length, ltb, ◌==◌, if◌then◌else◌,
}
use gkit.Prelude.Int.{ℤ, pos, negsuc, ◌+ℤ◌, ◌-ℤ◌, ltb_ℤ}

pub record Config : Type 0 where
  pub target : ℤ
  pub internal : ℤ

pub record Packet : Type 0 where
  pub ch : ℕ
  pub ts : ℤ

pub record Queue : Type 0 where
  pub dropping : Bool
  pub packets : List Packet
  pub conf : Config
  pub count : ℤ
  pub fa_time : ℤ
  pub drop_next : ℤ

abbrev pub default_config : Config
default_config = record { target = pos 20; internal = pos 500 }

abbrev pub capacity : ℕ
capacity = 2048

-- NewQueue, over the configuration that the options have made.
unfoldable pub new_queue : Config → Queue
new_queue c = record {
  dropping = false;
  packets = [];
  conf =
      if not (ltb_ℤ (pos 0) c.target) || not (ltb_ℤ (pos 0) c.internal) then default_config else c;
  count = pos 0;
  fa_time = pos 0;
  drop_next = pos 0;
}

-- Reload; a nil configuration is `none`.
unfoldable pub reload : Option Config → Queue → Queue
reload none q = q
reload (some c) q =
    if not (ltb_ℤ (pos 0) c.internal) || not (ltb_ℤ (pos 0) c.target)
    then q
    else record q { conf = c }

-- The first select of Push, and whether it ends in LimitExceed.
unfoldable pub push : Packet → Queue → Queue × Bool
push p q =
    if ltb (length q.packets) capacity
    then (record q { packets = q.packets ++ p ∷ [] }, false)
    else (q, true)

abbrev pub is_zero : ℤ → Bool
is_zero (pos zero) = true
is_zero (pos (suc n)) = false
is_zero (negsuc n) = false

-- The first test of judge: whether the packet has waited too long for too long.
unfoldable pub observe : ℤ → Packet → Queue → Bool × Queue
unfolding ◌-ℤ◌ ◌+ℤ◌
observe now p q =
    if ltb_ℤ (now -ℤ p.ts) q.conf.target
    then (false, record q { fa_time = pos 0 })
    else if is_zero q.fa_time
    then (false, record q { fa_time = now +ℤ q.conf.internal })
    else if ltb_ℤ now q.fa_time
    then (false, q)
    else (true, q)

module _ (pause : ℤ → ℤ → ℤ) where
  -- controlLaw; `pause internal count` is int64(internal / sqrt(count)).
  unfoldable pub control_law : ℤ → Queue → Queue
  unfolding ◌+ℤ◌
  control_law now q = record q { drop_next = now +ℤ pause q.conf.internal q.count }

  -- The second test of judge, in the dropping state.
  unfoldable pub judge_dropping : ℤ → Bool → Queue → Bool × Queue
  unfolding control_law ◌+ℤ◌
  judge_dropping now drop q =
      if not drop
      then (drop, record q { dropping = false })
      else if ltb_ℤ q.drop_next now
      then (true, control_law q.drop_next (record q { count = q.count +ℤ pos 1 }))
      else (drop, q)

  -- The same outside it.
  unfoldable pub judge_calm : ℤ → Bool → Queue → Bool × Queue
  unfolding control_law ◌-ℤ◌
  judge_calm now drop q =
      let recent = ltb_ℤ (now -ℤ q.drop_next) q.conf.internal in
      if drop && (recent || not (ltb_ℤ (now -ℤ q.fa_time) q.conf.internal))
      then (
        true,
        control_law now (record q {
          dropping = true;
          count =
              if recent then if ltb_ℤ (pos 2) q.count then q.count -ℤ pos 2 else pos 1 else pos 1;
        }),
      )
      else (drop, q)

  unfoldable pub judge : ℤ → Packet → Queue → Bool × Queue
  unfolding observe judge_dropping judge_calm
  judge now p q =
      let (drop, q') = observe now p q in
      if q'.dropping then judge_dropping now drop q' else judge_calm now drop q'

  -- Pop over the packets that wait; `clock` numbers the readings. The result has the packets that
  -- were told to drop, and the one that was let through.
  unfoldable pub pop_loop : (ℕ → ℤ) → ℕ → List Packet → Queue → List Packet × Option Packet × Queue
  unfolding judge
  pop_loop clock i [] q = ([], none, record q { packets = [] })
  pop_loop clock i (p ∷ ps) q =
      let (drop, q') = judge (clock i) p (record q { packets = ps }) in
      let (dropped, admitted, end) = pop_loop clock (suc i) ps q' in
      if drop then (p ∷ dropped, admitted, end) else ([], some p, q')

  unfoldable pub pop : (ℕ → ℤ) → Queue → List Packet × Option Packet × Queue
  unfolding pop_loop
  pop clock q = pop_loop clock 0 q.packets q
