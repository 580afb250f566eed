-- ===== src/Pool/Bounds.antt =====
-- The limits of the configuration: how many resources the list pool has, and how many stay idle.
use gkit.Prelude.{
  ℕ, suc, ◌≡◌, ◌≤◌, ◌<◌, ap, ◌∙◌, Bool, true, not, ◌||◌, length, ltb, ◌==◌, arith, Bool-cases, inl,
  inr,
}
use gkit.Pool.{
  Config, Pool, reserved, taken, notify, release, reload, take, reserve, put, clean_expired,
  shutdown,
}
use gkit.Pool.Steps.{
  World, Step, takes_fresh, takes_stale, closes_stale, reserves, makes, makes_none, puts, cleans,
  shuts, reloads, Reach, here, go, start,
}
use gkit.Pool.Sections.{
  minus_le, take_item, split_back_count, put-Gives, clean_expired-Gives, shutdown-Gives,
  reserve_more, reserve_one,
}
use gkit.Pool.Conserved.{IsValid, reachable_conserved, length-taken, length-middle, Step-asked}

-- Whether the number `n` of active resources is within the limit `most`, where 0 is no limit.
abbrev pub limited : ℕ → ℕ → Bool
limited most n = (most == 0) || not (ltb most n)

abbrev pub Within : Config → Pool → Type 0
Within conf p = (limited conf.active p.active ≡ true) × (length p.idles ≤ conf.idle)

-- No section of the run sets a configuration other than `conf`.
unfoldable pub Steady : {w v : World} → Config → Reach w v → Type 0
Steady {v = v} conf here = v.pool.conf ≡ conf
Steady {v = v} conf (go r h) = Steady conf r × (v.pool.conf ≡ conf)

Steady-end : {w v : World} (conf : Config) (r : Reach w v) → Steady conf r → v.pool.conf ≡ conf
unfolding Steady
Steady-end conf here s = s
Steady-end conf (go r h) s = s.1

fewer_limited : (most : ℕ) {a b : ℕ} → b ≤ a → limited most a ≡ true → limited most b ≡ true
fewer_limited most h m = ground (arith, h, m)

fewer :
    (conf : Config) (p q : Pool)
    → q.active ≤ p.active
    → length q.idles ≤ length p.idles
    → Within conf p
    → Within conf q
fewer conf p q a l (m, i) = (fewer_limited conf.active a m, omega (arith, l, i))

released : (conf : Config) (p : Pool) → 1 ≤ p.active → Within conf p → Within conf (release p)
unfolding release notify
released conf p a (m, i) = (fewer_limited conf.active (omega (arith, minus_le p.active 1 a)) m, i)

put_idles :
    (now s : ℕ) (force_close : Bool) (p : Pool)
    → length p.idles ≤ p.conf.idle
    → length (put now s force_close p).0.idles ≤ p.conf.idle
unfolding put release notify
put_idles now s force_close p i =
    let len = (split_back_count 0 (record { created_at = now; s = s }) p.idles).1 in
    elim (Bool-cases (p.closed || force_close)) [
      | inl closes ↦ rw closes i
      | inr stays ↦ elim (Bool-cases (ltb p.conf.idle (suc (length p.idles)))) [
        | inl over ↦ rw (stays, over) (omega (arith, len, i))
        | inr room ↦ rw (stays, room) (ground (arith, room))
      ]
    ]

reserve_limit :
    (p : Pool)
    → (reserve p).1 ≡ reserved
    → ((p.conf.active == 0) || ltb p.active p.conf.active) ≡ true
unfolding reserve
reserve_limit p e = ground (arith, e)

Step-Within :
    {w v : World} (conf : Config)
    → Step w v
    → v.asked < 18446744073709551616
    → IsValid w
    → w.pool.conf ≡ conf
    → Within conf w.pool
    → Within conf v.pool
unfolding release notify reload
Step-Within conf (takes_fresh left now s w h) b v c i =
    let t = take_item left now s w.pool (ap taken h) in
    let q = (take left now w.pool).0 in
    fewer conf w.pool q (omega (arith, t.1)) (omega (arith, length-taken s w.pool q t)) i
Step-Within conf (takes_stale left now s w h) b v c i =
    let t = take_item left now s w.pool (ap taken h) in
    let q = (take left now w.pool).0 in
    fewer conf w.pool q (omega (arith, t.1)) (omega (arith, length-taken s w.pool q t)) i
Step-Within conf (closes_stale xs ys s w e) b v c i =
    let len = ap length e ∙ length-middle xs ys s in
    released conf w.pool (omega (arith, v.active, len)) i
Step-Within conf (reserves w h) b v c (m, i) =
    let one = reserve_one w.pool h (omega (arith, v.asked, b)) in
    (
      ground (arith, one, ap Config.active c, reserve_limit w.pool h),
      omega (arith, i, ap length (reserve_more w.pool h).1),
    )
Step-Within conf (makes n w e) b v c i = i
Step-Within conf (makes_none n w e) b v c i = released conf w.pool (omega (arith, v.active, e)) i
Step-Within conf (puts now xs ys s force_close w e) b v c (m, i) =
    let q = (put now s force_close w.pool).0 in
    let len = ap length e ∙ length-middle xs ys s in
    let used : 1 ≤ w.pool.active = omega (arith, v.active, len) in
    let (_, less, _, _) = put-Gives 0 now s force_close w.pool used v.drained in
    let most = ap Config.idle c in
    let idles = put_idles now s force_close w.pool (omega (arith, most, i)) in
    (fewer_limited conf.active (omega (arith, less)) m, omega (arith, most, idles))
Step-Within conf (cleans now w) b v c i =
    let (_, less, room, _) = clean_expired-Gives 0 now w.pool (omega (arith, v.active)) v.drained in
    fewer conf w.pool (clean_expired now w.pool).0 (omega (arith, less)) (omega (arith, room)) i
Step-Within conf (shuts gone w h) b v c i =
    let (_, less, room, _) = shutdown-Gives 0 w.pool gone (omega (arith, v.active)) h in
    fewer conf w.pool (shutdown w.pool).0 (omega (arith, less)) (omega (arith, room)) i
Step-Within conf (reloads os w) b v c i = i

-- As long as no section changes the configuration of a new pool, and fewer than 2^64 places are taken
-- for new resources, the counter of active resources is at most `active`, unless `active` is 0, and
-- at most `idle` items are idle.
pub limits_kept :
    (conf : Config) (w : World)
    → (r : Reach (start conf) w) → Steady conf r
    → w.asked < 18446744073709551616
    → Within conf w.pool
unfolding Steady start
limits_kept conf w here s b = (ground arith, omega arith)
limits_kept conf w (go {u = u} r h) s b =
    let less : u.asked < 18446744073709551616 = omega (arith, Step-asked h, b) in
    let (before, _) = s in
    let same = Steady-end conf r before in
    Step-Within conf h b (reachable_conserved conf u r less) same (limits_kept conf u r before less)
