-- ===== src/Pool/Waking.antt =====
-- The waiting of Get in the list pool: the channel that it waits on is closed whenever another Get
-- could get further, and giving a resource back makes that so.
use gkit.Prelude.{
  ℕ, zero, suc, ◌+◌, ◌≡◌, ◌≤◌, refl, sym, ap, ◌∙◌, Bool, true, false, not, ◌||◌, some, List, [],
  ◌∷◌, length, ltb, ◌==◌, arith, Bool-cases, inl, inr,
}
use gkit.Prelude.Int.{ℤ, pos, ltb_ℤ}
use gkit.Pool.{
  Item, Pool, Got, fresh, stale, reserved, waits, failed, expire, taken, minus, notify, release,
  reload, take_from, take, get_round, reserve, put, split_back, clean, clean_expired, shutdown,
}
use gkit.Pool.Steps.{
  World, Step, takes_fresh, takes_stale, closes_stale, reserves, makes, makes_none, puts, cleans,
  shuts, reloads, Reach, here, go,
}
use gkit.Pool.Sections.{minus_le, take_item}

put-generation :
    (now s : ℕ) (force_close : Bool) (p : Pool)
    → (put now s force_close p).0.generation ≡ p.generation + 1
unfolding put release notify
put-generation now s force_close p = ground arith

shutdown-generation :
    (p : Pool) (gone : List ℕ)
    → (shutdown p).1 ≡ some gone
    → (shutdown p).0.generation ≡ p.generation + 1
unfolding shutdown notify
shutdown-generation p gone h = ground (arith, h)

clean_expired-generation :
    (now : ℕ → ℕ) (p : Pool) → p.generation ≤ (clean_expired now p).0.generation
unfolding clean_expired notify
clean_expired-generation now p = ground arith

reserve-generation : (p : Pool) → (reserve p).0.generation ≡ p.generation
unfolding reserve
reserve-generation p = ground arith

Step-generation : {w v : World} → Step w v → w.pool.generation ≤ v.pool.generation
unfolding release notify reload
Step-generation (takes_fresh left now s w h) =
    omega (arith, (take_item left now s w.pool (ap taken h)).3)
Step-generation (takes_stale left now s w h) =
    omega (arith, (take_item left now s w.pool (ap taken h)).3)
Step-generation (closes_stale xs ys s w e) = omega arith
Step-generation (reserves w h) = omega (arith, reserve-generation w.pool)
Step-generation (makes n w e) = omega arith
Step-generation (makes_none n w e) = omega arith
Step-generation (puts now xs ys s force_close w e) =
    omega (arith, put-generation now s force_close w.pool)
Step-generation (cleans now w) = clean_expired-generation now w.pool
Step-generation (shuts gone w h) = omega (arith, shutdown-generation w.pool gone h)
Step-generation (reloads os w) = omega arith

Reach-generation : {w v : World} → Reach w v → w.pool.generation ≤ v.pool.generation
Reach-generation here = omega arith
Reach-generation (go r h) = omega (arith, Reach-generation r, Step-generation h)

-- A Get waits only when no item is idle, and on the generation of the pool.
reserve-waits : (p : Pool) (n : ℕ) → (reserve p).1 ≡ waits n → p.generation ≡ n
unfolding reserve
reserve-waits p n h = ground (arith, h)

take_from-waits :
    (its : List Item) (now n : ℕ) (p : Pool)
    → (take_from its (length its) now p).1 ≡ waits n
    → (its ≡ []) × ((reserve p).1 ≡ waits n)
unfolding take_from
take_from-waits [] now n p h = (refl, h)
take_from-waits (it ∷ its) now n p h = elim (Bool-cases (expire p.conf.idle_timeout now it)) [
  | inl old ↦ absurd (ground (arith, h, old))
  | inr new ↦ absurd (ground (arith, h, new))
]

get_round-waits :
    (now n : ℕ) (p : Pool)
    → (get_round now p).1 ≡ waits n
    → (p.idles ≡ []) × ((reserve p).1 ≡ waits n)
unfolding get_round take
get_round-waits now n p h = take_from-waits p.idles now n p h

still_waits :
    (left later n : ℕ) (p : Pool)
    → p.idles ≡ []
    → (reserve p).1 ≡ waits n
    → (take left later p).1 ≡ waits n
unfolding take take_from
still_waits left later n p e h = ap (λ its. (take_from its left later p).1) e ∙ h

round_waits :
    (later n : ℕ) (p : Pool)
    → p.idles ≡ []
    → (reserve p).1 ≡ waits n
    → (get_round later p).1 ≡ waits n
unfolding get_round
round_waits later n p e h = still_waits (length p.idles) later n p e h

clean_none :
    (timeout : ℤ) (now : ℕ → ℕ) (its : List Item)
    → its ≡ []
    → ((clean timeout now its).0 ≡ []) × ((clean timeout now its).1 ≡ [])
unfolding clean
clean_none timeout now its e =
    (ap (λ xs. (clean timeout now xs).0) e, ap (λ xs. (clean timeout now xs).1) e)

clean_expired_same : (now : ℕ → ℕ) (p : Pool) → p.idles ≡ [] → (clean_expired now p).0 ≡ p
unfolding clean_expired
clean_expired_same now p e =
    elim (Bool-cases (p.closed || not (ltb_ℤ (pos 0) p.conf.idle_timeout))) [
      | inl stays ↦ rw stays refl
      | inr looks ↦
          let (kept, none_gone) = clean_none p.conf.idle_timeout now p.idles e in
          rw (looks, ap length none_gone) (ap (λ its. record p { idles = its }) (kept ∙ sym e))
    ]

-- A section that does not close the channel of a waiting Get leaves the pool as it is.
Step-waits :
    {w v : World} (now n : ℕ)
    → Step w v
    → (get_round now w.pool).1 ≡ waits n
    → v.pool.generation ≡ w.pool.generation
    → v.pool ≡ w.pool
unfolding release notify reload
Step-waits now n (takes_fresh left later s w h) t g =
    let (e, r) = get_round-waits now n w.pool t in
    absurd (ground (arith, h, still_waits left later n w.pool e r))
Step-waits now n (takes_stale left later s w h) t g =
    let (e, r) = get_round-waits now n w.pool t in
    absurd (ground (arith, h, still_waits left later n w.pool e r))
Step-waits now n (closes_stale xs ys s w e) t g = absurd (omega (arith, g))
Step-waits now n (reserves w h) t g = absurd (ground (arith, h, (get_round-waits now n w.pool t).1))
Step-waits now n (makes m w e) t g = refl
Step-waits now n (makes_none m w e) t g = absurd (omega (arith, g))
Step-waits now n (puts later xs ys s force_close w e) t g =
    absurd (omega (arith, g, put-generation later s force_close w.pool))
Step-waits now n (cleans later w) t g =
    clean_expired_same later w.pool (get_round-waits now n w.pool t).0
Step-waits now n (shuts gone w h) t g = absurd (omega (arith, g, shutdown-generation w.pool gone h))
Step-waits now n (reloads os w) t g = absurd (omega (arith, g))

-- When a pass of Get's loop from its start waits on a generation, then as long as that generation
-- lasts, whatever sections run, the pool is as it was, and every such pass at any time waits on it
-- too: a change that lets a Get go on is never missed.
pub wakeup_not_lost :
    (w v : World) (now n later : ℕ)
    → (get_round now w.pool).1 ≡ waits n
    → Reach w v
    → v.pool.generation ≡ n
    → (v.pool ≡ w.pool) × ((get_round later v.pool).1 ≡ waits n)
wakeup_not_lost w v now n later t here g =
    let (e, r) = get_round-waits now n w.pool t in (refl, round_waits later n w.pool e r)
wakeup_not_lost w v now n later t (go {u = u} r h) g =
    let at : w.pool.generation ≡ n = reserve-waits w.pool n (get_round-waits now n w.pool t).1 in
    let still : u.pool.generation ≡ n =
      omega (arith, at, g, Reach-generation r, Step-generation h) in
    let (same, wait) = wakeup_not_lost w u now n now t r still in
    let kept = Step-waits now n h wait (g ∙ sym still) in
    let (e, free) = get_round-waits now n w.pool t in
    let all = kept ∙ same in
    (all, ap (λ p. (get_round later p).1) all ∙ round_waits later n w.pool e free)

-- Whether a section of Get got an item or a place.
abbrev pub serves : Got → Bool
serves (fresh s) = true
serves (stale s) = true
serves reserved = true
serves (waits n) = false
serves (failed e) = false

item_serves :
    (it : Item) (its : List Item) (left later : ℕ) (p : Pool)
    → serves (take_from (it ∷ its) (suc left) later p).1 ≡ true
unfolding take_from
item_serves it its left later p = elim (Bool-cases (expire p.conf.idle_timeout later it)) [
  | inl old ↦ rw old refl
  | inr new ↦ rw new refl
]

room_serves :
    (its : List Item) (left later : ℕ) (p : Pool)
    → p.closed ≡ false
    → p.has_new ≡ true
    → ((p.conf.active == 0) || ltb p.active p.conf.active) ≡ true
    → serves (take_from its left later p).1 ≡ true
unfolding take_from reserve
room_serves [] left later p c f r = rw (c, r, f) refl
room_serves (it ∷ its) zero later p c f r = rw (c, r, f) refl
room_serves (it ∷ its) (suc left) later p c f r = item_serves it its left later p

-- After Put gives a resource back to an open pool within its limit, a pass of Get's loop at any time takes an item
-- or a place for a new resource: it neither fails nor waits.
pub put-serves :
    (now later s : ℕ) (force_close : Bool) (p : Pool)
    → p.closed ≡ false
    → p.has_new ≡ true
    → 1 ≤ p.active
    → ((p.conf.active == 0) || not (ltb p.conf.active p.active)) ≡ true
    → serves (get_round later (put now s force_close p).0).1 ≡ true
unfolding put release notify get_round take
put-serves now later s force_close p c f a r =
    let it : Item = record { created_at = now; s = s } in
    let freed : ((p.conf.active == 0) || ltb (minus p.active 1) p.conf.active) ≡ true =
      ground (arith, r, a, minus_le p.active 1 a) in
    elim (Bool-cases (p.closed || force_close)) [
      | inl closes ↦ rw closes (room_serves p.idles (length p.idles) later (release p) c f freed)
      | inr stays ↦ elim (Bool-cases (ltb p.conf.idle (suc (length p.idles)))) [
        | inl over ↦
            let front = (split_back it p.idles).0 in
            rw (stays, over)
              (room_serves front (length front) later (release (record p { idles = front })) c f
                freed)
        | inr room ↦
            rw (stays, room)
              (item_serves it p.idles (length p.idles) later
                (notify (record p { idles = it ∷ p.idles })))
      ]
    ]
