-- ===== src/Pool/Conserved.antt =====
-- Every resource that the pool made is in one place, and the counter of active resources counts
-- those that have not been shut down.
use gkit.Prelude.{
  ℕ, suc, ◌+◌, ◌≡◌, ◌≤◌, ◌<◌, refl, ap, ◌∙◌, List, ◌∷◌, ◌++◌, length, length-append, ltb, ◌==◌,
  if◌then◌else◌, arith, Bool-cases, inl, inr,
}
use gkit.Pool.{Config, Pool, taken, notify, release, reload, take, put, clean_expired, resources}
use gkit.Pool.Steps.{
  World, Step, takes_fresh, takes_stale, closes_stale, reserves, makes, makes_none, puts, cleans,
  shuts, reloads, Reach, here, go, start, of_option,
}
use gkit.Pool.Sections.{
  length-resources, count, count-append, minus_le, Takes, take_item, put-Gives, clean_expired-Gives,
  shutdown-Gives, reserve_more, reserve_one,
}

-- Where the resource `k` is, counted.
abbrev pub places : ℕ → World → ℕ
places k w = count k (resources w.pool.idles) + count k w.out + count k w.expiring + count k w.shut

pub record IsValid (w : World) : Type 0 where
  pub owned : (k : ℕ) → places k w ≡ (if ltb k w.next then 1 else 0)
  pub active : w.pool.active ≡ length w.pool.idles + length w.out + length w.expiring + w.creating
  -- No more than were asked for.
  pub asked : w.pool.active ≤ w.asked
  pub drained : (if w.pool.closed then length w.pool.idles else 0) ≡ 0

-- A list with one element more in its middle.
pub length-middle : (xs ys : List ℕ) (s : ℕ) → length (xs ++ s ∷ ys) ≡ suc (length (xs ++ ys))
length-middle xs ys s = omega (arith, length-append xs ys, length-append xs (s ∷ ys))

count-middle :
    (k : ℕ) (xs ys : List ℕ) (s : ℕ)
    → count k (xs ++ s ∷ ys) ≡ (if k == s then 1 else 0) + count k (xs ++ ys)
count-middle k xs ys s = omega (arith, count-append k xs ys, count-append k xs (s ∷ ys))

pub length-taken : (s : ℕ) (p q : Pool) → Takes s p q → length p.idles ≡ suc (length q.idles)
length-taken s p q (e, a, c, g, f) =
    omega (arith, ap length e, length-resources p.idles, length-resources q.idles)

-- An item that goes to a client, or to the Get that shuts it down.
taken-owned :
    (k s : ℕ) (p q : Pool)
    → Takes s p q
    → count k (resources p.idles) ≡ (if k == s then 1 else 0) + count k (resources q.idles)
taken-owned k s p q (e, a, c, g, f) = ap (count k) e

taken-drained :
    (s : ℕ) (p q : Pool)
    → Takes s p q
    → (if p.closed then length p.idles else 0) ≡ 0
    → (if q.closed then length q.idles else 0) ≡ 0
taken-drained s p q (e, a, c, g, f) d =
    let len = length-taken s p q (e, a, c, g, f) in
    elim (Bool-cases p.closed) [
      | inl shut ↦ absurd (ground (arith, d, shut, len))
      | inr open_ ↦ rw (c, open_) refl
    ]

Step-IsValid : {w v : World} → Step w v → v.asked < 18446744073709551616 → IsValid w → IsValid v
unfolding release notify reload
Step-IsValid (takes_fresh left now s w h) b v =
    let t = take_item left now s w.pool (ap taken h) in
    let len = length-taken s w.pool (take left now w.pool).0 t in
    record {
      owned = λ k. omega (arith, v.owned k, taken-owned k s w.pool (take left now w.pool).0 t);
      active = omega (arith, v.active, len, t.1);
      asked = omega (arith, v.asked, t.1);
      drained = taken-drained s w.pool (take left now w.pool).0 t v.drained;
    }
Step-IsValid (takes_stale left now s w h) b v =
    let t = take_item left now s w.pool (ap taken h) in
    let len = length-taken s w.pool (take left now w.pool).0 t in
    record {
      owned = λ k. omega (arith, v.owned k, taken-owned k s w.pool (take left now w.pool).0 t);
      active = omega (arith, v.active, len, t.1);
      asked = omega (arith, v.asked, t.1);
      drained = taken-drained s w.pool (take left now w.pool).0 t v.drained;
    }
Step-IsValid (closes_stale xs ys s w e) b v =
    let len = ap length e ∙ length-middle xs ys s in
    let less = minus_le w.pool.active 1 (omega (arith, v.active, len)) in
    record {
      owned = λ k. omega (arith, v.owned k, ap (count k) e, count-middle k xs ys s);
      active = omega (arith, v.active, len, less);
      asked = omega (arith, v.asked, less);
      drained = v.drained;
    }
Step-IsValid (reserves w h) b v =
    let (_, same, shut) = reserve_more w.pool h in
    let one = reserve_one w.pool h (omega (arith, v.asked, b)) in
    record {
      owned = λ k. omega (arith, v.owned k, ap (λ its. count k (resources its)) same);
      active = omega (arith, v.active, one, ap length same);
      asked = omega (arith, v.asked, one);
      drained = rw (shut, same) v.drained;
    }
Step-IsValid (makes n w e) b v = record {
  owned = λ k. ground (arith, v.owned k);
  active = omega (arith, v.active, e);
  asked = v.asked;
  drained = v.drained;
}
Step-IsValid (makes_none n w e) b v =
    let less = minus_le w.pool.active 1 (omega (arith, v.active, e)) in
    record {
      owned = v.owned;
      active = omega (arith, v.active, e, less);
      asked = omega (arith, v.asked, less);
      drained = v.drained;
    }
Step-IsValid (puts now xs ys s force_close w e) b v =
    let len = ap length e ∙ length-middle xs ys s in
    let some_active : 1 ≤ w.pool.active = omega (arith, v.active, len) in
    let gives = λ (k : ℕ). put-Gives k now s force_close w.pool some_active v.drained in
    let gone = of_option (put now s force_close w.pool).1 in
    let (_, less, room, drained) = gives 0 in
    record {
      owned = λ k. omega (
        arith,
        v.owned k,
        (gives k).0,
        ap (count k) e,
        count-middle k xs ys s,
        count-append k gone w.shut,
      );
      active = omega (arith, v.active, len, less, room);
      asked = omega (arith, v.asked, less);
      drained = drained;
    }
Step-IsValid (cleans now w) b v =
    let most : length w.pool.idles ≤ w.pool.active = omega (arith, v.active) in
    let gives = λ (k : ℕ). clean_expired-Gives k now w.pool most v.drained in
    let gone = (clean_expired now w.pool).1 in
    let (_, less, room, drained) = gives 0 in
    record {
      owned = λ k. omega (arith, v.owned k, (gives k).0, count-append k gone w.shut);
      active = omega (arith, v.active, less, room);
      asked = omega (arith, v.asked, less);
      drained = drained;
    }
Step-IsValid (shuts gone w h) b v =
    let most : length w.pool.idles ≤ w.pool.active = omega (arith, v.active) in
    let gives = λ (k : ℕ). shutdown-Gives k w.pool gone most h in
    let (_, less, room, drained) = gives 0 in
    record {
      owned = λ k. omega (arith, v.owned k, (gives k).0, count-append k gone w.shut);
      active = omega (arith, v.active, less, room);
      asked = omega (arith, v.asked, less);
      drained = drained;
    }
Step-IsValid (reloads os w) b v = record {
  owned = v.owned;
  active = v.active;
  asked = v.asked;
  drained = v.drained;
}

pub Step-asked : {w v : World} → Step w v → w.asked ≤ v.asked
Step-asked (takes_fresh left now s w h) = omega arith
Step-asked (takes_stale left now s w h) = omega arith
Step-asked (closes_stale xs ys s w e) = omega arith
Step-asked (reserves w h) = omega arith
Step-asked (makes n w e) = omega arith
Step-asked (makes_none n w e) = omega arith
Step-asked (puts now xs ys s force_close w e) = omega arith
Step-asked (cleans now w) = omega arith
Step-asked (shuts gone w h) = omega arith
Step-asked (reloads os w) = omega arith

start-IsValid : (conf : Config) → IsValid (start conf)
unfolding start
start-IsValid conf = record {
  owned = λ k. ground arith;
  active = refl;
  asked = omega arith;
  drained = refl;
}

-- After any sections of any goroutines on a new pool, with fewer than 2^64 places taken for new
-- resources, each resource that was made stands in one place: it is idle, held by a client, with the
-- Get that shuts it down, or shut down, and so never shut down twice or held twice. The counter of
-- active resources is the number of those that are not shut down and of those being made, and a
-- closed pool keeps none idle.
pub reachable_conserved :
    (conf : Config) (w : World) → Reach (start conf) w → w.asked < 18446744073709551616 → IsValid w
reachable_conserved conf w here b = start-IsValid conf
reachable_conserved conf w (go {u = u} r h) b =
    let less : u.asked < 18446744073709551616 = omega (arith, Step-asked h, b) in
    Step-IsValid h b (reachable_conserved conf u r less)
