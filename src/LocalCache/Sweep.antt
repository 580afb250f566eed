-- ===== src/LocalCache/Sweep.antt =====
-- cache/local_cache: the operations on the whole map, and the sentinel that runs one of them.
-- `range` visits the entries in the list's order; Go's order is any.
use gkit.Prelude.{ℕ, suc, true, Option, none, some, List, [], ◌∷◌, ◌++◌, length, if◌then◌else◌}
use gkit.Prelude.Int.{ℤ, pos}
use gkit.Prelude.Map.{Map, String, lookup, remove}
use gkit.LocalCache.Value.{Platform}
use gkit.LocalCache.{Cache, Iterator, Event, Step, expired, fire, delete_locked, returned}

module _ {p : Platform} where
  -- deleteExpired: the recheck under the write lock, the deletion, and the callback after it.
  unfoldable pub delete_expired : String → ℕ → Cache p → Step p (Unit {0})
  unfolding expired
  delete_expired k now c = elim (lookup k c.member) [
    | none ↦ returned c tt
    | some it ↦
        if expired now it
        then record {
          state = record c { member = remove k c.member };
          events = fire c.capture k (some it.val);
          result = tt;
        }
        else returned c tt
  ]

  -- The loop of DeleteExpire over the entries that `range` has left, at one time `t`; the events
  -- are those of the callbacks that follow it, in the order of kvList.
  unfoldable pub expire_loop : ℕ → Map (Iterator p) → Cache p → Cache p × List (Event p)
  unfolding expired delete_locked
  expire_loop t [] c = (c, [])
  expire_loop t ((k, it) ∷ m) c =
      let (c', v) = if expired t it then delete_locked k c else (c, none) in
      let (c'', rest) = expire_loop t m c' in (c'', fire c.capture k v ++ rest)

  unfoldable pub delete_expire : ℕ → Cache p → Step p (Unit {0})
  unfolding expire_loop
  delete_expire t c =
      let (c', es) = expire_loop t c.member c in record { state = c'; events = es; result = tt }

  unfoldable pub change_capture : Option p.Capture → Cache p → Cache p
  change_capture f c = record c { capture = f }

  -- The loop of Iterator under the read lock: the entries that have not expired, and the keys of
  -- the others. `clock` numbers the readings of the clock.
  unfoldable pub partition : (ℕ → ℕ) → ℕ → Map (Iterator p) → Map (Iterator p) × List String
  unfolding expired
  partition clock i [] = ([], [])
  partition clock i ((k, it) ∷ m) =
      let (ret, keys) = partition clock (suc i) m in
      if expired (clock i) it then (ret, k ∷ keys) else ((k, it) ∷ ret, keys)

  unfoldable pub delete_keys : (ℕ → ℕ) → ℕ → List String → Cache p → Cache p × List (Event p)
  unfolding delete_expired
  delete_keys clock i [] c = (c, [])
  delete_keys clock i (k ∷ ks) c =
      let s = delete_expired k (clock i) c in
      let (c', es) = delete_keys clock (suc i) ks s.state in (c', s.events ++ es)

  -- Iterator, with nothing between its critical sections.
  unfoldable pub iterator : (ℕ → ℕ) → Cache p → Step p (Map (Iterator p))
  unfolding partition delete_keys
  iterator clock c =
      let (ret, keys) = partition clock 0 c.member in
      let (c', es) = delete_keys clock (length c.member) keys c in
      record { state = c'; events = es; result = ret }

  unfoldable pub count : Cache p → ℕ
  count c = length c.member

  unfoldable pub flush : Cache p → Cache p
  flush c = record c { member = [] }

  -- Shutdown: Flush, then the cancellation of the sentinel's context.
  unfoldable pub shutdown : Cache p → Cache p
  unfolding flush
  shutdown c = record (flush c) { cancelled = true }

-- What the select of the sentinel's loop receives.
pub data Signal : Type 0 where
  tick done : Signal

sentinel_loop {ℓ} : {S : Type ℓ} → (S → S) → List Signal → S → S
sentinel_loop fn [] s = s
sentinel_loop fn (tick ∷ r) s = sentinel_loop fn r (fn s)
sentinel_loop fn (done ∷ r) s = s

-- Start of sentinel.go, over the signals that its loop receives.
unfoldable pub sentinel_start {ℓ} : {S : Type ℓ} → ℤ → (S → S) → List Signal → S → S
unfolding sentinel_loop
sentinel_start (pos (suc n)) fn signals s = sentinel_loop fn signals s
sentinel_start _ fn signals s = s
