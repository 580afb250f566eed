-- ===== src/LocalCache.antt =====
-- cache/local_cache: the cache's state, its entries and their expiry, and the operations on one
-- key that set, read and delete it.
-- A critical section is one function from the state; what runs between two of them is the
-- caller's. A reading of the clock is an argument (nanoseconds since 1970). A call of the capture
-- callback, which the code makes after it has released the lock, is an event of the result.
pub mod Value
pub mod Typed
pub mod Sweep
pub mod View
pub mod Arith
pub mod Sweeping
pub mod Persist
pub mod Restore
pub mod Turns
mod Tests
use Value.{Platform}
use gkit.Prelude.{
  ℕ, zero, suc, ◌+◌, ◌-◌, ◌%◌, ◌^◌, ◌≡◌, Bool, true, false, Option, none, some, List, [], ◌∷◌, ltb,
  if◌then◌else◌,
}
use gkit.Prelude.Int.{ℤ, pos, negsuc}
use gkit.Prelude.Map.{Map, String, lookup, put, remove}

-- The errors of err.go that these operations return.
pub data Error : Type 0 where
  exist no_exist expire type_err : Error

pub data Outcome {ℓ} (A : Type ℓ) : Type ℓ where
  ok : A → Outcome A
  err : Error → Outcome A

-- The int64 that a number becomes.
unfoldable pub to_int64 : ℕ → ℤ
to_int64 x = let w = x % 2 ^ 64 in if ltb w (2 ^ 63) then pos w else negsuc (2 ^ 64 - 1 - w)

-- The switch of Set: -1 is NoExpire, 0 is DefaultExpire, any other negative duration never
-- expires either.
unfoldable pub expire_of : ℤ → ℤ → ℕ → ℤ
unfolding to_int64
expire_of (pos (suc n)) (pos zero) now = to_int64 (now + suc n)
expire_of _ (pos (suc n)) now = to_int64 (now + suc n)
expire_of _ _ now = pos 0

module _ (p : Platform) where
  -- The Iterator of Iterator.go: a value and the time at which it expires, 0 for never.
  pub record Iterator : Type 0 where
    pub val : Value.Value p
    pub expire : ℤ

  pub record Cache : Type 0 where
    pub default_expire : ℤ
    pub member : Map Iterator
    pub capture : Option p.Capture
    pub cancelled : Bool

  -- One call of a callback.
  pub record Event : Type 0 where
    pub to : p.Capture
    pub key : String
    pub value : Value.Value p

  -- The state that an operation leaves, the callbacks that it has made, and its result.
  pub record Step (A : Type 0) : Type 0 where
    pub state : Cache
    pub events : List Event
    pub result : A

  -- What Get finds under the read lock.
  pub data Read : Type 0 where
    absent stale : Read
    found : Iterator → Read

module _ {p : Platform} where
  -- Expired, for a reading of the clock.
  unfoldable pub expired : ℕ → Iterator p → Bool
  expired now it = elim it.expire [
    | pos e ↦ elim e [ zero ↦ false | suc n ↦ ltb (suc n) now ]
    | negsuc _ ↦ true
  ]

  -- Set, and the set that runs under the caller's lock: the bodies are the same.
  unfoldable pub set_locked : String → Value.Value p → ℤ → ℕ → Cache p → Cache p
  set_locked k v d now c = record c {
    member = put k (record { val = v; expire = expire_of c.default_expire d now }) c.member;
  }

  unfoldable pub set : String → Value.Value p → ℤ → ℕ → Cache p → Cache p
  unfolding set_locked
  set k v d now c = set_locked k v d now c

  unfoldable pub set_default : String → Value.Value p → ℕ → Cache p → Cache p
  unfolding set
  set_default k v now c = set k v (pos 0) now c

  unfoldable pub set_no_expire : String → Value.Value p → ℕ → Cache p → Cache p
  unfolding set
  set_no_expire k v now c = set k v (negsuc 0) now c

  -- The entry of `k`, if it is there and has not expired.
  unfoldable pub live : String → ℕ → Cache p → Option (Iterator p)
  unfolding expired
  live k now c = elim (lookup k c.member) [
    | none ↦ none
    | some it ↦ if expired now it then none else some it
  ]

  -- get, under the caller's lock: an expired entry is absent, and stays in the map.
  unfoldable pub get_locked : String → ℕ → Cache p → Option (Value.Value p)
  unfolding expired
  get_locked k now c = elim (lookup k c.member) [
    | none ↦ none
    | some it ↦ if expired now it then none else some it.val
  ]

  -- delete, under the caller's lock.
  unfoldable pub delete_locked : String → Cache p → Cache p × Option (Value.Value p)
  delete_locked k c = elim (lookup k c.member) [
    | none ↦ (c, none)
    | some it ↦ (record c { member = remove k c.member }, some it.val)
  ]

  -- `if ok && capture != nil { capture(k, v) }`
  abbrev pub fire : Option p.Capture → String → Option (Value.Value p) → List (Event p)
  fire (some f) k (some v) = record { to = f; key = k; value = v } ∷ []
  fire _ k _ = []

  -- expireEvictUnlock, with the result that its caller returns.
  unfoldable pub evict : {A : Type 0} → String → A → Cache p → Step p A
  unfolding delete_locked
  evict k a c =
      let (c', v) = delete_locked k c in
      record { state = c'; events = fire c.capture k v; result = a }

  unfoldable pub delete : String → Cache p → Step p (Unit {0})
  unfolding evict
  delete k c = evict k tt c

  abbrev pub returned : {A : Type 0} → Cache p → A → Step p A
  returned c a = record { state = c; events = []; result = a }

  -- The first critical section of Get and GetWithExpire.
  unfoldable pub get_read : String → ℕ → Cache p → Read p
  unfolding expired
  get_read k now c = elim (lookup k c.member) [
    | none ↦ absent
    | some it ↦ if expired now it then stale else found it
  ]

  -- The second, which runs if the first found a stale entry: both return "not found".
  unfoldable pub get_recheck : String → ℕ → Cache p → Step p (Option (Value.Value p))
  unfolding expired evict
  get_recheck k now c = elim (lookup k c.member) [
    | none ↦ returned c none
    | some it ↦ if expired now it then evict k none c else returned c none
  ]

  -- Get with nothing between its critical sections, its two readings of the clock given.
  unfoldable pub get : String → ℕ → ℕ → Cache p → Step p (Option (Value.Value p))
  unfolding get_read get_recheck
  get k now now' c = elim (get_read k now c) [
    | absent ↦ returned c none
    | stale ↦ get_recheck k now' c
    | found it ↦ returned c (some it.val)
  ]

  -- GetWithExpire: the time beside the value is `none` for Go's zero time.
  unfoldable pub get_with_expire :
      String → ℕ → ℕ → Cache p → Step p (Option (Value.Value p × Option ℕ))
  unfolding get_read get_recheck
  get_with_expire k now now' c = elim (get_read k now c) [
    | absent ↦ returned c none
    | stale ↦
        let s = get_recheck k now' c in record { state = s.state; events = s.events; result = none }
    | found it ↦ returned c (
        some (
          it.val,
          elim it.expire [
            | pos e ↦ elim e [ zero ↦ none | suc n ↦ some (suc n) ]
            | negsuc _ ↦ none
          ],
        ))
  ]

  unfoldable pub add : String → Value.Value p → ℤ → ℕ → ℕ → Cache p → Step p (Outcome (Unit {0}))
  unfolding get_locked set_locked
  add k v d now now' c = elim (get_locked k now c) [
    | some _ ↦ returned c (err exist)
    | none ↦ returned (set_locked k v d now' c) (ok tt)
  ]

  unfoldable pub replace :
      String → Value.Value p → ℤ → ℕ → ℕ → Cache p → Step p (Outcome (Unit {0}))
  unfolding get_locked set_locked
  replace k v d now now' c = elim (get_locked k now c) [
    | none ↦ returned c (err no_exist)
    | some _ ↦ returned (set_locked k v d now' c) (ok tt)
  ]
