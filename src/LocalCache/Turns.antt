-- ===== src/LocalCache/Turns.antt =====
-- Goroutines on one cache: each critical section of the code is a turn, and turns follow one
-- another in any order.
use gkit.Prelude.{ℕ, Option, [], ◌∷◌, arith, suc, inl, inr, Option-cases}
use gkit.Prelude.Int.{ℤ}
use gkit.Prelude.Map.{Map, String, lookup, remove, IsDistinct, put-IsDistinct, remove-IsDistinct}
use gkit.LocalCache.Value.{Platform, Value}
use gkit.LocalCache.{Cache, Iterator, expire_of, set, delete, get_recheck, add, replace}
use gkit.LocalCache.Typed.{write, update, update_typed}
use gkit.LocalCache.Sweep.{
  delete_expired, expire_loop, delete_expire, change_capture, flush, shutdown,
}
use gkit.LocalCache.Persist.{load_entry, load_loop}

module _ {p : Platform} where
  -- The critical sections that change the cache. Those under the read lock leave it as it is.
  pub data Turn : Cache p → Cache p → Type 1 where
    sets : (k : String) (v : Value p) (d : ℤ) (s : ℕ) (c : Cache p) → Turn c (set k v d s c)
    rechecks : (k : String) (s : ℕ) (c : Cache p) → Turn c (get_recheck k s c).state
    adds :
        (k : String) (v : Value p) (d : ℤ) (s s' : ℕ) (c : Cache p)
        → Turn c (add k v d s s' c).state
    replaces :
        (k : String) (v : Value p) (d : ℤ) (s s' : ℕ) (c : Cache p)
        → Turn c (replace k v d s s' c).state
    updates :
        (change : Value p → Option (Value p)) (k : String) (s : ℕ) (c : Cache p)
        → Turn c (update change k s c).state
    updates_typed :
        {A : Type 0} (assert : Value p → Option A) (wrap : A → Value p) (f : A → A) (k : String)
        (s : ℕ) (c : Cache p)
        → Turn c (update_typed assert wrap f k s c).state
    deletes : (k : String) (c : Cache p) → Turn c (delete k c).state
    deletes_expired : (k : String) (s : ℕ) (c : Cache p) → Turn c (delete_expired k s c).state
    sweeps : (s : ℕ) (c : Cache p) → Turn c (delete_expire s c).state
    changes_capture : (f : Option p.Capture) (c : Cache p) → Turn c (change_capture f c)
    loads :
        (clock : ℕ → ℕ) (i : ℕ) (m : Map (Iterator p)) (c : Cache p)
        → Turn c (load_loop clock i m c)
    flushes : (c : Cache p) → Turn c (flush c)
    shuts_down : (c : Cache p) → Turn c (shutdown c)

  pub data Reach (c : Cache p) : Cache p → Type 1 where
    here : Reach c c
    next : {d e : Cache p} → Reach c d → Turn d e → Reach c e

  expire_loop-IsDistinct :
      (t : ℕ) (m : Map (Iterator p)) (c : Cache p)
      → IsDistinct c.member
      → IsDistinct (expire_loop t m c).0.member
  unfolding expire_loop
  expire_loop-IsDistinct t [] c h = h
  expire_loop-IsDistinct t ((k, it) ∷ m) c h =
      let c' : Cache p = record c { member = remove k c.member } in
      ground (
        arith,
        expire_loop-IsDistinct t m c h,
        expire_loop-IsDistinct t m c' (remove-IsDistinct k c.member h),
      )

  load_loop-IsDistinct :
      (clock : ℕ → ℕ) (i : ℕ) (m : Map (Iterator p)) (c : Cache p)
      → IsDistinct c.member
      → IsDistinct (load_loop clock i m c).member
  unfolding load_loop
  load_loop-IsDistinct clock i [] c h = h
  load_loop-IsDistinct clock i ((k, it) ∷ m) c h =
      let d = load_entry (clock i) k it c in
      load_loop-IsDistinct clock (suc i) m d (ground (arith, put-IsDistinct k it c.member h))

  write-IsDistinct :
      (k : String) (it : Iterator p) (v : Value p) (c : Cache p)
      → IsDistinct c.member
      → IsDistinct (write k it v c).member
  write-IsDistinct k it v c h = put-IsDistinct k _ c.member h

  update-IsDistinct :
      (change : Value p → Option (Value p)) (k : String) (s : ℕ) (c : Cache p)
      → IsDistinct c.member
      → IsDistinct (update change k s c).state.member
  unfolding update
  update-IsDistinct change k s c h = elim (Option-cases (lookup k c.member)) [
    | inl e ↦ rw (e, update) h
    | inr (it, e) ↦ elim (Option-cases (change it.val)) [
      | inl no_fit ↦ ground (arith, remove-IsDistinct k c.member h)
      | inr (v, fit) ↦ ground (arith, remove-IsDistinct k c.member h, write-IsDistinct k it v c h)
    ]
  ]

  update_typed-IsDistinct :
      {A : Type 0} (assert : Value p → Option A) (wrap : A → Value p) (f : A → A) (k : String)
      (s : ℕ) (c : Cache p)
      → IsDistinct c.member
      → IsDistinct (update_typed assert wrap f k s c).state.member
  unfolding update_typed
  update_typed-IsDistinct assert wrap f k s c h = elim (Option-cases (lookup k c.member)) [
    | inl e ↦ rw (e, update_typed) h
    | inr (it, e) ↦ elim (Option-cases (assert it.val)) [
      | inl no_fit ↦ ground (arith, remove-IsDistinct k c.member h)
      | inr (i, fit) ↦
          ground (arith, remove-IsDistinct k c.member h, write-IsDistinct k it (wrap (f i)) c h)
    ]
  ]

  Turn-IsDistinct : {c d : Cache p} → Turn c d → IsDistinct c.member → IsDistinct d.member
  unfolding set get_recheck add replace delete delete_expired delete_expire change_capture flush
      shutdown
  Turn-IsDistinct (sets k v d s c) h = put-IsDistinct k _ c.member h
  Turn-IsDistinct (rechecks k s c) h = ground (arith, remove-IsDistinct k c.member h)
  Turn-IsDistinct (adds k v d s s' c) h =
      let it : Iterator p = record { val = v; expire = expire_of c.default_expire d s' } in
      ground (arith, put-IsDistinct k it c.member h)
  Turn-IsDistinct (replaces k v d s s' c) h =
      let it : Iterator p = record { val = v; expire = expire_of c.default_expire d s' } in
      ground (arith, put-IsDistinct k it c.member h)
  Turn-IsDistinct (updates change k s c) h = update-IsDistinct change k s c h
  Turn-IsDistinct (updates_typed assert wrap f k s c) h =
      update_typed-IsDistinct assert wrap f k s c h
  Turn-IsDistinct (deletes k c) h = ground (arith, remove-IsDistinct k c.member h)
  Turn-IsDistinct (deletes_expired k s c) h = ground (arith, remove-IsDistinct k c.member h)
  Turn-IsDistinct (sweeps s c) h = expire_loop-IsDistinct s c.member c h
  Turn-IsDistinct (changes_capture f c) h = h
  Turn-IsDistinct (loads clock i m c) h = load_loop-IsDistinct clock i m c h
  Turn-IsDistinct (flushes c) h = tt
  Turn-IsDistinct (shuts_down c) h = tt

  -- Whatever turns the goroutines take, no key stands twice in the map.
  pub Reach-IsDistinct : {c d : Cache p} → Reach c d → IsDistinct c.member → IsDistinct d.member
  Reach-IsDistinct here h = h
  Reach-IsDistinct (next r t) h = Turn-IsDistinct t (Reach-IsDistinct r h)
