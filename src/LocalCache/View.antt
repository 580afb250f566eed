-- ===== src/LocalCache/View.antt =====
-- What a client of the cache can see: the value under each key at each time. The operations on
-- one key against this view.
use gkit.Prelude.{
  ℕ, suc, ◌+◌, ◌-◌, ◌^◌, ◌≤◌, ◌<◌, ◌≡◌, ◌⊎◌, inl, inr, refl, true, Option, none, some, [], arith,
  Option-cases, ap, leb, if◌then◌else◌,
}
use gkit.Prelude.Int.{ℤ, pos, negsuc}
use gkit.Prelude.Map.{String, ◌=?◌, eq_iff, lookup, lookup-put, lookup-remove}
use gkit.LocalCache.Value.{Platform, Value}
use gkit.LocalCache.{
  Cache, Iterator, Step, Outcome, ok, err, exist, no_exist, to_int64, expired, expire_of, set,
  delete, get_recheck, get, add, replace, fire, returned,
}

pub to_int64-small : (x : ℕ) → x < 2 ^ 63 → to_int64 x ≡ pos x
unfolding to_int64
to_int64-small x h = ground arith

to_int64-large : (x : ℕ) → 2 ^ 63 ≤ x → x < 2 ^ 64 → to_int64 x ≡ negsuc (2 ^ 64 - 1 - x)
unfolding to_int64
to_int64-large x h h' = ground arith

module _ {p : Platform} where
  -- The value that a client sees under `k` at the time `t`.
  unfoldable pub view : Cache p → ℕ → String → Option (Value p)
  unfolding expired
  view c t k = elim (lookup k c.member) [
    | none ↦ none
    | some it ↦ if expired t it then none else some it.val
  ]

  -- An entry that has expired stays expired.
  pub expired_mono : (it : Iterator p) (s t : ℕ) → s ≤ t → expired s it ≡ true → expired t it ≡ true
  unfolding expired
  expired_mono it s t h e = ground arith

  -- After Set with a positive duration whose end an int64 holds, a client sees the value up to and
  -- including that end and nothing later, and sees every other key as before.
  pub view-set :
      (k j : String) (v : Value p) (n s t : ℕ) (c : Cache p)
      → s + suc n < 2 ^ 63
      → view (set k v (pos (suc n)) s c) t j
        ≡ (if k =? j then (if leb t (s + suc n) then some v else none) else view c t j)
  unfolding view set expire_of
  view-set k j v n s t c h =
      let it : Iterator p = record { val = v; expire = pos (s + suc n) } in
      ground (arith, lookup-put k j it c.member, to_int64-small (s + suc n) h)

  -- Get returns what the client sees when it first reads the clock.
  pub get-view : (k : String) (s t : ℕ) (c : Cache p) → (get k s t c).result ≡ view c s k
  unfolding get view
  get-view k s t c = ground arith

  -- The second critical section of Get removes no entry that is live when it runs, whatever has
  -- happened since the first: at that time and later a client sees every key as before.
  pub view-get_recheck :
      (k j : String) (s t : ℕ) (c : Cache p)
      → s ≤ t
      → view (get_recheck k s c).state t j ≡ view c t j
  unfolding view get_recheck
  view-get_recheck k j s t c h = ground (arith, eq_iff k j, lookup-remove k j c.member)

  -- A positive duration whose end an int64 does not hold: the entry has expired at every time, the
  -- moment of the Set included.
  pub view-set_overflow :
      (k : String) (v : Value p) (n s t : ℕ) (c : Cache p)
      → s < 2 ^ 63
      → suc n < 2 ^ 63
      → 2 ^ 63 ≤ s + suc n
      → view (set k v (pos (suc n)) s c) t k ≡ none
  unfolding view set expire_of
  view-set_overflow k v n s t c hs hn h =
      let it : Iterator p = record { val = v; expire = negsuc (2 ^ 64 - 1 - (s + suc n)) } in
      ground (arith, eq_iff k k, lookup-put k k it c.member, to_int64-large (s + suc n))

  -- Set with no default expiry and a zero duration, or with any negative duration, stores a value
  -- that every later time shows.
  pub view-set_forever :
      (k : String) (v : Value p) (n s t : ℕ) (c : Cache p)
      → view (set k v (negsuc n) s c) t k ≡ some v
  unfolding view set expire_of
  view-set_forever k v n s t c =
      let it : Iterator p = record { val = v; expire = pos 0 } in
      ground (arith, eq_iff k k, lookup-put k k it c.member)

  -- Get leaves what a client sees from its second reading of the clock on, under every key.
  pub view-get :
      (k j : String) (s s' t : ℕ) (c : Cache p)
      → s' ≤ t
      → view (get k s s' c).state t j ≡ view c t j
  unfolding get
  view-get k j s s' t c h = ground (arith, view-get_recheck k j s' t c)

  -- Delete hides its key at every time and leaves the others.
  pub view-delete :
      (k j : String) (t : ℕ) (c : Cache p)
      → view (delete k c).state t j ≡ (if k =? j then none else view c t j)
  unfolding view delete
  view-delete k j t c = ground (arith, eq_iff k j, lookup-remove k j c.member)

  -- Delete runs the callback exactly if one is set and the key is in the map, with the key and its
  -- value, and the callback does not see the entry any more.
  pub events-delete :
      (k : String) (c : Cache p)
      → (delete k c).events
        ≡ elim (lookup k c.member) [ none ↦ [] | some it ↦ fire c.capture k (some it.val) ]
  unfolding delete
  events-delete k c = ground arith

  module _ (k : String) (v : Value p) (d : ℤ) (s s' : ℕ) (c : Cache p) where
    pub add_vacant : view c s k ≡ none → add k v d s s' c ≡ returned (set k v d s' c) (ok tt)
    unfolding add view set
    add_vacant h = ground arith

    pub add_occupied :
        {x : Value p} → view c s k ≡ some x → add k v d s s' c ≡ returned c (err exist)
    unfolding add view set
    add_occupied h = ground arith

    pub replace_vacant : view c s k ≡ none → replace k v d s s' c ≡ returned c (err no_exist)
    unfolding replace view set
    replace_vacant h = ground arith

    pub replace_occupied :
        {x : Value p}
        → view c s k ≡ some x
        → replace k v d s s' c ≡ returned (set k v d s' c) (ok tt)
    unfolding replace view set
    replace_occupied h = ground arith

    -- Where the client sees nothing under the key, Add does what Set does and Replace fails with
    -- "no exist"; where it sees a value, Replace does what Set does and Add fails with "exist".
    -- The one that fails changes nothing, and neither runs a callback.
    pub add-replace :
        ((view c s k ≡ none)
          × (add k v d s s' c ≡ returned (set k v d s' c) (ok tt))
          × (replace k v d s s' c ≡ returned c (err no_exist)))
        ⊎ ((x : Value p) × (view c s k ≡ some x)
            × (add k v d s s' c ≡ returned c (err exist))
            × (replace k v d s s' c ≡ returned (set k v d s' c) (ok tt)))
    add-replace = elim (Option-cases (view c s k)) [
      | inl e ↦ inl (e, add_vacant e, replace_vacant e)
      | inr (x, e) ↦ inr (x, e, add_occupied e, replace_occupied e)
    ]

  -- Two Adds of one key: while the value of the first is to live (to an end that an int64 holds),
  -- the second fails and leaves everything as it was.
  pub add-add :
      (k : String) (v w : Value p) (n : ℕ) (e : ℤ) (s s' t t' : ℕ) (c : Cache p)
      → s' + suc n < 2 ^ 63
      → (add k v (pos (suc n)) s s' c).result ≡ ok tt
      → t ≤ s' + suc n
      → ((add k w e t t' (add k v (pos (suc n)) s s' c).state).result ≡ err exist)
        × ((add k w e t t' (add k v (pos (suc n)) s s' c).state).state
            ≡ (add k v (pos (suc n)) s s' c).state)
  add-add k v w n e s s' t t' c h first live = elim (Option-cases (view c s k)) [
    | inl free ↦
        let seen : view (set k v (pos (suc n)) s' c) t k ≡ some v =
          ground (arith, eq_iff k k, view-set k k v n s' t c h) in
        rw (add_vacant k v (pos (suc n)) s s' c free, add_occupied k w e t t' _ seen) (refl, refl)
    | inr (x, taken) ↦ cc (
        ap (λ (r : Step p (Outcome (Unit {0}))). r.result)
          (add_occupied k v (pos (suc n)) s s' c taken))
  ]
