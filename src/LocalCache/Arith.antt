-- ===== src/LocalCache/Arith.antt =====
-- The counters of the cache: what Increment and Decrement do to an entry, its lifetime and the
-- other entries, with wrap-around.
use native.Mathlib.Nat.{one-le-pow}
use gkit.Prelude.{
  ℕ, ◌+◌, ◌-◌, ◌%◌, ◌^◌, ◌≤◌, ◌<◌, ◌≡◌, refl, Bool, true, false, Option, none, some, arith,
  if◌then◌else◌, Option-cases, Bool-cases, inl, inr,
}
use gkit.Prelude.Map.{String, ◌=?◌, eq_iff, lookup, put, lookup-put, lookup-remove}
use gkit.LocalCache.Value.{Platform, Value, Kind, width, tag, add_word, sub_word}
use gkit.LocalCache.{Cache, Iterator, ok, err, expire, expired, returned, fire}
use gkit.LocalCache.View.{view, expired_mono}
use gkit.LocalCache.Typed.{write, update_typed, increment_kind, decrement_kind, increment}

-- A sum and a difference round a modulus.
wrap_back : (m a r : ℕ) → a < m → r < m → ((a + r) % m + (m - r)) % m ≡ a
wrap_back m a r ha hr = grind arith

pub sub_word-add_word : (w a n : ℕ) → a < 2 ^ w → sub_word w (add_word w a n) n ≡ a
unfolding sub_word add_word
sub_word-add_word w a n h = wrap_back (2 ^ w) a (n % 2 ^ w) h (omega (arith, one-le-pow w 2))

pub add_word-lt : (w a n : ℕ) → add_word w a n < 2 ^ w
unfolding add_word
add_word-lt w a n = omega (arith, one-le-pow w 2)

tag-injective : (s t : Kind) → tag s ≡ tag t → s ≡ t
tag-injective s t h = ground arith

module _ {p : Platform} where
  -- A live counter of the type asked for.
  pub record Counts (t : Kind) (k : String) (s a : ℕ) (it : Iterator p) (c : Cache p) : Type 0 where
    pub stored : lookup k c.member ≡ some it
    pub fresh : expired s it ≡ false
    pub number : it.val ≡ Value.num t a

  pub increment_kind_lem :
      (t : Kind) (k : String) (n s a : ℕ) (it : Iterator p) (c : Cache p)
      → Counts t k s a it c
      → increment_kind t k n s c
        ≡ returned
            (write k it (Value.num t (add_word (width t) a n)) c)
            (ok (add_word (width t) a n))
  unfolding increment_kind
  increment_kind_lem t k n s a it c h = ground arith

  pub decrement_kind_lem :
      (t : Kind) (k : String) (n s a : ℕ) (it : Iterator p) (c : Cache p)
      → Counts t k s a it c
      → decrement_kind t k n s c
        ≡ returned
            (write k it (Value.num t (sub_word (width t) a n)) c)
            (ok (sub_word (width t) a n))
  unfolding decrement_kind
  decrement_kind_lem t k n s a it c h = ground arith

  -- The untyped form writes what the typed form of the entry's type writes.
  pub increment-eq-increment_kind :
      (t : Kind) (k : String) (n s a : ℕ) (it : Iterator p) (c : Cache p)
      → Counts t k s a it c
      → (increment k n s c).state ≡ (increment_kind t k n s c).state
  unfolding increment
  increment-eq-increment_kind t k n s a it c h =
      rw (increment_kind_lem t k n s a it c h) (ground arith)

  -- Whether a client sees a value.
  abbrev pub is_seen : Option (Value p) → Bool
  is_seen none = false
  is_seen (some _) = true

  module _ {A : Type 0} (assert : Value p → Option A) (wrap : A → Value p) (f : A → A) where
    -- On every branch a typed form leaves what a client sees under the other keys, and from its
    -- reading of the clock on it changes no entry's lifetime.
    pub view-update_typed :
        (k j : String) (s t : ℕ) (c : Cache p)
        → s ≤ t
        → (view (update_typed assert wrap f k s c).state t j
            ≡ (if k =? j then view (update_typed assert wrap f k s c).state t j else view c t j))
          × (is_seen (view (update_typed assert wrap f k s c).state t j) ≡ is_seen (view c t j))
    unfolding update_typed view
    view-update_typed k j s t c h = elim (Option-cases (lookup k c.member)) [
      | inl e ↦ ground arith
      | inr (it, e) ↦ elim (Bool-cases (expired s it)) [
        | inl x ↦
            let at = expired_mono it s t h x in
            ground (arith, eq_iff k j, lookup-remove k j c.member)
        | inr x ↦ elim (Option-cases (assert it.val)) [
          | inl no_fit ↦ ground arith
          | inr (i, fit) ↦
              let new : Iterator p = record it { val = wrap (f i) } in
              ground (arith, eq_iff k j, lookup-put k j new c.member)
        ]
      ]
    ]

    -- A typed form on an expired entry reports that, deletes the entry and nothing else, and runs
    -- the callback with the value that expired.
    pub update_typed-expired :
        (k j : String) (s : ℕ) (it : Iterator p) (c : Cache p)
        → lookup k c.member ≡ some it
        → expired s it ≡ true
        → ((update_typed assert wrap f k s c).result ≡ err expire)
          × (lookup j (update_typed assert wrap f k s c).state.member
              ≡ (if k =? j then none else lookup j c.member))
          × ((update_typed assert wrap f k s c).events ≡ fire c.capture k (some it.val))
    unfolding update_typed
    update_typed-expired k j s it c e x =
        (ground arith, ground (arith, lookup-remove k j c.member), ground arith)

  view-rewritten :
      {t : Kind} {s a : ℕ} (k j : String) (u : ℕ) (it : Iterator p) (v : Value p) (c : Cache p)
      → Counts t k s a it c
      → view (write k it (Value.num t a) (write k it v c)) u j ≡ view c u j
  unfolding view
  view-rewritten {t} {s} {a} k j u it v c h =
      let new : Iterator p = record it { val = v } in
      let old : Iterator p = record it { val = Value.num t a } in
      ground
        (arith, eq_iff k j, lookup-put k j new c.member, lookup-put k j old (put k new c.member))

  -- Decrementing by what was incremented gives back the number, whatever overflowed, and leaves
  -- the view of every key at every time as it was.
  pub decrement-increment :
      (t : Kind) (k j : String) (n s s' u a : ℕ) (it : Iterator p) (c : Cache p)
      → Counts t k s a it c
      → a < 2 ^ width t
      → expired s' it ≡ false
      → ((decrement_kind t k n s' (increment_kind t k n s c).state).result ≡ ok a)
        × (view (decrement_kind t k n s' (increment_kind t k n s c).state).state u j ≡ view c u j)
  decrement-increment t k j n s s' u a it c h fits live =
      let b = add_word (width t) a n in
      let c' = write k it (Value.num t b) c in
      let it' : Iterator p = record it { val = Value.num t b } in
      let stored : lookup k c'.member ≡ some it' =
        ground (arith, eq_iff k k, lookup-put k k it' c.member) in
      let held : Counts t k s' b it' c' = record {
        stored = stored;
        fresh = unfold expired in live;
        number = refl;
      } in
      rw
        (
          increment_kind_lem t k n s a it c h,
          decrement_kind_lem t k n s' b it' c' held,
          sub_word-add_word (width t) a n fits,
        )
        (refl, view-rewritten k j u it (Value.num t b) c h)
