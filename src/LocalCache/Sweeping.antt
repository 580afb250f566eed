-- ===== src/LocalCache/Sweeping.antt =====
-- What DeleteExpire and Iterator do to the map, and what they hand to the callback.
use gkit.Prelude.{
  ℕ, suc, ◌≤◌, ◌≡◌, refl, Bool, false, ◌&&◌, ◌||◌, Option, none, some, List, [], ◌∷◌, ◌++◌, arith,
  if◌then◌else◌, length, ◌∙◌,
}
use gkit.Prelude.Map.{Map, String, ◌=?◌, eq_iff, lookup, remove, lookup-remove, IsDistinct}
use gkit.LocalCache.Value.{Platform}
use gkit.LocalCache.{Cache, Iterator, Event, expired, fire, delete_locked}
use gkit.LocalCache.View.{view, expired_mono}
use gkit.LocalCache.Sweep.{
  delete_expired, expire_loop, delete_expire, partition, delete_keys, iterator,
}

module _ {p : Platform} where
  -- Whether the loop over `m` deletes `j`.
  hit : ℕ → String → Map (Iterator p) → Bool
  hit t j [] = false
  hit t j ((k, it) ∷ m) = (k =? j && expired t it) || hit t j m

  lookup-expire_loop :
      (t : ℕ) (j : String) (m : Map (Iterator p)) (c : Cache p)
      → lookup j (expire_loop t m c).0.member ≡ (if hit t j m then none else lookup j c.member)
  unfolding expire_loop hit
  lookup-expire_loop t j [] c = refl
  lookup-expire_loop t j ((k, it) ∷ m) c =
      let (c', v) = if expired t it then delete_locked k c else (c, none) in
      ground (arith, eq_iff k j, lookup-remove k j c.member, lookup-expire_loop t j m c')

  hit-lookup :
      (t : ℕ) (j : String) (m : Map (Iterator p))
      → IsDistinct m
      → hit t j m ≡ elim (lookup j m) [ none ↦ false | some it ↦ expired t it ]
  unfolding hit lookup
  hit-lookup t j [] h = refl
  hit-lookup t j ((k, it) ∷ m) h = ground (arith, eq_iff k j, hit-lookup t j m h.1)

  -- DeleteExpire at the time `t` keeps exactly the entries that have not expired then.
  pub lookup-delete_expire :
      (t : ℕ) (j : String) (c : Cache p)
      → IsDistinct c.member
      → lookup j (delete_expire t c).state.member ≡ elim (lookup j c.member) [
        | none ↦ none
        | some it ↦ if expired t it then none else some it
      ]
  unfolding delete_expire
  lookup-delete_expire t j c h =
      ground (arith, lookup-expire_loop t j c.member c, hit-lookup t j c.member h)

  -- The callbacks for the expired entries of `m`, in its order.
  abbrev pub expired_events : ℕ → Option p.Capture → Map (Iterator p) → List (Event p)
  expired_events t f [] = []
  expired_events t f ((k, it) ∷ m) =
      if expired t it then fire f k (some it.val) ++ expired_events t f m else expired_events t f m

  -- The map `n` still has the entries of `m`.
  abbrev Holds : Map (Iterator p) → Map (Iterator p) → Type 0
  Holds [] n = Unit
  Holds ((k, it) ∷ m) n = (lookup k n ≡ some it) × Holds m n

  Holds-remove :
      (k : String) (m n : Map (Iterator p)) → lookup k m ≡ none → Holds m n → Holds m (remove k n)
  unfolding lookup
  Holds-remove k [] n e h = tt
  Holds-remove k ((j, it) ∷ m) n e h =
      ground (arith, eq_iff k j, eq_iff j k, lookup-remove k j n, Holds-remove k m n)

  Holds-cons :
      (k : String) (it : Iterator p) (m n : Map (Iterator p))
      → lookup k m ≡ none
      → Holds m n
      → Holds m ((k, it) ∷ n)
  unfolding lookup
  Holds-cons k it [] n e h = tt
  Holds-cons k it ((j, jt) ∷ m) n e h = ground (arith, eq_iff k j, eq_iff j k, Holds-cons k it m n)

  Holds-self : (m : Map (Iterator p)) → IsDistinct m → Holds m m
  unfolding lookup
  Holds-self [] h = tt
  Holds-self ((k, it) ∷ m) h = ground (arith, eq_iff k k, Holds-cons k it m m, Holds-self m h.1)

  events-expire_loop :
      (t : ℕ) (m : Map (Iterator p)) (c : Cache p)
      → IsDistinct m
      → Holds m c.member
      → (expire_loop t m c).1 ≡ expired_events t c.capture m
  unfolding expire_loop
  events-expire_loop t [] c d h = refl
  events-expire_loop t ((k, it) ∷ m) c d h =
      let c' : Cache p = record c { member = remove k c.member } in
      let kept = Holds-remove k m c.member d.0 h.1 in
      ground (arith, events-expire_loop t m c d.1 h.1, events-expire_loop t m c' d.1 kept)

  -- DeleteExpire calls the callback that was set when it began once for each entry that has
  -- expired, with its key and value, and for no other.
  pub events-delete_expire :
      (t : ℕ) (c : Cache p)
      → IsDistinct c.member
      → (delete_expire t c).events ≡ expired_events t c.capture c.member
  unfolding delete_expire
  events-delete_expire t c d = events-expire_loop t c.member c d (Holds-self c.member d)

  view-delete_expired :
      (k j : String) (s t : ℕ) (c : Cache p)
      → s ≤ t
      → view (delete_expired k s c).state t j ≡ view c t j
  unfolding delete_expired view
  view-delete_expired k j s t c h = ground (arith, eq_iff k j, lookup-remove k j c.member)

  view-delete_keys :
      (clock : ℕ → ℕ) (i t : ℕ) (j : String) (ks : List String) (c : Cache p)
      → ((n : ℕ) → clock n ≤ t)
      → view (delete_keys clock i ks c).0 t j ≡ view c t j
  unfolding delete_keys
  view-delete_keys clock i t j [] c h = refl
  view-delete_keys clock i t j (k ∷ ks) c h =
      view-delete_keys clock (suc i) t j ks (delete_expired k (clock i) c).state h
      ∙ view-delete_expired k j (clock i) t c (h i)

  -- Iterator changes nothing that a client sees from the last of its readings of the clock on,
  -- although it deletes the expired entries that it met.
  pub view-iterator :
      (clock : ℕ → ℕ) (t : ℕ) (j : String) (c : Cache p)
      → ((n : ℕ) → clock n ≤ t)
      → view (iterator clock c).state t j ≡ view c t j
  unfolding iterator
  view-iterator clock t j c h =
      view-delete_keys clock (length c.member) t j (partition clock 0 c.member).1 c h

  partition_sound :
      (clock : ℕ → ℕ) (i s : ℕ) (j : String) (m : Map (Iterator p)) (it : Iterator p)
      → ((n : ℕ) → s ≤ clock n)
      → IsDistinct m
      → lookup j (partition clock i m).0 ≡ some it
      → (lookup j m ≡ some it) × (expired s it ≡ false)
  unfolding partition lookup
  partition_sound clock i s j [] it lo d e = cc
  partition_sound clock i s j ((k, kt) ∷ m) it lo d e =
      let below = lo i in
      ground
        (arith, eq_iff k j, expired_mono kt s (clock i), partition_sound clock (suc i) s j m it lo)

  partition_complete :
      (clock : ℕ → ℕ) (i t : ℕ) (j : String) (m : Map (Iterator p)) (it : Iterator p)
      → ((n : ℕ) → clock n ≤ t)
      → lookup j m ≡ some it
      → expired t it ≡ false
      → lookup j (partition clock i m).0 ≡ some it
  unfolding partition lookup
  partition_complete clock i t j [] it hi e x = e
  partition_complete clock i t j ((k, kt) ∷ m) it hi e x =
      let above = hi i in
      ground (
        arith,
        eq_iff k j,
        expired_mono kt (clock i) t,
        partition_complete clock (suc i) t j m it hi,
      )

  -- Every entry that Iterator returns stands in the cache and had not expired at a time that no
  -- reading of its clock precedes.
  pub iterator_sound :
      (clock : ℕ → ℕ) (s : ℕ) (j : String) (c : Cache p) (it : Iterator p)
      → ((n : ℕ) → s ≤ clock n)
      → IsDistinct c.member
      → lookup j (iterator clock c).result ≡ some it
      → (lookup j c.member ≡ some it) × (expired s it ≡ false)
  unfolding iterator
  iterator_sound clock s j c it lo d e = partition_sound clock 0 s j c.member it lo d e

  -- Iterator returns every entry that has not expired at a time that no reading of its clock
  -- passes.
  pub iterator_complete :
      (clock : ℕ → ℕ) (t : ℕ) (j : String) (c : Cache p) (it : Iterator p)
      → ((n : ℕ) → clock n ≤ t)
      → lookup j c.member ≡ some it
      → expired t it ≡ false
      → lookup j (iterator clock c).result ≡ some it
  unfolding iterator
  iterator_complete clock t j c it hi e x = partition_complete clock 0 t j c.member it hi e x
