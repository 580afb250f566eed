-- ===== src/LocalCache/Persist.antt =====
-- cache/local_cache: Save and Load, over Go's gob encoding as a parameter. SaveFile and LoadFile
-- only open the file.
use gkit.Prelude.{ℕ, suc, ◌≡◌, Option, none, some, [], ◌∷◌, if◌then◌else◌}
use gkit.Prelude.Map.{Map, String, lookup, put, IsDistinct}
use gkit.LocalCache.Value.{Platform, Value}
use gkit.LocalCache.{Cache, Iterator, expired}

-- How `gob.Register` and `enc.Encode` end, over the bytes that they write.
pub data Encoded (Bytes : Type 0) : Type 0 where
  wrote : Bytes → Encoded Bytes
  refused panicked : Encoded Bytes

pub data Saved (Bytes : Type 0) : Type 0 where
  saved : Bytes → Saved Bytes
  encode_err gob_err : Saved Bytes

-- The gob package: a map that it wrote it reads back under the same keys, with each entry's end of
-- life, an int64, as it was, and in place of each value what gob carries over of it: a struct's
-- unexported fields are left out, for one.
pub record Gob (p : Platform) : Type 1 where
  pub Bytes : Type 0
  pub encode : Map (Iterator p) → Encoded Bytes
  pub decode : Bytes → Option (Map (Iterator p))
  pub carry : Value p → Value p
  pub reads_back :
      (m : Map (Iterator p)) (b : Bytes)
      → encode m ≡ wrote b
      → (n : Map (Iterator p)) × (decode b ≡ some n)
        × IsDistinct n
        × ((k : String) (it : Iterator p)
            → lookup k m ≡ some it
            → lookup k n ≡ some (record it { val = carry it.val }))

module _ {p : Platform} (gob : Gob p) where
  -- Save encodes a snapshot; a panic is recovered as CacheGobErr.
  unfoldable pub save : Cache p → Saved gob.Bytes
  save c = elim (gob.encode c.member) [
    | wrote b ↦ saved b
    | refused ↦ encode_err
    | panicked ↦ gob_err
  ]

module _ {p : Platform} where
  -- The body of Load's loop: an entry that is there and has not expired wins.
  unfoldable pub load_entry : ℕ → String → Iterator p → Cache p → Cache p
  unfolding expired
  load_entry now k it c =
      let take : Cache p = record c { member = put k it c.member } in
      elim (lookup k c.member) [ none ↦ take | some old ↦ if expired now old then take else c ]

  -- The loop over the decoded entries; `clock` numbers the readings of the clock.
  unfoldable pub load_loop : (ℕ → ℕ) → ℕ → Map (Iterator p) → Cache p → Cache p
  unfolding load_entry
  load_loop clock i [] c = c
  load_loop clock i ((k, it) ∷ m) c = load_loop clock (suc i) m (load_entry (clock i) k it c)

module _ {p : Platform} (gob : Gob p) where
  -- Load; `none` is a decoding error.
  unfoldable pub load : (ℕ → ℕ) → gob.Bytes → Cache p → Option (Cache p)
  unfolding load_loop
  load clock b c = elim (gob.decode b) [ none ↦ none | some m ↦ some (load_loop clock 0 m c) ]
