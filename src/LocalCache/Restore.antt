-- ===== src/LocalCache/Restore.antt =====
-- What a saved cache gives back, and which entries win in Load.
use gkit.Prelude.{
  ℕ, suc, ◌≤◌, ◌≡◌, false, Option, none, some, [], ◌∷◌, arith, if◌then◌else◌, Option-cases, inl,
  inr,
}
use gkit.Prelude.Map.{Map, String, ◌=?◌, eq_iff, lookup, lookup-put}
use gkit.LocalCache.Value.{Platform}
use gkit.LocalCache.{Cache, Iterator, expired}
use gkit.LocalCache.Persist.{Gob, load, load_loop, load_entry}
use gkit.LocalCache.View.{expired_mono}

module _ {p : Platform} where
  lookup-load_entry :
      (now : ℕ) (k j : String) (it : Iterator p) (c : Cache p)
      → lookup j (load_entry now k it c).member ≡ (
          if k =? j
          then elim (lookup k c.member) as (λ _. Option (Iterator p)) [
            | none ↦ some it
            | some old ↦ if expired now old then some it else some old
          ]
          else lookup j c.member)
  unfolding load_entry
  lookup-load_entry now k j it c = ground (arith, eq_iff k j, lookup-put k j it c.member)

  load_loop_keeps :
      (clock : ℕ → ℕ) (i t : ℕ) (j : String) (m : Map (Iterator p)) (c : Cache p) (it : Iterator p)
      → ((n : ℕ) → clock n ≤ t)
      → expired t it ≡ false
      → lookup j c.member ≡ some it
      → lookup j (load_loop clock i m c).member ≡ some it
  unfolding load_loop
  load_loop_keeps clock i t j [] c it hi x e = e
  load_loop_keeps clock i t j ((k, kt) ∷ m) c it hi x e =
      let above = hi i in
      let kept : lookup j (load_entry (clock i) k kt c).member ≡ some it =
        ground
          (arith, eq_iff k j, expired_mono it (clock i) t, lookup-load_entry (clock i) k j kt c) in
      load_loop_keeps clock (suc i) t j m (load_entry (clock i) k kt c) it hi x kept

module _ {p : Platform} (gob : Gob p) where
  -- An entry that is live at a time that no reading of Load's clock passes survives a Load of any
  -- bytes that decode.
  pub load_keeps :
      (clock : ℕ → ℕ) (t : ℕ) (j : String) (b : gob.Bytes) (c : Cache p) {c' : Cache p}
      (it : Iterator p)
      → ((n : ℕ) → clock n ≤ t)
      → load gob clock b c ≡ some c'
      → lookup j c.member ≡ some it
      → expired t it ≡ false
      → lookup j c'.member ≡ some it
  unfolding load
  load_keeps clock t j b c it hi e found x = elim (Option-cases (gob.decode b)) [
    | inl none_read ↦ ground arith
    | inr (m, read) ↦ ground (arith, load_loop_keeps clock 0 t j m c it hi x found)
  ]
