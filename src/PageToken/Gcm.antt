-- ===== src/PageToken/Gcm.antt =====
-- encrypt/aes/gcm.go: EncryptGCM and DecryptGCM, over the cipher and base64 of Go's library.
use gkit.Prelude.{
  ℕ, zero, suc, subst, ap, ◌+◌, ◌≤◌, ◌<◌, ◌≡◌, refl, sym, Bool, true, false, Option, none, some,
  List, [], ◌∷◌, ◌++◌, length, length-append, take, drop, ltb, if◌then◌else◌, arith, Bool-cases,
  inl, inr,
}

-- crypto/aes, crypto/cipher and encoding/base64: `has_cipher` is whether NewCipher and NewGCM take
-- the key. A sealed text is as much longer as Overhead says and opens under its key and nonce;
-- base64 decodes what it encoded and shortens nothing.
pub record Crypto : Type 0 where
  pub has_cipher : List ℕ → Bool
  pub nonce_size : ℕ
  pub overhead : ℕ
  pub seal : List ℕ → List ℕ → List ℕ → List ℕ
  pub open_sealed : List ℕ → List ℕ → List ℕ → Option (List ℕ)
  pub to_base64 : List ℕ → List ℕ
  pub from_base64 : List ℕ → Option (List ℕ)
  pub some_nonce : 0 < nonce_size
  pub length-seal : (k n s : List ℕ) → length (seal k n s) ≡ length s + overhead
  pub opens : (k n s : List ℕ) → open_sealed k n (seal k n s) ≡ some s
  pub decodes : (s : List ℕ) → from_base64 (to_base64 s) ≡ some s
  pub length-base64 : (s : List ℕ) → length s ≤ length (to_base64 s)

module _ (x : Crypto) where
  -- The nonce is what io.ReadFull read, if it did.
  unfoldable pub encrypt_gcm : Option (List ℕ) → List ℕ → List ℕ → Option (List ℕ)
  encrypt_gcm nonce plaintext key =
      if x.has_cipher key
      then elim nonce [ none ↦ none | some n ↦ some (x.to_base64 (n ++ x.seal key n plaintext)) ]
      else none

  unfoldable pub decrypt_gcm : List ℕ → List ℕ → Option (List ℕ)
  decrypt_gcm encoded key = elim (x.from_base64 encoded) [
    | none ↦ none
    | some payload ↦
        if x.has_cipher key
        then if ltb (length payload) (x.nonce_size + x.overhead)
          then none
          else x.open_sealed key (take x.nonce_size payload) (drop x.nonce_size payload)
        else none
  ]

  take_front : (n s : List ℕ) (k : ℕ) → k ≡ length n → take k (n ++ s) ≡ n
  take_front [] s zero e = refl
  take_front [] s (suc k) e = absurd (omega arith)
  take_front (c ∷ n) s zero e = absurd (omega arith)
  take_front (c ∷ n) s (suc k) e = ap (◌∷◌ c) (take_front n s k (omega arith))

  drop_front : (n s : List ℕ) (k : ℕ) → k ≡ length n → drop k (n ++ s) ≡ s
  drop_front [] s zero e = refl
  drop_front [] s (suc k) e = absurd (omega arith)
  drop_front (c ∷ n) s zero e = absurd (omega arith)
  drop_front (c ∷ n) s (suc k) e = drop_front n s k (omega arith)

  decrypt_gcm-payload :
      (nonce plaintext key : List ℕ)
      → length nonce ≡ x.nonce_size
      → x.has_cipher key ≡ true
      → decrypt_gcm (x.to_base64 (nonce ++ x.seal key nonce plaintext)) key ≡ some plaintext
  unfolding decrypt_gcm
  decrypt_gcm-payload nonce plaintext key e ready =
      let sealed = x.seal key nonce plaintext in
      let long : ltb (length (nonce ++ sealed)) (x.nonce_size + x.overhead) ≡ false =
        ground (arith, length-append nonce sealed, x.length-seal key nonce plaintext) in
      rw
        (
          decrypt_gcm,
          x.decodes (nonce ++ sealed),
          ready,
          long,
          take_front nonce sealed x.nonce_size (sym e),
          drop_front nonce sealed x.nonce_size (sym e),
        )
        (x.opens key nonce plaintext)

  -- What EncryptGCM returned DecryptGCM opens under the same key, and it is not empty; the random
  -- source fills the nonce.
  pub decrypt_gcm-encrypt_gcm :
      (nonce plaintext key v : List ℕ)
      → length nonce ≡ x.nonce_size
      → encrypt_gcm (some nonce) plaintext key ≡ some v
      → (decrypt_gcm v key ≡ some plaintext) × (0 < length v)
  unfolding encrypt_gcm
  decrypt_gcm-encrypt_gcm nonce plaintext key v e h = elim (Bool-cases (x.has_cipher key)) [
    | inl ready ↦
        let payload = nonce ++ x.seal key nonce plaintext in
        let same : x.to_base64 payload ≡ v = ground (arith, h, ready) in
        (
          subst (λ s. decrypt_gcm s key ≡ some plaintext) same
              (decrypt_gcm-payload nonce plaintext key e ready),
          subst (λ s. 0 < length s) same
              (omega (
                arith,
                x.length-base64 payload,
                length-append nonce (x.seal key nonce plaintext),
                e,
                x.some_nonce,
              )),
        )
    | inr unready ↦ absurd (ground (arith, h, unready))
  ]
