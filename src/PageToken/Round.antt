-- ===== src/PageToken/Round.antt =====
-- A token that ForIndex made is read back by GetIndex, and a token of another resource is refused.
use gkit.Prelude.{
  ℕ, ◌-◌, ◌%◌, not, ◌&&◌, ◌≡◌, ◌≢◌, refl, sym, ap, subst, ◌∙◌, true, none, some, List, [], ◌∷◌,
  ◌++◌, length, ◌==◌, ◌<◌, if◌then◌else◌, arith, Bool-cases, inl, inr,
}
use mathlib.Core.List.{append_assoc}
use gkit.Prelude.Int.{ℤ, pos, ◌+ℤ◌, ltb_ℤ}
use gkit.PageToken.Gcm.{Crypto, encrypt_gcm, decrypt_gcm, decrypt_gcm-encrypt_gcm}
use gkit.PageToken.{
  ok, err, invalid_token, overdue_token, over_max_page_size, Token, Texts, lacks, trim_prefix,
  split, is_zero, plain, for_index, time_error, index_of, parse_parts, parse_plain, get_index,
}

trim_prefix_own : (p s : List ℕ) → trim_prefix p (p ++ s) ≡ some s
unfolding trim_prefix
trim_prefix_own [] s = refl
trim_prefix_own (c ∷ p) s =
    let same : (c == c) ≡ true = ground arith in rw same (trim_prefix_own p s)

split_none : (b : ℕ) (s : List ℕ) → lacks b s ≡ true → split b s ≡ s ∷ []
unfolding split
split_none b [] h = refl
split_none b (c ∷ s) h = elim (Bool-cases (b == c)) [
  | inl same ↦ absurd (ground (arith, h, same))
  | inr other ↦
      let rest : lacks b s ≡ true = ground (arith, h, other) in rw (other, split_none b s rest) refl
]

split_at :
    (b : ℕ) (a s : List ℕ) → lacks b a ≡ true → lacks b s ≡ true → split b (a ++ b ∷ s) ≡ a ∷ s ∷ []
unfolding split
split_at b [] s h k = let same : (b == b) ≡ true = ground arith in rw (same, split_none b s k) refl
split_at b (c ∷ a) s h k = elim (Bool-cases (b == c)) [
  | inl same ↦ absurd (ground (arith, h, same))
  | inr other ↦
      let rest : lacks b a ≡ true = ground (arith, h, other) in
      rw (other, split_at b a s rest k) refl
]

-- A resource's prefix ends at its first unit separator.
trim_prefix_other :
    (r r' s : List ℕ)
    → lacks 31 r ≡ true
    → lacks 31 r' ≡ true
    → r ≢ r'
    → trim_prefix (r ++ 31 ∷ []) (r' ++ 31 ∷ s) ≡ none
unfolding trim_prefix
trim_prefix_other [] [] s h k ne = absurd (ne refl)
trim_prefix_other [] (c ∷ r') s h k ne = ground arith
trim_prefix_other (c ∷ r) [] s h k ne = ground arith
trim_prefix_other (c ∷ r) (d ∷ r') s h k ne = elim (Bool-cases (c == d)) [
  | inl same ↦
      let e : c ≡ d = ground arith in
      rw same
        (trim_prefix_other r r' s (ground (arith, h)) (ground (arith, k)) (λ q. ne (cc (e, q))))
  | inr other ↦ rw other refl
]

module _ (x : Crypto) (texts : Texts) where
  plain_prefix :
      (now : ℕ) (i : ℤ) (t : Token)
      → plain x texts now i t
        ≡ (t.resource_identification ++ 31 ∷ []) ++ (texts.format_time now ++ 58 ∷ texts.itoa i)
  unfolding plain
  plain_prefix now i t = sym (
      append_assoc t.resource_identification (31 ∷ []) (texts.format_time now ++ 58 ∷ texts.itoa i))

  parse_plain_text :
      (now : ℕ) (r s : List ℕ) (t : Token)
      → parse_plain x texts now (r ++ 31 ∷ s) t
        ≡ (elim (trim_prefix (t.resource_identification ++ 31 ∷ []) (r ++ 31 ∷ s)) [
          | none ↦ err invalid_token
          | some rest ↦ parse_parts x texts now (split 58 rest) t
        ])
  unfolding parse_plain
  parse_plain_text now [] s t = refl
  parse_plain_text now (c ∷ r) s t = refl

  index_of-itoa :
      (i : ℤ) (t : Token)
      → index_of x texts (texts.itoa i) t ≡ (
          if is_zero t.max_index
          then ok i
          else if ltb_ℤ t.max_index i
          then err over_max_page_size
          else ok i)
  unfolding index_of
  index_of-itoa i t = rw (index_of, texts.reads_back i) refl

  parse_plain-plain :
      (now now' : ℕ) (i : ℤ) (t : Token)
      → parse_plain x texts now' (plain x texts now i t) t
        ≡ (elim (time_error x texts now' (texts.format_time now) t) [
          | none ↦
              if is_zero t.max_index
              then ok i
              else if ltb_ℤ t.max_index i
              then err over_max_page_size
              else ok i
          | some e ↦ err e
        ])
  unfolding plain parse_parts index_of
  parse_plain-plain now now' i t =
      let body = texts.format_time now ++ 58 ∷ texts.itoa i in
      let own =
        ap (trim_prefix (t.resource_identification ++ 31 ∷ [])) (plain_prefix now i t)
        ∙ trim_prefix_own (t.resource_identification ++ 31 ∷ []) body in
      let parts =
        split_at 58 (texts.format_time now) (texts.itoa i) (texts.no_colon_time now)
          (texts.no_colon_int i) in
      parse_plain_text now' t.resource_identification body t
      ∙ (rw (own, parts, parse_parts)
          (ap
            (λ r. elim (time_error x texts now' (texts.format_time now) t) [
              | none ↦ r
              | some e ↦ err e
            ])
            (index_of-itoa i t)))

  pub for_index_opens :
      (now : ℕ) (nonce : List ℕ) (i : ℤ) (t u : Token)
      → length nonce ≡ x.nonce_size
      → x.has_cipher t.salt ≡ true
      → u.salt ≡ t.salt
      → let s = for_index x texts now (some nonce) i t in
        (decrypt_gcm x s u.salt ≡ some (plain x texts now i t)) × (0 < length s)
  unfolding for_index encrypt_gcm
  for_index_opens now nonce i t u e ready same =
      let s = for_index x texts now (some nonce) i t in
      let made : encrypt_gcm x (some nonce) (plain x texts now i t) t.salt ≡ some s =
        rw (for_index, ready) refl in
      subst (λ k. (decrypt_gcm x s k ≡ some (plain x texts now i t)) × (0 < length s)) (sym same)
        (decrypt_gcm-encrypt_gcm x nonce (plain x texts now i t) t.salt s e made)

  get_index_text :
      (now : ℕ) (s d : List ℕ) (t : Token)
      → 0 < length s
      → decrypt_gcm x s t.salt ≡ some d
      → get_index x texts now s t ≡ parse_plain x texts now d t
  unfolding get_index
  get_index_text now [] d t h e = absurd (omega arith)
  get_index_text now (c ∷ s) d t h e = rw (get_index, e) refl

  pub for_index_read :
      (now now' : ℕ) (nonce : List ℕ) (i : ℤ) (t : Token)
      → length nonce ≡ x.nonce_size
      → x.has_cipher t.salt ≡ true
      → get_index x texts now' (for_index x texts now (some nonce) i t) t
        ≡ (elim (time_error x texts now' (texts.format_time now) t) [
          | none ↦
              if is_zero t.max_index
              then ok i
              else if ltb_ℤ t.max_index i
              then err over_max_page_size
              else ok i
          | some e ↦ err e
        ])
  for_index_read now now' nonce i t e ready =
      let (opens, long) = for_index_opens now nonce i t t e ready refl in
      get_index_text now' (for_index x texts now (some nonce) i t) (plain x texts now i t) t long
        opens
      ∙ parse_plain-plain now now' i t

  time_error-floor :
      (now now' g : ℕ) (t : Token)
      → texts.parse_time (texts.format_time now) ≡ some g
      → time_error x texts now' (texts.format_time now) t ≡ (
          if is_zero t.time_limitation
          then none
          else if ltb_ℤ (pos g +ℤ t.time_limitation) (pos now')
          then some overdue_token
          else none)
  unfolding time_error
  time_error-floor now now' g t e = rw (time_error, e) refl

  -- A token that ForIndex made with a key that the cipher takes and a nonce that was read, at a time
  -- whose text package time reads back as its whole second (as it does where no change of the local
  -- clock makes that second ambiguous): GetIndex gives ErrOverdueToken if there is a time limit and
  -- the second and the limit lie before the present, else ErrOverMaxPageSizeToken if there is a
  -- greatest index and the index is above it, and else the index.
  pub get_index-for_index :
      (now now' : ℕ) (nonce : List ℕ) (i : ℤ) (t : Token)
      → length nonce ≡ x.nonce_size
      → x.has_cipher t.salt ≡ true
      → texts.parse_time (texts.format_time now) ≡ some (now - now % 1000000000)
      → get_index x texts now' (for_index x texts now (some nonce) i t) t ≡ (
          if not (is_zero t.time_limitation)
            && ltb_ℤ (pos (now - now % 1000000000) +ℤ t.time_limitation) (pos now')
          then err overdue_token
          else if not (is_zero t.max_index) && ltb_ℤ t.max_index i
          then err over_max_page_size
          else ok i)
  get_index-for_index now now' nonce i t e ready floor =
      for_index_read now now' nonce i t e ready
      ∙ rw (time_error-floor now now' (now - now % 1000000000) t floor) (ground arith)

  -- A token of another resource is invalid under the same salt, where neither resource has a unit
  -- separator, also if one resource is a prefix of the other.
  pub get_index_other :
      (now now' : ℕ) (nonce : List ℕ) (i : ℤ) (t u : Token)
      → length nonce ≡ x.nonce_size
      → x.has_cipher t.salt ≡ true
      → u.salt ≡ t.salt
      → lacks 31 t.resource_identification ≡ true
      → lacks 31 u.resource_identification ≡ true
      → u.resource_identification ≢ t.resource_identification
      → get_index x texts now' (for_index x texts now (some nonce) i t) u ≡ err invalid_token
  unfolding plain
  get_index_other now now' nonce i t u e ready same h k ne =
      let (opens, long) = for_index_opens now nonce i t u e ready same in
      let body = texts.format_time now ++ 58 ∷ texts.itoa i in
      let refused =
        trim_prefix_other u.resource_identification t.resource_identification body k h ne in
      get_index_text now' (for_index x texts now (some nonce) i t) (plain x texts now i t) u long
        opens
      ∙ parse_plain_text now' t.resource_identification body u
      ∙ (rw refused refl)
