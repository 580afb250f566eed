-- ===== src/PageToken/Pages.antt =====
-- The pages of ProcessPageTokens: their bounds, and that each goes on where the last one ended.
use gkit.Prelude.{
  ℕ, zero, suc, ◌+◌, ◌≡◌, refl, sym, subst, ◌∙◌, true, false, Option, none, some, List, [], ◌∷◌,
  length, ltb, ◌<◌, ◌≤◌, ◌-◌, ◌==◌, if◌then◌else◌, arith, Bool-cases, inl, inr, ◌⊎◌,
}
use gkit.Prelude.Int.{ℤ, pos, negsuc, ◌+ℤ◌, ◌-ℤ◌, ◌≤ℤ◌, ltb_ℤ}
use gkit.PageToken.Gcm.{Crypto}
use gkit.PageToken.{
  Result, ok, err, Token, Texts, Page, PageError, invalid_token, is_zero, end_of, for_index,
  time_error, get_index, limited, start_of, page_from, process_page_tokens,
}
use gkit.PageToken.Round.{for_index_read, for_index_opens}

is_zero-pos : (i : ℤ) → is_zero i ≡ true → i ≡ pos 0
unfolding is_zero
is_zero-pos (pos zero) h = refl
is_zero-pos (pos (suc n)) h = absurd (ground (arith, h))
is_zero-pos (negsuc n) h = absurd (ground (arith, h))

end_of_pos :
    (n m s : ℕ)
    → s ≤ n
    → end_of (pos n) (pos m) (pos s)
      ≡ pos (if m == 0 then n else if ltb (n - s) m then n else s + m)
unfolding end_of is_zero ◌+ℤ◌ ◌-ℤ◌
end_of_pos n zero s h = ground arith
end_of_pos n (suc m) s h = ground arith

end_of_bounds :
    (n size start : ℤ)
    → pos 0 ≤ℤ size
    → pos 0 ≤ℤ start
    → start ≤ℤ n
    → (start ≤ℤ end_of n size start)
      × (end_of n size start ≤ℤ n)
      × (ltb_ℤ start n ≡ ltb_ℤ start (end_of n size start))
end_of_bounds (pos n) (pos m) (pos start) h k l =
    rw (end_of_pos n m start (omega arith)) (ground arith)
end_of_bounds n size (negsuc start) h k l = absurd (omega arith)
end_of_bounds n (negsuc size) start h k l = absurd (omega arith)
end_of_bounds (negsuc n) size start h k l = absurd (omega arith)

Result-cases :
    {A : Type 0} (r : Result A) → ((e : PageError) × (r ≡ err e)) ⊎ ((a : A) × (r ≡ ok a))
Result-cases (err e) = inl (e, refl)
Result-cases (ok a) = inr (a, refl)

ok_injective : {A : Type 0} {a b : A} → ok a ≡ ok b → a ≡ b
ok_injective e = ground (arith, e)

module _ (x : Crypto) (texts : Texts) where
  start_of_bounds :
      (now : ℕ) (n : ℤ) (s : List ℕ) (t : Token) (start : ℤ)
      → pos 0 ≤ℤ n
      → start_of x texts now n s t ≡ ok start
      → (pos 0 ≤ℤ start) × (start ≤ℤ n)
  unfolding start_of
  start_of_bounds now n [] t start h e =
      let same : pos 0 ≡ start = ground (arith, e) in
      subst (λ i. (pos 0 ≤ℤ i) × (i ≤ℤ n)) same (omega arith, h)
  start_of_bounds now n (c ∷ s) t start h e =
      elim (Result-cases (get_index x texts now (c ∷ s) t)) [
        | inl (_, failed) ↦ absurd (ground (arith, e, failed))
        | inr (i, read) ↦
            let tested : (if ltb_ℤ i (pos 0)
                  then err invalid_token
                  else if ltb_ℤ i n
                  then ok i
                  else err invalid_token)
                ≡ ok start =
              sym (rw (start_of, read) refl) ∙ e in
            let same : i ≡ start = ground (arith, tested) in
            subst (λ j. (pos 0 ≤ℤ j) × (j ≤ℤ n)) same (ground (arith, tested))
      ]

  process_page_tokens_from :
      (now : ℕ) (random : Option (List ℕ)) (num size start : ℤ) (s : List ℕ) (t : Token)
      → ltb_ℤ size (pos 0) ≡ false
      → start_of x texts now (limited num t) s t ≡ ok start
      → process_page_tokens x texts now random num size s t
        ≡ ok (page_from x texts now random (limited num t) size start t)
  unfolding process_page_tokens
  process_page_tokens_from now random num size start s t asked begun =
      rw (process_page_tokens, asked, begun) refl

  -- The page that ProcessPageTokens returns for a number of elements that is not negative after
  -- the token's limit: its bounds are in order within that number, it is empty only if it starts at
  -- the end, and the last page has no next token.
  pub process_page_tokens_bounds :
      (now : ℕ) (random : Option (List ℕ)) (num size : ℤ) (s : List ℕ) (t : Token) (page : Page)
      → pos 0 ≤ℤ limited num t
      → process_page_tokens x texts now random num size s t ≡ ok page
      → (pos 0 ≤ℤ page.start)
        × (page.start ≤ℤ page.end)
        × (page.end ≤ℤ limited num t)
        × (ltb_ℤ page.start (limited num t) ≡ ltb_ℤ page.start page.end)
        × (page.next_token ≡ (
            if ltb_ℤ page.end (limited num t) then for_index x texts now random page.end t else []))
  unfolding process_page_tokens page_from
  process_page_tokens_bounds now random num size s t page h e =
      elim (Bool-cases (ltb_ℤ size (pos 0))) [
        | inl negative ↦ absurd (ground (arith, e, negative))
        | inr asked ↦ elim (Result-cases (start_of x texts now (limited num t) s t)) [
          | inl (_, failed) ↦ absurd (ground (arith, e, asked, failed))
          | inr (start, begun) ↦
              let n = limited num t in
              let ok_size : pos 0 ≤ℤ size = ground (arith, asked) in
              let same : page_from x texts now random n size start t ≡ page =
                ok_injective
                  (sym (process_page_tokens_from now random num size start s t asked begun) ∙ e) in
              let (low, high) = start_of_bounds now n s t start h begun in
              let (a, b, c) = end_of_bounds n size start ok_size low high in
              subst
                (λ page.
                  (pos 0 ≤ℤ page.start)
                  × (page.start ≤ℤ page.end)
                  × (page.end ≤ℤ n)
                  × (ltb_ℤ page.start n ≡ ltb_ℤ page.start page.end)
                  × (page.next_token
                      ≡ (if ltb_ℤ page.end n then for_index x texts now random page.end t else [])))
                same (low, a, b, c, refl)
        ]
      ]

  start_of_index :
      (now : ℕ) (n i : ℤ) (s : List ℕ) (t : Token)
      → 0 < length s
      → get_index x texts now s t ≡ ok i
      → pos 0 ≤ℤ i
      → ltb_ℤ i n ≡ true
      → start_of x texts now n s t ≡ ok i
  unfolding start_of
  start_of_index now n i [] t long read low high = absurd (omega arith)
  start_of_index now n i (c ∷ s) t long read low high =
      let not_below : ltb_ℤ i (pos 0) ≡ false = ground arith in
      rw (start_of, read, not_below, high) refl

  -- The next token of a page that ends before the last element asks, while it is within the time
  -- limit and if the token has no greatest index, for the page that starts where this one ended,
  -- whatever the next page's size; the cipher takes the salt, and a nonce was read.
  pub process_page_tokens_next :
      (now now' : ℕ) (nonce : List ℕ) (random : Option (List ℕ)) (num size size' : ℤ) (s : List ℕ)
      (t : Token) (page : Page)
      → length nonce ≡ x.nonce_size
      → x.has_cipher t.salt ≡ true
      → time_error x texts now' (texts.format_time now) t ≡ none
      → is_zero t.max_index ≡ true
      → pos 0 ≤ℤ limited num t
      → pos 0 ≤ℤ size'
      → process_page_tokens x texts now (some nonce) num size s t ≡ ok page
      → ltb_ℤ page.end (limited num t) ≡ true
      → process_page_tokens x texts now' random num size' page.next_token t
        ≡ ok (page_from x texts now' random (limited num t) size' page.end t)
  process_page_tokens_next now now' nonce random num size size' s t page len ready in_time no_max h
        asked e more =
      let (low, order, high, empty, next) =
        process_page_tokens_bounds now (some nonce) num size s t page h e in
      let made = for_index x texts now (some nonce) page.end t in
      let token : page.next_token ≡ made = next ∙ (rw more refl) in
      let (opens, long) = for_index_opens x texts now nonce page.end t t len ready refl in
      let read : get_index x texts now' made t ≡ ok page.end =
        for_index_read x texts now now' nonce page.end t len ready ∙ (rw (in_time, no_max) refl) in
      let start =
        start_of_index now' (limited num t) page.end made t long read (omega arith) more in
      let ok_size : ltb_ℤ size' (pos 0) ≡ false = ground arith in
      rw token (process_page_tokens_from now' random num size' page.end made t ok_size start)
