-- ===== src/PageToken.antt =====
-- page_token/token.go: tokens that carry the index of the next page, and the pages they walk
-- through. Texts are lists of bytes. The clock's readings and the random nonces are arguments; what
-- the code takes of package time and strconv is a parameter.
pub mod Gcm
pub mod Pages
pub mod Round
mod Tests
use gkit.Prelude.{
  ℕ, zero, suc, ◌+◌, ◌≡◌, refl, Bool, true, false, Option, none, some, List, [], ◌∷◌, ◌++◌, ◌==◌,
  if◌then◌else◌,
}
use gkit.Prelude.Int.{ℤ, pos, negsuc, ◌+ℤ◌, ◌-ℤ◌, ltb_ℤ}
use gkit.PageToken.Gcm.{Crypto, encrypt_gcm, decrypt_gcm}

pub data PageError : Type 0 where
  invalid_token overdue_token over_max_page_size invalid_page_size : PageError

pub data Result (A : Type 0) : Type 0 where
  ok : A → Result A
  err : PageError → Result A

pub record Token : Type 0 where
  pub salt : List ℕ
  pub resource_identification : List ℕ
  pub time_limitation : ℤ
  pub max_index : ℤ
  pub max_elements : ℤ

pub record Page : Type 0 where
  pub start : ℤ
  pub end : ℤ
  pub next_token : List ℕ

-- A byte does not occur in a text.
abbrev pub lacks : ℕ → List ℕ → Bool
lacks b [] = true
lacks b (c ∷ s) = if b == c then false else lacks b s

-- time.Format and time.ParseInLocation with the package's layout, strconv.Atoi and the verb %d. The
-- layout and a decimal number have no colon, and Atoi reads what %d printed.
pub record Texts : Type 0 where
  pub format_time : ℕ → List ℕ
  pub parse_time : List ℕ → Option ℕ
  pub itoa : ℤ → List ℕ
  pub atoi : List ℕ → Option ℤ
  pub no_colon_time : (t : ℕ) → lacks 58 (format_time t) ≡ true
  pub no_colon_int : (i : ℤ) → lacks 58 (itoa i) ≡ true
  pub reads_back : (i : ℤ) → atoi (itoa i) ≡ some i

-- strings.HasPrefix with strings.TrimPrefix.
unfoldable pub trim_prefix : List ℕ → List ℕ → Option (List ℕ)
trim_prefix [] s = some s
trim_prefix (p ∷ ps) [] = none
trim_prefix (p ∷ ps) (c ∷ s) = if p == c then trim_prefix ps s else none

abbrev push_first : ℕ → List (List ℕ) → List (List ℕ)
push_first c [] = (c ∷ []) ∷ []
push_first c (w ∷ ws) = (c ∷ w) ∷ ws

-- strings.Split at a byte.
unfoldable pub split : ℕ → List ℕ → List (List ℕ)
split b [] = [] ∷ []
split b (c ∷ s) = let rest = split b s in if b == c then [] ∷ rest else push_first c rest

unfoldable pub is_zero : ℤ → Bool
is_zero (pos zero) = true
is_zero (pos (suc n)) = false
is_zero (negsuc n) = false

-- The number of elements that the token's limit leaves.
unfoldable pub limited : ℤ → Token → ℤ
unfolding is_zero
limited num t =
    if is_zero t.max_elements then num else if ltb_ℤ t.max_elements num then t.max_elements else num

-- The end of the page from a start on; a size of 0 asks for all elements.
unfoldable pub end_of : ℤ → ℤ → ℤ → ℤ
unfolding ◌+ℤ◌ ◌-ℤ◌ is_zero
end_of num page_size start =
    let size = if is_zero page_size then num else page_size in
    if ltb_ℤ (num -ℤ start) size then num else start +ℤ size

module _ (x : Crypto) (texts : Texts) where
  -- The plaintext of a token.
  unfoldable pub plain : ℕ → ℤ → Token → List ℕ
  plain now i t = t.resource_identification ++ 31 ∷ (texts.format_time now ++ 58 ∷ texts.itoa i)

  -- ForIndex; the nonce is what the source of randomness gives, if it does.
  unfoldable pub for_index : ℕ → Option (List ℕ) → ℤ → Token → List ℕ
  unfolding plain
  for_index now random i t = elim (encrypt_gcm x random (plain now i t) t.salt) [
    | none ↦ []
    | some v ↦ v
  ]

  -- The check of the time limit.
  unfoldable pub time_error : ℕ → List ℕ → Token → Option PageError
  unfolding ◌+ℤ◌ is_zero
  time_error now s t = if is_zero t.time_limitation then none else elim (texts.parse_time s) [
    | none ↦ some invalid_token
    | some g ↦ if ltb_ℤ (pos g +ℤ t.time_limitation) (pos now) then some overdue_token else none
  ]

  -- The part of GetIndex from the second text of the token on.
  unfoldable pub index_of : List ℕ → Token → Result ℤ
  unfolding is_zero
  index_of s t = elim (texts.atoi s) [
    | none ↦ err invalid_token
    | some i ↦
        if is_zero t.max_index
        then ok i
        else if ltb_ℤ t.max_index i
        then err over_max_page_size
        else ok i
  ]

  unfoldable pub parse_parts : ℕ → List (List ℕ) → Token → Result ℤ
  unfolding time_error index_of
  parse_parts now [] t = err invalid_token
  parse_parts now (a ∷ []) t = err invalid_token
  parse_parts now (a ∷ b ∷ []) t = elim (time_error now a t) [
    | none ↦ index_of b t
    | some e ↦ err e
  ]
  parse_parts now (a ∷ b ∷ c ∷ ws) t = err invalid_token

  unfoldable pub parse_plain : ℕ → List ℕ → Token → Result ℤ
  unfolding parse_parts trim_prefix split
  parse_plain now [] t = err invalid_token
  parse_plain now (c ∷ s) t = elim (trim_prefix (t.resource_identification ++ 31 ∷ []) (c ∷ s)) [
    | none ↦ err invalid_token
    | some rest ↦ parse_parts now (split 58 rest) t
  ]

  -- GetIndex; the index -1 that goes with an error is left out.
  unfoldable pub get_index : ℕ → List ℕ → Token → Result ℤ
  unfolding parse_plain
  get_index now [] t = ok (pos 0)
  get_index now (c ∷ s) t = elim (decrypt_gcm x (c ∷ s) t.salt) [
    | none ↦ err invalid_token
    | some d ↦ parse_plain now d t
  ]

  -- The start that a page token asks for.
  unfoldable pub start_of : ℕ → ℤ → List ℕ → Token → Result ℤ
  unfolding get_index
  start_of now num [] t = ok (pos 0)
  start_of now num (c ∷ s) t = elim (get_index now (c ∷ s) t) [
    | err e ↦ err e
    | ok i ↦
        if ltb_ℤ i (pos 0)
        then err invalid_token
        else if ltb_ℤ i num
        then ok i
        else err invalid_token
  ]

  -- The page from a start on.
  unfoldable pub page_from : ℕ → Option (List ℕ) → ℤ → ℤ → ℤ → Token → Page
  unfolding for_index end_of
  page_from now random num page_size start t =
      let end = end_of num page_size start in
      record {
        start = start;
        end = end;
        next_token = if ltb_ℤ end num then for_index now random end t else [];
      }

  -- ProcessPageTokens.
  unfoldable pub process_page_tokens : ℕ → Option (List ℕ) → ℤ → ℤ → List ℕ → Token → Result Page
  unfolding limited start_of page_from
  process_page_tokens now random num page_size page_token t =
      let n = limited num t in
      if ltb_ℤ page_size (pos 0)
      then err invalid_page_size
      else elim (start_of now n page_token t) [
        | err e ↦ err e
        | ok start ↦ ok (page_from now random n page_size start t)
      ]
