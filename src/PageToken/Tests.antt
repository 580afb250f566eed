-- ===== src/PageToken/Tests.antt =====
-- Runs of the page tokens, over a cipher and texts made up for them.
use gkit.Prelude.{
  ℕ, not, ◌&&◌, ◌-◌, ◌%◌, zero, suc, ◌≡◌, ◌≢◌, refl, Option, none, some, List, [], ◌∷◌, true,
  length, length-replicate, replicate, ◌==◌, if◌then◌else◌, arith,
}
use gkit.Prelude.Int.{ℤ, ◌+ℤ◌, pos, negsuc, ◌≤ℤ◌, ltb_ℤ}
use gkit.PageToken.Gcm.{Crypto, encrypt_gcm, decrypt_gcm}
use gkit.PageToken.{
  ok, err, invalid_token, overdue_token, over_max_page_size, Token, Texts, Page, lacks, is_zero,
  for_index, time_error, get_index, limited, page_from, process_page_tokens,
}
use gkit.PageToken.Round.{get_index-for_index, get_index_other}
use gkit.PageToken.Pages.{process_page_tokens_bounds, process_page_tokens_next}

-- A cipher that marks a text with one byte.
abbrev open_marked : List ℕ → Option (List ℕ)
open_marked [] = none
open_marked (c ∷ s) = some s

abbrev marked : Crypto
marked = record {
  has_cipher = λ k. true;
  nonce_size = 2;
  overhead = 1;
  seal = λ k n s. 7 ∷ s;
  open_sealed = λ k n s. open_marked s;
  to_base64 = λ s. s;
  from_base64 = some;
  some_nonce = omega arith;
  length-seal = λ k n s. omega arith;
  opens = λ k n s. refl;
  decodes = λ s. refl;
  length-base64 = λ s. omega arith;
}

-- Numbers in unary, and a time as one byte.
abbrev unary : ℤ → List ℕ
unary (pos n) = replicate n 49
unary (negsuc n) = 45 ∷ replicate n 49

abbrev of_unary : List ℕ → Option ℤ
of_unary [] = some (pos 0)
of_unary (c ∷ s) = if c == 45 then some (negsuc (length s)) else some (pos (suc (length s)))

ones_lack : (n : ℕ) → lacks 58 (replicate n 49) ≡ true
ones_lack zero = refl
ones_lack (suc n) = ones_lack n

lacks-unary : (i : ℤ) → lacks 58 (unary i) ≡ true
lacks-unary (pos n) = ones_lack n
lacks-unary (negsuc n) = ones_lack n

of_unary-unary : (i : ℤ) → of_unary (unary i) ≡ some i
of_unary-unary (pos zero) = refl
of_unary-unary (pos (suc n)) = rw (length-replicate {A = ℕ} n 49) refl
of_unary-unary (negsuc n) = rw (length-replicate {A = ℕ} n 49) refl

abbrev time_byte : ℕ → List ℕ
time_byte t = (if 58 == t then 59 else t) ∷ []

lacks-time_byte : (t : ℕ) → lacks 58 (time_byte t) ≡ true
lacks-time_byte t = ground arith

abbrev of_time_byte : List ℕ → Option ℕ
of_time_byte [] = none
of_time_byte (c ∷ s) = some c

abbrev texts : Texts
texts = record {
  format_time = time_byte;
  parse_time = of_time_byte;
  itoa = unary;
  atoi = of_unary;
  no_colon_time = lacks-time_byte;
  no_colon_int = lacks-unary;
  reads_back = of_unary-unary;
}

abbrev user : Token
user = record {
  salt = 1 ∷ [];
  resource_identification = 117 ∷ 115 ∷ [];
  time_limitation = pos 30;
  max_index = pos 0;
  max_elements = pos 9;
}

abbrev user_admin : Token
user_admin = record {
  salt = 1 ∷ [];
  resource_identification = 117 ∷ 115 ∷ 95 ∷ [];
  time_limitation = pos 0;
  max_index = pos 2;
  max_elements = pos 0;
}

abbrev nonce : List ℕ
nonce = 3 ∷ 4 ∷ []

abbrev sealed : List ℕ
sealed = 3 ∷ 4 ∷ 7 ∷ 80 ∷ []

issued :
    get_index marked texts 25 (for_index marked texts 10 (some nonce) (pos 4) user) user
    ≡ ok (pos 4)
unfolding get_index for_index encrypt_gcm decrypt_gcm
issued = refl

get_index-for_index_example :
    get_index marked texts 45 (for_index marked texts 0 (some nonce) (pos 4) user) user ≡ (
      if not (is_zero (pos 30)) && ltb_ℤ (pos (0 - 0 % 1000000000) +ℤ pos 30) (pos 45)
      then err overdue_token
      else if not (is_zero (pos 0)) && ltb_ℤ (pos 0) (pos 4)
      then err over_max_page_size
      else ok (pos 4))
get_index-for_index_example =
    get_index-for_index marked texts 0 45 nonce (pos 4) user refl refl refl

longer : user_admin.resource_identification ≢ user.resource_identification
longer e = ground (arith, e)

get_index_other_example :
    get_index marked texts 25 (for_index marked texts 10 (some nonce) (pos 4) user) user_admin
    ≡ err invalid_token
get_index_other_example =
    get_index_other marked texts 10 25 nonce (pos 4) user user_admin refl refl refl refl refl longer

abbrev first : Page
unfolding page_from
first = page_from marked texts 10 (some nonce) (pos 9) (pos 4) (pos 0) user

first_lem : process_page_tokens marked texts 10 (some nonce) (pos 50) (pos 4) [] user ≡ ok first
unfolding process_page_tokens limited
first_lem = refl

limited_lem : limited (pos 50) user ≡ pos 9
unfolding limited
limited_lem = refl

process_page_tokens_bounds_example :
    (pos 0 ≤ℤ first.start)
    × (first.start ≤ℤ first.end)
    × (first.end ≤ℤ limited (pos 50) user)
    × (ltb_ℤ first.start (limited (pos 50) user) ≡ ltb_ℤ first.start first.end)
    × (first.next_token ≡ (
        if ltb_ℤ first.end (limited (pos 50) user)
        then for_index marked texts 10 (some nonce) first.end user
        else []))
unfolding limited
process_page_tokens_bounds_example =
    process_page_tokens_bounds marked texts 10 (some nonce) (pos 50) (pos 4) [] user first
      (omega arith) first_lem

process_page_tokens_next_example :
    process_page_tokens marked texts 25 none (pos 50) (pos 3) first.next_token user
    ≡ ok (page_from marked texts 25 none (limited (pos 50) user) (pos 3) first.end user)
unfolding limited page_from time_error is_zero
process_page_tokens_next_example =
    process_page_tokens_next marked texts 10 25 nonce none (pos 50) (pos 4) (pos 3) [] user first
      refl refl refl refl (omega arith) (omega arith) first_lem refl
