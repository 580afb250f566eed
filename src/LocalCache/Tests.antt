-- ===== src/LocalCache/Tests.antt =====
-- Runs of the cache and its theorems at concrete inputs.
use gkit.Prelude.{ℕ, suc, ◌+◌, ◌-◌, ◌^◌, ◌≡◌, refl, false, none, some, [], ◌∷◌, arith}
use gkit.Prelude.Int.{pos}
use gkit.Prelude.Map.{Map, String, lookup, put, remove, IsDistinct}
use gkit.LocalCache.Value.{Platform, Value, Kind}
use gkit.LocalCache.{expired, Cache, Iterator, ok, set, get, get_recheck, add}
use gkit.LocalCache.View.{view, view-set_overflow, view-get_recheck}
use gkit.LocalCache.Typed.{increment_int8, increment_kind, decrement_kind}
use gkit.LocalCache.Arith.{Counts, decrement-increment}
use gkit.LocalCache.Sweep.{delete_expire, iterator}
use gkit.LocalCache.Sweeping.{lookup-delete_expire, iterator_sound, iterator_complete}
use gkit.LocalCache.Persist.{Gob, Encoded, wrote, refused, load}

abbrev plain : Platform
plain = record {
  Float32 = ℕ;
  Float64 = ℕ;
  Other = String;
  Capture = ℕ;
  add32 = λ a b. a + b;
  sub32 = λ a b. a;
  add64 = λ a b. a + b;
  sub64 = λ a b. a;
  int_to_float32 = λ a. a;
  int_to_float64 = λ a. a;
  narrow = λ a. a;
}

abbrev entry : ℕ → ℕ → Iterator plain
entry a e = record { val = Value.num Kind.int8 a; expire = pos e }

-- `a` never expires, `b` expires after 50.
abbrev sample : Cache plain
sample = record {
  default_expire = pos 0;
  member = ("a", entry 200 0) ∷ ("b", entry 7 50) ∷ [];
  capture = some 1;
  cancelled = false;
}

get_expired : (get "b" 60 61 sample).state.member ≡ ("a", entry 200 0) ∷ []
unfolding get lookup remove
get_expired = refl

counts : (increment_int8 "a" 100 5 sample).result ≡ ok 44
unfolding increment_kind lookup
counts = refl

sample-Counts : Counts Kind.int8 "a" 5 200 (entry 200 0) sample
unfolding lookup expired
sample-Counts = record { stored = refl; fresh = refl; number = refl }

view-set_overflow_example :
    view (set "b" (Value.num Kind.int 1) (pos (suc (2 ^ 63 - 2))) 100 sample) 100 "b" ≡ none
view-set_overflow_example =
    view-set_overflow "b" (Value.num Kind.int 1) (2 ^ 63 - 2) 100 100 sample (omega arith)
      (omega arith) (omega arith)

view-get_recheck_example : view (get_recheck "b" 40 sample).state 45 "b" ≡ view sample 45 "b"
view-get_recheck_example = view-get_recheck "b" "b" 40 45 sample (omega arith)

add_result : (add "b" (Value.num Kind.int 1) (pos 9) 60 61 sample).result ≡ ok tt
unfolding add lookup
add_result = refl

decrement-increment_example :
    ((decrement_kind Kind.int8 "a" 100 6 (increment_kind Kind.int8 "a" 100 5 sample).state).result
      ≡ ok 200)
    × (view
          (decrement_kind Kind.int8 "a" 100 6
            (increment_kind Kind.int8 "a" 100 5 sample).state).state
          9
          "a"
        ≡ view sample 9 "a")
unfolding expired
decrement-increment_example =
    decrement-increment Kind.int8 "a" "a" 100 5 6 9 200 (entry 200 0) sample sample-Counts
      (omega arith) refl

sample-IsDistinct : IsDistinct sample.member
unfolding lookup
sample-IsDistinct = (refl, (refl, tt))

lookup-delete_expire_example : lookup "b" (delete_expire 60 sample).state.member ≡ none
unfolding lookup expired
lookup-delete_expire_example = lookup-delete_expire 60 "b" sample sample-IsDistinct

found_a : lookup "a" (iterator (λ _. 60) sample).result ≡ some (entry 200 0)
unfolding iterator lookup
found_a = refl

iterator_sound_example :
    (lookup "a" sample.member ≡ some (entry 200 0)) × (expired 60 (entry 200 0) ≡ false)
iterator_sound_example =
    iterator_sound (λ _. 60) 60 "a" sample (entry 200 0) (omega arith) sample-IsDistinct found_a

iterator_complete_example : lookup "a" (iterator (λ _. 60) sample).result ≡ some (entry 200 0)
unfolding lookup expired
iterator_complete_example =
    iterator_complete (λ _. 60) 60 "a" sample (entry 200 0) (omega arith) refl refl

-- A gob that writes maps of at most one entry.
encode_small : Map (Iterator plain) → Encoded (Map (Iterator plain))
encode_small [] = wrote []
encode_small (e ∷ []) = wrote (e ∷ [])
encode_small (e ∷ f ∷ m) = refused

reads_back_small :
    (m b : Map (Iterator plain))
    → encode_small m ≡ wrote b
    → (n : Map (Iterator plain)) × (some b ≡ some n)
      × IsDistinct n
      × ((k : String) (it : Iterator plain)
          → lookup k m ≡ some it
          → lookup k n ≡ some (record it { val = it.val }))
unfolding encode_small lookup
reads_back_small [] b e = ([], cc, tt, λ k it h. h)
reads_back_small (x ∷ []) b e = (x ∷ [], cc, (refl, tt), λ k it h. h)
reads_back_small (x ∷ y ∷ m) b e = cc

abbrev small_gob : Gob plain
small_gob = record {
  Bytes = Map (Iterator plain);
  encode = encode_small;
  decode = λ b. some b;
  carry = λ v. v;
  reads_back = reads_back_small;
}

abbrev single : Cache plain
single = record sample { member = ("c", entry 3 90) ∷ [] }

abbrev loaded : Cache plain
loaded = record sample { member = ("a", entry 200 0) ∷ ("b", entry 7 50) ∷ ("c", entry 3 90) ∷ [] }

load_result : load small_gob (λ _. 60) single.member sample ≡ some loaded
unfolding load lookup put
load_result = refl
