-- ===== src/Rolling/Ring.antt =====
-- The ring of buckets as a list from the oldest to the newest, and one turn of it.
use mathlib.Core.List.{append_assoc, append-nil}
use gkit.Prelude.{
  ℕ, zero, suc, ◌+◌, ◌≤◌, ◌<◌, ◌≡◌, refl, sym, ap, ◌∙◌, true, false, List, [], ◌∷◌, ◌++◌, length,
  length-append, take, drop, replicate, ◌==◌, if◌then◌else◌, arith, Bool-cases, inl, inr,
}
use gkit.Rolling.{Bucket, empty, modify, reset_bucket, reset_loop}

module _ {V : Type 0} where
  -- The newest bucket stands at the offset.
  abbrev pub ordered : List (Bucket V) × ℕ → List (Bucket V)
  ordered (w, o) = drop (suc o) w ++ take (suc o) w

  -- The next bucket of the ring, cleared, becomes the newest.
  unfoldable pub turn : ℕ → List (Bucket V) × ℕ → List (Bucket V) × ℕ
  turn size (w, o) = let next = if suc o == size then 0 else suc o in (reset_bucket w next, next)

  unfoldable pub turns : ℕ → ℕ → List (Bucket V) × ℕ → List (Bucket V) × ℕ
  turns zero size s = s
  turns (suc n) size s = turns n size (turn size s)

  pub length-modify :
      (w : List (Bucket V)) (i : ℕ) (f : Bucket V → Bucket V) → length (modify w i f) ≡ length w
  unfolding modify
  length-modify [] i f = refl
  length-modify (b ∷ w) zero f = refl
  length-modify (b ∷ w) (suc i) f = ap suc (length-modify w i f)

  -- A bucket in the middle of the list.
  pub take-modify :
      (w : List (Bucket V)) (i : ℕ) (f : Bucket V → Bucket V) → take i (modify w i f) ≡ take i w
  unfolding modify
  take-modify [] zero f = refl
  take-modify [] (suc i) f = refl
  take-modify (b ∷ w) zero f = refl
  take-modify (b ∷ w) (suc i) f = ap (◌∷◌ b) (take-modify w i f)

  pub drop-modify :
      (w : List (Bucket V)) (i : ℕ) (f : Bucket V → Bucket V)
      → drop (suc i) (modify w i f) ≡ drop (suc i) w
  unfolding modify
  drop-modify [] i f = refl
  drop-modify (b ∷ w) zero f = refl
  drop-modify (b ∷ w) (suc i) f = drop-modify w i f

  pub take-suc-reset :
      (w : List (Bucket V)) (i : ℕ)
      → i < length w
      → take (suc i) (reset_bucket w i) ≡ take i w ++ empty ∷ []
  unfolding reset_bucket
  take-suc-reset [] i h = absurd (omega arith)
  take-suc-reset (b ∷ w) zero h = refl
  take-suc-reset (b ∷ w) (suc i) h = ap (◌∷◌ b) (take-suc-reset w i (omega arith))

  drop-suc-reset : (w : List (Bucket V)) (i : ℕ) → drop (suc i) (reset_bucket w i) ≡ drop (suc i) w
  unfolding reset_bucket
  drop-suc-reset w i = drop-modify w i (λ _. empty)

  pub drop_all : (w : List (Bucket V)) (n : ℕ) → length w ≤ n → drop n w ≡ []
  drop_all [] zero h = refl
  drop_all [] (suc n) h = refl
  drop_all (b ∷ w) zero h = absurd (omega arith)
  drop_all (b ∷ w) (suc n) h = drop_all w n (omega arith)

  pub take_all : (w : List (Bucket V)) (n : ℕ) → length w ≤ n → take n w ≡ w
  take_all [] zero h = refl
  take_all [] (suc n) h = refl
  take_all (b ∷ w) zero h = absurd (omega arith)
  take_all (b ∷ w) (suc n) h = ap (◌∷◌ b) (take_all w n (omega arith))

  drop_one-append :
      (w : List (Bucket V)) (i : ℕ) (xs : List (Bucket V))
      → i < length w
      → drop 1 (drop i w ++ xs) ≡ drop (suc i) w ++ xs
  drop_one-append [] i xs h = absurd (omega arith)
  drop_one-append (b ∷ w) zero xs h = refl
  drop_one-append (b ∷ w) (suc i) xs h = drop_one-append w i xs (omega arith)

  -- One turn drops the oldest bucket and adds an empty one as the newest.
  pub ordered-turn :
      (size : ℕ) (w : List (Bucket V)) (o : ℕ)
      → length w ≡ size
      → o < size
      → ordered (turn size (w, o)) ≡ drop 1 (ordered (w, o)) ++ empty ∷ []
  unfolding turn
  ordered-turn size w o e h = elim (Bool-cases (suc o == size)) [
    | inl last ↦
        let all = drop_all w (suc o) (ground arith) in
        let whole = take_all w (suc o) (ground arith) in
        rw last (rw (drop-suc-reset w 0, take-suc-reset w 0 (ground arith), all, whole) refl)
    | inr inner ↦
        let inside : suc o < length w = ground arith in
        rw inner (
          rw
            (
              drop-suc-reset w (suc o),
              take-suc-reset w (suc o) inside,
              drop_one-append w (suc o) (take (suc o) w) inside,
            )
            (sym (append_assoc (drop (suc (suc o)) w) (take (suc o) w) (empty ∷ []))))
  ]

  length-turn : (size : ℕ) (w : List (Bucket V)) (o : ℕ) → length (turn size (w, o)).0 ≡ length w
  unfolding turn reset_bucket
  length-turn size w o = length-modify w _ (λ _. empty)

  turn-lt : (size : ℕ) (w : List (Bucket V)) (o : ℕ) → o < size → (turn size (w, o)).1 < size
  unfolding turn
  turn-lt size w o h = ground arith

  -- What `n` turns make of the buckets in their order.
  abbrev pub shift : ℕ → List (Bucket V) → List (Bucket V)
  shift zero bs = bs
  shift (suc n) bs = shift n (drop 1 bs ++ empty ∷ [])

  pub turns_lem :
      (n size : ℕ) (w : List (Bucket V)) (o : ℕ)
      → length w ≡ size
      → o < size
      → (ordered (turns n size (w, o)) ≡ shift n (ordered (w, o)))
        × (length (turns n size (w, o)).0 ≡ size)
        × ((turns n size (w, o)).1 < size)
  unfolding turns
  turns_lem zero size w o e h = (refl, e, h)
  turns_lem (suc n) size w o e h =
      let (w', o') = turn size (w, o) in
      let (same, len, low) =
        turns_lem n size w' o' (length-turn size w o ∙ e) (turn-lt size w o h) in
      (same ∙ ap (shift n) (ordered-turn size w o e h), len, low)

  -- The first loop of `add` turns the ring while there is room above the offset.
  pub reset_loop-turns :
      (n size : ℕ) (w : List (Bucket V)) (o : ℕ)
      → o + n < size
      → reset_loop n (suc o) (w, o) ≡ turns n size (w, o)
  unfolding reset_loop turns turn
  reset_loop-turns zero size w o h = refl
  reset_loop-turns (suc n) size w o h =
      let room : (suc o == size) ≡ false = ground arith in
      rw (reset_loop-turns n size (reset_bucket w (suc o)) (suc o) (omega arith), room)

  -- The second goes on from the start.
  pub reset_loop-wrap :
      (n size : ℕ) (w : List (Bucket V)) (o : ℕ)
      → suc o ≡ size
      → n ≤ size
      → reset_loop n 0 (w, o) ≡ turns n size (w, o)
  unfolding reset_loop turns turn
  reset_loop-wrap zero size w o h k = refl
  reset_loop-wrap (suc n) size w o h k =
      let full : (suc o == size) ≡ true = ground arith in
      rw (full, reset_loop-turns n size (reset_bucket w 0) 0 (omega arith))

  pub drop_some :
      (n : ℕ) (bs xs : List (Bucket V)) → n ≤ length bs → drop n (bs ++ xs) ≡ drop n bs ++ xs
  drop_some zero bs xs h = refl
  drop_some (suc n) [] xs h = absurd (omega arith)
  drop_some (suc n) (b ∷ bs) xs h = drop_some n bs xs (omega arith)

  drop_nil : (n : ℕ) → drop {A = Bucket V} n [] ≡ []
  drop_nil zero = refl
  drop_nil (suc n) = refl

  pub drop-drop : (m n : ℕ) (bs : List (Bucket V)) → drop m (drop n bs) ≡ drop (n + m) bs
  drop-drop m zero bs = let e : m ≡ zero + m = omega arith in ap (λ k. drop k bs) e
  drop-drop m (suc n) [] = drop_nil m ∙ sym (drop_nil (suc n + m))
  drop-drop m (suc n) (b ∷ bs) =
      let more : suc (n + m) ≡ suc n + m = omega arith in
      drop-drop m n bs ∙ ap (λ k. drop k (b ∷ bs)) more

  pub shift-drop :
      (n : ℕ) (bs : List (Bucket V)) → n ≤ length bs → shift n bs ≡ drop n bs ++ replicate n empty
  shift-drop zero bs h = sym (append-nil bs)
  shift-drop (suc n) [] h = absurd (omega arith)
  shift-drop (suc n) (b ∷ bs) h =
      let room : n ≤ length bs = omega arith in
      let long : n ≤ length (bs ++ empty ∷ []) =
        omega (arith, length-append bs (empty {V = V} ∷ [])) in
      shift-drop n (bs ++ empty ∷ []) long
      ∙ ap (λ xs. xs ++ replicate n empty) (drop_some n bs (empty ∷ []) room)
      ∙ append_assoc (drop n bs) (empty ∷ []) (replicate n empty)
