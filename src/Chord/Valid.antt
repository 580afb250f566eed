-- ===== src/Chord/Valid.antt =====
-- The invariant of a chord's delivery: what the callback's state says of the members' receipts.
use gkit.Prelude.{
  ℕ, zero, suc, ◌≡◌, refl, sym, ap, ◌∙◌, Bool, true, false, not, ◌||◌, Option, none, some, List, [],
  ◌∷◌, set, get_elem?, if◌then◌else◌, arith, Bool-cases, Option-cases, inl, inr,
}
use mathlib.Core.Option.{some-injective}
use gkit.Chord.Delivery.{
  MemberState, member_terminal, CallbackState, ready, leased, published, publish_unknown,
  suppressed, Coding, Receipt, Member, Delivery,
}
use gkit.Chord.Receipt.{is_failure, some_failed, all_succeeded, tally}

abbrev pub is_terminal : MemberState → Bool
is_terminal member_terminal = true
is_terminal _ = false

-- The states in which the callback may be published.
abbrev pub is_open : CallbackState → Bool
is_open ready = true
is_open leased = true
is_open published = true
is_open publish_unknown = true
is_open _ = false

abbrev pub is_suppressed : CallbackState → Bool
is_suppressed suppressed = true
is_suppressed _ = false

module _ {c : Coding} where
  abbrev pub receipts : List (Member c) → List (Option (Receipt c))
  receipts [] = []
  receipts (m ∷ ms) = m.receipt ∷ receipts ms

  -- Every member has reported success.
  abbrev pub all_in : List (Option (Receipt c)) → Bool
  all_in [] = true
  all_in (none ∷ rs) = false
  all_in (some r ∷ rs) = if is_failure r.outcome then false else all_in rs

  abbrev pub any_failed : List (Option (Receipt c)) → Bool
  any_failed [] = false
  any_failed (none ∷ rs) = any_failed rs
  any_failed (some r ∷ rs) = if is_failure r.outcome then true else any_failed rs

  abbrev pub is_some : Option (Receipt c) → Bool
  is_some none = false
  is_some (some r) = true

  -- A member is at its end exactly if it has a receipt.
  abbrev pub AreSealed : List (Member c) → Type 0
  AreSealed [] = Unit
  AreSealed (m ∷ ms) = (is_terminal m.state ≡ is_some m.receipt) × AreSealed ms

  pub record IsValidAt (ms : List (Member c)) (s : CallbackState) : Type 0 where
    pub sealed : AreSealed ms
    pub backed : (not (is_open s) || all_in (receipts ms)) ≡ true
    pub failed : (not (is_suppressed s) || any_failed (receipts ms)) ≡ true

  abbrev pub IsValid : Delivery c → Type 0
  IsValid d = IsValidAt d.members d.callback_state

  pub AreSealed-get :
      (ms : List (Member c)) (i : ℕ) (m : Member c)
      → AreSealed ms
      → get_elem? ms i ≡ some m
      → is_terminal m.state ≡ is_some m.receipt
  AreSealed-get [] i m h e = absurd (ground (arith, e))
  AreSealed-get (x ∷ ms) zero m h e = ground (arith, e, h.0)
  AreSealed-get (x ∷ ms) (suc i) m h e = AreSealed-get ms i m h.1 e

  pub AreSealed-set :
      (ms : List (Member c)) (i : ℕ) (m : Member c)
      → AreSealed ms
      → is_terminal m.state ≡ is_some m.receipt
      → AreSealed (set ms i m)
  AreSealed-set [] i m h k = tt
  AreSealed-set (x ∷ ms) zero m h k = (k, h.1)
  AreSealed-set (x ∷ ms) (suc i) m h k = (h.0, AreSealed-set ms i m h.1 k)

  pub receipts-set :
      (ms : List (Member c)) (i : ℕ) (m : Member c)
      → receipts (set ms i m) ≡ set (receipts ms) i m.receipt
  receipts-set [] i m = refl
  receipts-set (x ∷ ms) zero m = refl
  receipts-set (x ∷ ms) (suc i) m = ap (◌∷◌ x.receipt) (receipts-set ms i m)

  pub get_elem?-receipts :
      (ms : List (Member c)) (i : ℕ) (m : Member c)
      → get_elem? ms i ≡ some m
      → get_elem? (receipts ms) i ≡ some m.receipt
  get_elem?-receipts [] i m e = absurd (ground (arith, e))
  get_elem?-receipts (x ∷ ms) zero m e = ap (λ y. some y.receipt) (some-injective x m e)
  get_elem?-receipts (x ∷ ms) (suc i) m e = get_elem?-receipts ms i m e

  set_same :
      (rs : List (Option (Receipt c))) (i : ℕ) (r : Option (Receipt c))
      → get_elem? rs i ≡ some r
      → set rs i r ≡ rs
  set_same [] i r e = refl
  set_same (x ∷ rs) zero r e = ap (λ y. y ∷ rs) (sym (some-injective x r e))
  set_same (x ∷ rs) (suc i) r e = ap (◌∷◌ x) (set_same rs i r e)

  -- A change that keeps a member's receipt keeps the receipts.
  pub receipts_kept :
      (ms : List (Member c)) (i : ℕ) (m m' : Member c)
      → get_elem? ms i ≡ some m
      → m'.receipt ≡ m.receipt
      → receipts (set ms i m') ≡ receipts ms
  receipts_kept ms i m m' e k =
      receipts-set ms i m'
      ∙ ap (set (receipts ms) i) k
      ∙ set_same (receipts ms) i m.receipt (get_elem?-receipts ms i m e)

  pub all_in-none :
      (rs : List (Option (Receipt c))) (i : ℕ) → get_elem? rs i ≡ some none → all_in rs ≡ false
  all_in-none [] i e = absurd (ground (arith, e))
  all_in-none (none ∷ rs) i e = refl
  all_in-none (some r ∷ rs) zero e = absurd (ground (arith, some-injective (some r) none e))
  all_in-none (some r ∷ rs) (suc i) e = ground (arith, all_in-none rs i e)

  pub any_failed-set :
      (rs : List (Option (Receipt c))) (i : ℕ) (r : Receipt c) (old : Option (Receipt c))
      → get_elem? rs i ≡ some old
      → is_failure r.outcome ≡ true
      → any_failed (set rs i (some r)) ≡ true
  any_failed-set [] i r old e h = absurd (ground (arith, e))
  any_failed-set (x ∷ rs) zero r old e h = rw h refl
  any_failed-set (none ∷ rs) (suc i) r old e h = any_failed-set rs i r old e h
  any_failed-set (some x ∷ rs) (suc i) r old e h = ground (arith, any_failed-set rs i r old e h)

  pub any_failed_kept :
      (rs : List (Option (Receipt c))) (i : ℕ) (r : Option (Receipt c))
      → get_elem? rs i ≡ some none
      → any_failed rs ≡ true
      → any_failed (set rs i r) ≡ true
  any_failed_kept [] i r e h = h
  any_failed_kept (none ∷ rs) zero none e h = h
  any_failed_kept (none ∷ rs) zero (some r) e h = ground (arith, h)
  any_failed_kept (none ∷ rs) (suc i) r e h = any_failed_kept rs i r e h
  any_failed_kept (some x ∷ rs) zero r e h = absurd (ground (arith, some-injective (some x) none e))
  any_failed_kept (some x ∷ rs) (suc i) r e h = elim (Bool-cases (is_failure x.outcome)) [
    | inl bad ↦ rw bad refl
    | inr good ↦
        let rest : any_failed rs ≡ true = ground (arith, h, good) in
        rw good (any_failed_kept rs i r e rest)
  ]

  pub all_in-tally :
      (ms : List (Member c)) → tally c ms ≡ all_succeeded → all_in (receipts ms) ≡ true
  unfolding tally
  all_in-tally [] e = refl
  all_in-tally (m ∷ ms) e = elim (Option-cases m.receipt) [
    | inl missing ↦ absurd (ground (arith, e, missing))
    | inr (r, came) ↦ elim (Bool-cases (is_failure r.outcome)) [
      | inl bad ↦ absurd (ground (arith, e, came, bad))
      | inr good ↦
          let rest : tally c ms ≡ all_succeeded = ground (arith, e, came, good) in
          rw (came, good) (all_in-tally ms rest)
    ]
  ]

  pub any_failed-tally :
      (ms : List (Member c)) → tally c ms ≡ some_failed → any_failed (receipts ms) ≡ true
  unfolding tally
  any_failed-tally [] e = absurd (ground (arith, e))
  any_failed-tally (m ∷ ms) e = elim (Option-cases m.receipt) [
    | inl missing ↦ absurd (ground (arith, e, missing))
    | inr (r, came) ↦ elim (Bool-cases (is_failure r.outcome)) [
      | inl bad ↦ rw (came, bad) refl
      | inr good ↦
          let rest : tally c ms ≡ some_failed = ground (arith, e, came, good) in
          rw (came, good) (any_failed-tally ms rest)
    ]
  ]

  pub all_in_clean : (rs : List (Option (Receipt c))) → all_in rs ≡ true → any_failed rs ≡ false
  all_in_clean [] h = refl
  all_in_clean (none ∷ rs) h = absurd (ground (arith, h))
  all_in_clean (some r ∷ rs) h = elim (Bool-cases (is_failure r.outcome)) [
    | inl bad ↦ absurd (ground (arith, h, bad))
    | inr good ↦
        let rest : all_in rs ≡ true = ground (arith, h, good) in rw good (all_in_clean rs rest)
  ]
