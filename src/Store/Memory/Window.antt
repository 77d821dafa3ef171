-- ===== src/Store/Memory/Window.antt =====
-- `newest`, the window at the end of a slice, in `AddTelemetry` and `GetTelemetry` of
-- internal/store/store.go.
use mathlib.Core.Path.{◌≡⟨◌⟩◌, ◌∎}
use iot_api.Common.{
  ◌&&◌, All, All-drop, ltb, Bool-cases, inl, inr, sym, ◌∙◌, ℕ, zero, suc, ◌+◌, ◌-◌, ◌≤◌, ◌≡◌, refl,
  ap, List, [], ◌∷◌, ◌++◌, arith, length, drop, take, take-append-drop, leb, ◌⊎◌, length-append,
  length-drop,
}
use iot_api.Common.Int.{ℤ, pos, negsuc}
use iot_api.Store.Memory.{newest}

-- What a positive limit promises; any other limit promises nothing.
abbrev pub Within {ℓ} : {A : Type ℓ} → ℤ → List A → Type 0
Within (negsuc n) xs = Unit
Within (pos zero) xs = Unit
Within (pos (suc n)) xs = length xs ≤ suc n

-- What a limit leaves of a list: the end of it, as long as a positive limit allows, and all of it
-- under any other limit.
abbrev pub Latest {ℓ} : {A : Type ℓ} → ℤ → List A → List A → Type ℓ
Latest (negsuc n) xs ys = ys ≡ xs
Latest (pos zero) xs ys = ys ≡ xs
Latest {A = A} (pos (suc n)) xs ys =
    (older : List A) × (xs ≡ older ++ ys) × ((length ys ≡ suc n) ⊎ ((length ys ≤ n) × (older ≡ [])))

pub Within-nil {ℓ} : (A : Type ℓ) (n : ℤ) → Within {A = A} n []
Within-nil A (negsuc n) = tt
Within-nil A (pos zero) = tt
Within-nil A (pos (suc n)) = omega arith

module _ {ℓ} {A : Type ℓ} where
  drop-all : (n : ℕ) (xs : List A) → length xs ≤ n → drop n xs ≡ []
  drop-all zero [] h = refl
  drop-all zero (x ∷ xs) h = absurd (omega arith)
  drop-all (suc n) [] h = refl
  drop-all (suc n) (x ∷ xs) h = drop-all n xs (omega arith)

  drop-append : (n : ℕ) (xs ys : List A) → n ≤ length xs → drop n (xs ++ ys) ≡ drop n xs ++ ys
  drop-append zero xs ys h = refl
  drop-append (suc n) [] ys h = absurd (omega arith)
  drop-append (suc n) (x ∷ xs) ys h = drop-append n xs ys (omega arith)

  drop-nil : (n : ℕ) → drop {A = A} n [] ≡ []
  drop-nil zero = refl
  drop-nil (suc n) = refl

  drop-drop : (m n : ℕ) (xs : List A) → drop m (drop n xs) ≡ drop (n + m) xs
  drop-drop m zero xs = ap (λ k. drop k xs) (omega arith)
  drop-drop m (suc n) [] = drop-nil m ∙ sym (drop-nil (suc n + m))
  drop-drop m (suc n) (x ∷ xs) =
      drop-drop m n xs
      ∙ ap (λ k. drop k (x ∷ xs)) (let e : suc (n + m) ≡ suc n + m = omega arith in e)

  pub newest-Within : (n : ℤ) (xs : List A) → Within n (newest n xs)
  unfolding newest
  newest-Within (negsuc n) xs = tt
  newest-Within (pos zero) xs = tt
  newest-Within (pos (suc n)) xs = ground (arith, length-drop (length xs - suc n) xs)

  pub newest_of_Within : (n : ℤ) (xs : List A) → Within n xs → newest n xs ≡ xs
  unfolding newest
  newest_of_Within (negsuc n) xs h = refl
  newest_of_Within (pos zero) xs h = ground arith
  newest_of_Within (pos (suc n)) xs h = ground arith

  newest-drop : (n : ℕ) (xs : List A) → newest (pos (suc n)) xs ≡ drop (length xs - suc n) xs
  unfolding newest
  newest-drop n xs = elim (Bool-cases (ltb (suc n) (length xs))) [
    | inl e ↦ ground arith
    | inr e ↦ let k : length xs - suc n ≡ 0 = ground arith in rw (k, newest) (ground arith)
  ]

  newest-take : (n : ℕ) (xs : List A) → xs ≡ take (length xs - suc n) xs ++ newest (pos (suc n)) xs
  newest-take n xs =
      sym (take-append-drop (length xs - suc n) xs)
      ∙ ap (λ ys. take (length xs - suc n) xs ++ ys) (sym (newest-drop n xs))

  pub newest-Latest : (n : ℤ) (xs : List A) → Latest n xs (newest n xs)
  unfolding newest
  newest-Latest (negsuc n) xs = refl
  newest-Latest (pos zero) xs = ground arith
  newest-Latest (pos (suc n)) xs = (
    take (length xs - suc n) xs,
    newest-take n xs,
    elim (Bool-cases (leb (length xs) n)) [
      | inl e ↦
          let k : length xs - suc n ≡ 0 = ground arith in inr (ground arith, ap (λ m. take m xs) k)
      | inr e ↦ inl (ground (arith, length-drop (length xs - suc n) xs))
    ],
  )

  slides :
      (n : ℕ) (xs ys : List A)
      → let over = length xs - suc n in
        over + (length (drop over (xs ++ ys)) - suc n) ≡ length (xs ++ ys) - suc n
  slides n xs ys = omega (arith, length-drop (length xs - suc n) (xs ++ ys), length-append xs ys)

  pub newest-All {κ} : (P : A → Type κ) (n : ℤ) (xs : List A) → All P xs → All P (newest n xs)
  unfolding newest
  newest-All P (negsuc n) xs h = h
  newest-All P (pos n) xs h = elim (Bool-cases (ltb 0 n && ltb n (length xs))) [
    | inl e ↦ rw e (All-drop P (length xs - n) xs h)
    | inr e ↦ rw e h
  ]

  -- A window slides: what it has dropped would not have come back.
  pub newest-append : (n : ℤ) (xs ys : List A) → newest n (newest n xs ++ ys) ≡ newest n (xs ++ ys)
  unfolding newest
  newest-append (negsuc n) xs ys = refl
  newest-append (pos zero) xs ys = ground arith
  newest-append (pos (suc n)) xs ys =
      let over = length xs - suc n in
      newest (pos (suc n)) (newest (pos (suc n)) xs ++ ys)
      ≡⟨ ap (λ zs. newest (pos (suc n)) (zs ++ ys)) (newest-drop n xs) ⟩
        newest (pos (suc n)) (drop over xs ++ ys)
      ≡⟨ ap (newest (pos (suc n))) (sym (drop-append over xs ys (omega arith))) ⟩
        newest (pos (suc n)) (drop over (xs ++ ys))
      ≡⟨ newest-drop n (drop over (xs ++ ys)) ⟩
        drop (length (drop over (xs ++ ys)) - suc n) (drop over (xs ++ ys))
      ≡⟨ drop-drop _ over (xs ++ ys) ⟩
        drop (over + (length (drop over (xs ++ ys)) - suc n)) (xs ++ ys)
      ≡⟨ ap (λ k. drop k (xs ++ ys)) (slides n xs ys) ⟩ drop (length (xs ++ ys) - suc n) (xs ++ ys)
      ≡⟨ sym (newest-drop n (xs ++ ys)) ⟩ newest (pos (suc n)) (xs ++ ys) ∎
