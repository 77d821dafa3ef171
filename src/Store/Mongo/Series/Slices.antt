-- ===== src/Store/Mongo/Series/Slices.antt =====
-- Slices that `GetTelemetry` of internal/store/mongo.go takes and reverses.
use mathlib.Core.Path.{subst}
use mathlib.Core.List.{reverse, reverse-cons}
use iot_api.Common.{
  filter_b, filter_b-append, ℕ, zero, suc, ◌≤◌, ◌≡◌, refl, ap, sym, ◌∙◌, ◌↔◌, inl, inr, Bool, false,
  List, [], ◌∷◌, ◌++◌, take, drop, length, length-append, All-append, All-In, In, In-All, In-append,
  In-append_left, In-append_right, arith,
}
use iot_api.Common.Sort.{IsSorted}

module _ {A : Type 0} where
  pub length-take : (n : ℕ) (xs : List A) → length (take n xs) ≤ n
  length-take zero xs = omega arith
  length-take (suc n) [] = omega arith
  length-take (suc n) (x ∷ xs) = omega (arith, length-take n xs)

  -- Where something is left behind, what is taken is full.
  pub length-take_full : (a : A) (n : ℕ) (xs : List A) → In a (drop n xs) → length (take n xs) ≡ n
  length-take_full a zero xs i = refl
  length-take_full a (suc n) [] i = absurd i
  length-take_full a (suc n) (x ∷ xs) i = omega (arith, length-take_full a n xs i)

  pub length-reverse : (xs : List A) → length (reverse xs) ≡ length xs
  length-reverse [] = refl
  length-reverse (x ∷ xs) =
      ap length (reverse-cons x xs)
      ∙ omega (arith, length-append (reverse xs) (x ∷ []), length-reverse xs)

  pub In-reverse : (a : A) (xs : List A) → In a (reverse xs) ↔ In a xs
  In-reverse a [] = (λ i. i, λ i. i)
  In-reverse a (x ∷ xs) =
      let ih = In-reverse a xs in
      rw (reverse-cons x xs) (
        λ i. elim (In-append a (reverse xs) (x ∷ []) i) [
          | inl j ↦ inr (ih.0 j)
          | inr (inl e) ↦ inl e
          | inr (inr e) ↦ absurd e
        ],
        λ i. elim i [
          | inl e ↦ In-append_right a (reverse xs) (x ∷ []) (inl e)
          | inr j ↦ In-append_left a (reverse xs) (x ∷ []) (ih.1 j)
        ],
      )

  pub count-take :
      (q : A → Bool) (n : ℕ) (xs : List A)
      → length (filter_b q (take n xs)) ≤ length (filter_b q xs)
  count-take q zero xs = omega arith
  count-take q (suc n) [] = omega arith
  count-take q (suc n) (x ∷ xs) = ground (arith, count-take q n xs)

  pub count-filter_b :
      (q p : A → Bool) (xs : List A) → length (filter_b q (filter_b p xs)) ≤ length (filter_b q xs)
  count-filter_b q p [] = omega arith
  count-filter_b q p (x ∷ xs) = ground (arith, count-filter_b q p xs)

  pub count-reverse :
      (q : A → Bool) (xs : List A) → length (filter_b q (reverse xs)) ≡ length (filter_b q xs)
  count-reverse q [] = refl
  count-reverse q (x ∷ xs) =
      let tail = filter_b q (reverse xs) in
      ap (λ ys. length (filter_b q ys)) (reverse-cons x xs)
      ∙ ap length (filter_b-append q (reverse xs) (x ∷ []))
      ∙ ground (arith, length-append tail (x ∷ []), length-append tail [], count-reverse q xs)

  pub IsSorted-append :
      (less : A → A → Bool) (xs ys : List A)
      → IsSorted less xs
      → IsSorted less ys
      → ((x y : A) → In x xs → In y ys → less y x ≡ false)
      → IsSorted less (xs ++ ys)
  IsSorted-append less [] ys s t f = t
  IsSorted-append less (x ∷ xs) ys (s, ss) t f = (
    All-append _ xs ys s (All-In _ ys (λ y i. f x y (inl refl) i)),
    IsSorted-append less xs ys ss t (λ a b i j. f a b (inr i) j),
  )

  -- What stands before is not less than what stands behind.
  pub append-IsSorted :
      (less : A → A → Bool) (xs ys : List A)
      → IsSorted less (xs ++ ys)
      → IsSorted less xs × ((x y : A) → In x xs → In y ys → less y x ≡ false)
  append-IsSorted less [] ys s = (tt, λ x y i j. absurd i)
  append-IsSorted less (z ∷ xs) ys (s, ss) =
      let (t, f) = append-IsSorted less xs ys ss in
      (
        (All-In _ xs (λ x i. In-All _ x (xs ++ ys) s (In-append_left x xs ys i)), t),
        λ x y i j. elim i [
          | inl e ↦
              subst (λ v. less y v ≡ false) (sym e)
                (In-All _ y (xs ++ ys) s (In-append_right y xs ys j))
          | inr k ↦ f x y k j
        ],
      )

  pub reverse-IsSorted :
      (less : A → A → Bool) (xs : List A)
      → IsSorted less xs
      → IsSorted (λ x y. less y x) (reverse xs)
  reverse-IsSorted less [] s = tt
  reverse-IsSorted less (x ∷ xs) (s, ss) = rw (reverse-cons x xs) (
      IsSorted-append (λ a b. less b a) (reverse xs) (x ∷ []) (reverse-IsSorted less xs ss) (tt, tt)
        (λ a b i j. elim j [
          | inl e ↦ subst (λ v. less a v ≡ false) (sym e) (In-All _ a xs s ((In-reverse a xs).0 i))
          | inr v ↦ absurd v
        ]))
