-- ===== src/Common/Sort.antt =====
-- `sort.Slice`: the library sorts by a `less` test and leaves the order of ties open. The model
-- inserts one element after another; what is used of it is that the result is a permutation of
-- the slice and that no element is less than one before it.
use mathlib.Core.List.{Perm}
use mathlib.Core.List.Perm
use iot_api.Common.{
  ◌≡◌, refl, ◌∙◌, length, filter_b, Bool, true, false, List, [], ◌∷◌, if◌then◌else◌, Bool-cases,
  ◌⊎◌, ◌↔◌, In, arith, All, inl, inr,
}

module _ {ℓ} {A : Type ℓ} (less : A → A → Bool) where
  -- Puts `x` before the first element that it is less than.
  unfoldable pub insert_sorted : A → List A → List A
  insert_sorted x [] = x ∷ []
  insert_sorted x (y ∷ ys) = if less x y then x ∷ y ∷ ys else y ∷ insert_sorted x ys

  unfoldable pub sort_slice : List A → List A
  unfolding insert_sorted
  sort_slice [] = []
  sort_slice (x ∷ xs) = insert_sorted x (sort_slice xs)

  -- No element is less than one before it.
  abbrev pub IsSorted : List A → Type 0
  IsSorted [] = Unit
  IsSorted (x ∷ xs) = All (λ y. less y x ≡ false) xs × IsSorted xs

  insert_sorted-perm : (x : A) (xs : List A) → Perm (insert_sorted x xs) (x ∷ xs)
  unfolding insert_sorted
  insert_sorted-perm x [] = Perm.refl (x ∷ [])
  insert_sorted-perm x (y ∷ ys) = elim (Bool-cases (less x y)) [
    | inl e ↦ rw e (Perm.refl (x ∷ y ∷ ys))
    | inr e ↦ rw e (Perm.trans (Perm.cons y (insert_sorted-perm x ys)) (Perm.swap x y ys))
  ]

  pub sort_slice-perm : (xs : List A) → Perm (sort_slice xs) xs
  unfolding sort_slice
  sort_slice-perm [] = Perm.refl []
  sort_slice-perm (x ∷ xs) =
      Perm.trans (insert_sorted-perm x (sort_slice xs)) (Perm.cons x (sort_slice-perm xs))

  -- `less` is a strict weak order, as `sort.Slice` asks of its argument.
  pub record IsWeakOrder : Type ℓ where
    pub asym : (x y : A) → less x y ≡ true → less y x ≡ false
    pub trans : (x y z : A) → less y x ≡ false → less z y ≡ false → less z x ≡ false

  module _ (order : IsWeakOrder) where
    All-trans :
        (x y : A) (ys : List A)
        → less y x ≡ false
        → All (λ z. less z y ≡ false) ys
        → All (λ z. less z x ≡ false) ys
    All-trans x y [] h a = tt
    All-trans x y (z ∷ zs) h a = (order.trans x y z h a.0, All-trans x y zs h a.1)

    All-insert_sorted :
        (w x : A) (ys : List A)
        → less x w ≡ false
        → All (λ z. less z w ≡ false) ys
        → All (λ z. less z w ≡ false) (insert_sorted x ys)
    unfolding insert_sorted
    All-insert_sorted w x [] h a = (h, tt)
    All-insert_sorted w x (y ∷ ys) h a = elim (Bool-cases (less x y)) [
      | inl e ↦ rw e (h, a)
      | inr e ↦ rw e (a.0, All-insert_sorted w x ys h a.1)
    ]

    insert_sorted-IsSorted : (x : A) (ys : List A) → IsSorted ys → IsSorted (insert_sorted x ys)
    unfolding insert_sorted
    insert_sorted-IsSorted x [] h = (tt, tt)
    insert_sorted-IsSorted x (y ∷ ys) h = elim (Bool-cases (less x y)) [
      | inl e ↦ let below = order.asym x y e in rw e ((below, All-trans x y ys below h.0), h)
      | inr e ↦ rw e (All-insert_sorted y x ys e h.0, insert_sorted-IsSorted x ys h.1)
    ]

    pub sort_slice-IsSorted : (xs : List A) → IsSorted (sort_slice xs)
    unfolding sort_slice
    sort_slice-IsSorted [] = tt
    sort_slice-IsSorted (x ∷ xs) = insert_sorted-IsSorted x (sort_slice xs) (sort_slice-IsSorted xs)

module _ {A : Type 0} (less : A → A → Bool) where
  In-insert_sorted : (a x : A) (xs : List A) → In a (insert_sorted less x xs) ↔ ((a ≡ x) ⊎ In a xs)
  unfolding insert_sorted
  In-insert_sorted a x [] = (λ i. i, λ i. i)
  In-insert_sorted a x (y ∷ ys) = elim (Bool-cases (less x y)) [
    | inl e ↦ rw e (λ i. i, λ i. i)
    | inr e ↦
        rw e (
          let ih = In-insert_sorted a x ys in
          (λ i. ground (arith, ih.0), λ i. ground (arith, ih.1)))
  ]

  -- Sorting keeps the elements.
  pub In-sort_slice : (a : A) (xs : List A) → In a (sort_slice less xs) ↔ In a xs
  unfolding sort_slice
  In-sort_slice a [] = (λ i. i, λ i. i)
  In-sort_slice a (x ∷ xs) =
      let ih = In-sort_slice a xs in
      let step = In-insert_sorted a x (sort_slice less xs) in
      (
        λ i. elim (step.0 i) [ inl e ↦ inl e | inr j ↦ inr (ih.0 j) ],
        λ i. step.1 (elim i [ inl e ↦ inl e | inr j ↦ inr (ih.1 j) ]),
      )

  count-insert_sorted :
      (q : A → Bool) (x : A) (xs : List A)
      → length (filter_b q (insert_sorted less x xs)) ≡ length (filter_b q (x ∷ xs))
  unfolding insert_sorted
  count-insert_sorted q x [] = refl
  count-insert_sorted q x (y ∷ ys) = ground (arith, count-insert_sorted q x ys)

  -- Sorting keeps how many elements pass a test.
  pub count-sort_slice :
      (q : A → Bool) (xs : List A)
      → length (filter_b q (sort_slice less xs)) ≡ length (filter_b q xs)
  unfolding sort_slice
  count-sort_slice q [] = refl
  count-sort_slice q (x ∷ xs) =
      count-insert_sorted q x (sort_slice less xs) ∙ ground (arith, count-sort_slice q xs)
