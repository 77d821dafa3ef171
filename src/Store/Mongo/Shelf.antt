-- ===== src/Store/Mongo/Shelf.antt =====
-- A server for the runs of internal/store/mongo.go: a collection is a list of documents, its unique
-- keys and the next `_id`, and BSON keeps what it is given.
mod Tests
mod SessionTests
use mathlib.Core.List.{append-nil}
use iot_api.Common.{
  ℕ, suc, ◌+◌, ◌≡◌, refl, ap, ◌∙◌, inl, inr, Bool-cases, ◌↔◌, String, Bool, true, false, not, ◌||◌,
  ◌==◌, eq_iff, if◌then◌else◌, some, List, [], ◌∷◌, ◌++◌, map, length, All, All-append, filter_b,
  In-filter_b, arith,
}
use iot_api.Common.Sort.{
  sort_slice, sort_slice-IsSorted, count-sort_slice, In-sort_slice, IsWeakOrder,
}
use iot_api.GoTime.{Time}
use iot_api.Store.Mongo.Collections.{
  Reply, done, fails, failed, duplicate_key, Stored, Direction, ascending, descending, Driver,
}
use iot_api.Store.Mongo.Server.{
  clashes, DistinctBy, first_of, matched, update_first, delete_first, comes_before, limited, Server,
}

pub record Shelf (D : Type 0) : Type 0 where
  pub documents : List (Stored D)
  pub keys : List (D → String)
  pub next : ℕ

module _ {D : Type 0} where
  abbrev insert : D → Shelf D → Reply (Unit {0}) × Shelf D
  insert d c = if clashes c.keys d c.documents then (fails duplicate_key, c) else (
    done tt,
    record c {
      documents = c.documents ++ record { object_id = c.next; document = d } ∷ [];
      next = suc c.next;
    },
  )

  abbrev index : List (D → String) → Shelf D → List (Stored D) → Reply (Unit {0}) × Shelf D
  index keys c [] = (done tt, record c { keys = keys ++ c.keys })
  index keys c (x ∷ xs) = (fails failed, c)

abbrev is_done {ℓ} : {A : Type ℓ} → Reply A → Bool
is_done (done a) = true
is_done (fails e) = false

abbrev pub shelf_driver : Driver Shelf
shelf_driver = record {
  date_time = λ t. t;
  insert_one = insert;
  find_one = λ p c. first_of p c.documents;
  find = λ p time direction limit c. done (
      map some (limited limit (sort_slice (comes_before direction time) (filter_b p c.documents))));
  update_one = λ p g c.
      (done (matched p c.documents), record c { documents = update_first p g c.documents });
  delete_one =
      λ p c. (done (matched p c.documents), record c { documents = delete_first p c.documents });
  delete_many = λ p c. (
    done (length (filter_b p c.documents)),
    record c { documents = filter_b (λ x. not (p x)) c.documents },
  );
  count_documents = λ p c. done (length (filter_b p c.documents));
  create_unique_indexes = λ keys c. index keys c c.documents;
  create_index = λ fields c. (done tt, c);
}

module _ {D : Type 0} where
  comes_before-IsWeakOrder :
      (direction : Direction) (time : D → Time) → IsWeakOrder (comes_before direction time)
  comes_before-IsWeakOrder ascending time = record {
    asym = λ x y e. ground (arith, e);
    trans = λ x y z e f. ground (arith, e, f);
  }
  comes_before-IsWeakOrder descending time = record {
    asym = λ x y e. ground (arith, e);
    trans = λ x y z e f. ground (arith, e, f);
  }

  abbrev AllDistinct : List (D → String) → List (Stored D) → Type 0
  AllDistinct keys xs = All (λ key. DistinctBy key xs) keys

  -- No document has the key.
  abbrev Lacks : (D → String) → String → List (Stored D) → Type 0
  Lacks key k xs = All (λ y. (key y.document == k) ≡ false) xs

  Fresh-clashes :
      (key : D → String) (keys : List (D → String)) (d : D) (xs : List (Stored D))
      → clashes (key ∷ keys) d xs ≡ false
      → Lacks key (key d) xs × (clashes keys d xs ≡ false)
  Fresh-clashes key keys d [] e = (tt, refl)
  Fresh-clashes key keys d (x ∷ xs) e =
      let (f, rest) = Fresh-clashes key keys d xs (ground (arith, e)) in
      ((ground (arith, e), f), ground (arith, e, rest))

  append-DistinctBy :
      (key : D → String) (n : Stored D) (xs : List (Stored D))
      → Lacks key (key n.document) xs
      → DistinctBy key xs
      → DistinctBy key (xs ++ n ∷ [])
  append-DistinctBy key n [] f d = (tt, tt)
  append-DistinctBy key n (x ∷ xs) (f, fs) (d, ds) = (
    All-append _ xs (n ∷ []) d (
      ground (
        arith,
        f,
        eq_iff (key n.document) (key x.document),
        eq_iff (key x.document) (key n.document),
      ),
      tt,
    ),
    append-DistinctBy key n xs fs ds,
  )

  append-AllDistinct :
      (keys : List (D → String)) (n : Stored D) (xs : List (Stored D))
      → clashes keys n.document xs ≡ false
      → AllDistinct keys xs
      → AllDistinct keys (xs ++ n ∷ [])
  append-AllDistinct [] n xs e a = tt
  append-AllDistinct (key ∷ keys) n xs e (d, ds) =
      let (f, rest) = Fresh-clashes key keys n.document xs e in
      (append-DistinctBy key n xs f d, append-AllDistinct keys n xs rest ds)

  module _ (key : D → String) (p : Stored D → Bool) where
    update-Lacks :
        (k : String) (g : D → D) (xs : List (Stored D))
        → ((d : D) → key (g d) ≡ key d)
        → Lacks key k xs
        → Lacks key k (update_first p g xs)
    update-Lacks k g [] keeps l = tt
    update-Lacks k g (x ∷ xs) keeps (l, ls) = elim (Bool-cases (p x)) [
      | inl e ↦ rw e (rw (keeps x.document) l, ls)
      | inr e ↦ rw e (l, update-Lacks k g xs keeps ls)
    ]

    update-DistinctBy :
        (g : D → D) (xs : List (Stored D))
        → ((d : D) → key (g d) ≡ key d)
        → DistinctBy key xs
        → DistinctBy key (update_first p g xs)
    update-DistinctBy g [] keeps d = tt
    update-DistinctBy g (x ∷ xs) keeps (d, ds) = elim (Bool-cases (p x)) [
      | inl e ↦ rw e (rw (keeps x.document) d, ds)
      | inr e ↦ rw e (update-Lacks (key x.document) g xs keeps d, update-DistinctBy g xs keeps ds)
    ]

    delete-Lacks :
        (k : String) (xs : List (Stored D)) → Lacks key k xs → Lacks key k (delete_first p xs)
    delete-Lacks k [] l = tt
    delete-Lacks k (x ∷ xs) (l, ls) = elim (Bool-cases (p x)) [
      | inl e ↦ rw e ls
      | inr e ↦ rw e (l, delete-Lacks k xs ls)
    ]

    delete-DistinctBy :
        (xs : List (Stored D)) → DistinctBy key xs → DistinctBy key (delete_first p xs)
    delete-DistinctBy [] d = tt
    delete-DistinctBy (x ∷ xs) (d, ds) = elim (Bool-cases (p x)) [
      | inl e ↦ rw e ds
      | inr e ↦ rw e (delete-Lacks (key x.document) xs d, delete-DistinctBy xs ds)
    ]

  update-AllDistinct :
      (keys : List (D → String)) (p : Stored D → Bool) (g : D → D) (xs : List (Stored D))
      → All (λ key. (d : D) → key (g d) ≡ key d) keys
      → AllDistinct keys xs
      → AllDistinct keys (update_first p g xs)
  update-AllDistinct [] p g xs k a = tt
  update-AllDistinct (key ∷ keys) p g xs (k, ks) (a, rest) =
      (update-DistinctBy key p g xs k a, update-AllDistinct keys p g xs ks rest)

  delete-AllDistinct :
      (keys : List (D → String)) (p : Stored D → Bool) (xs : List (Stored D))
      → AllDistinct keys xs
      → AllDistinct keys (delete_first p xs)
  delete-AllDistinct [] p xs a = tt
  delete-AllDistinct (key ∷ keys) p xs (a, rest) =
      (delete-DistinctBy key p xs a, delete-AllDistinct keys p xs rest)

  All-refl : (keys : List (D → String)) (d : D) → All (λ key. key d ≡ key d) keys
  All-refl [] d = tt
  All-refl (key ∷ keys) d = (refl, All-refl keys d)

  empty-AllDistinct : (keys : List (D → String)) → AllDistinct keys []
  empty-AllDistinct [] = tt
  empty-AllDistinct (key ∷ keys) = (tt, empty-AllDistinct keys)

  index_lem :
      (keys : List (D → String)) (c : Shelf D) (xs : List (Stored D))
      → c.documents ≡ xs
      → c.keys ≡ []
      → (index keys c xs).0 ≡ done tt
      → ((index keys c xs).1.keys ≡ keys)
        × AllDistinct (index keys c xs).1.keys (index keys c xs).1.documents
  index_lem keys c [] e f h = (rw f (append-nil keys), rw e (empty-AllDistinct (keys ++ c.keys)))
  index_lem keys c (x ∷ xs) e f h = absurd (ground (arith, ap is_done h))

-- It keeps what is relied on.
pub shelf_server : Server shelf_driver
shelf_server = record {
  view = λ c. c.documents;
  unique_keys = λ c. c.keys;
  Intact = λ c. AllDistinct c.keys c.documents;
  bson = λ d. d;
  bson-key = λ c d. All-refl c.keys d;
  view-DistinctBy = λ c a. a;
  insert_taken = λ d c e. rw e (refl, refl);
  insert_free = λ d c e. rw e (refl, (c.next, refl));
  keys-insert = λ d c. elim (Bool-cases (clashes c.keys d c.documents)) [
    | inl e ↦ rw e refl
    | inr e ↦ rw e refl
  ];
  insert-Intact = λ d c a. elim (Bool-cases (clashes c.keys d c.documents)) [
    | inl e ↦ rw e a
    | inr e ↦ rw e (append-AllDistinct c.keys _ c.documents e a)
  ];
  found_one = λ p c. refl;
  updated_one = λ p g c k. (refl, refl);
  update-Intact = λ p g c k a. update-AllDistinct c.keys p g c.documents k a;
  keys-update = λ p g c. refl;
  deleted_one = λ p c. (refl, refl);
  delete-Intact = λ p c a. delete-AllDistinct c.keys p c.documents a;
  keys-delete = λ p c. refl;
  deleted_many = λ p c. refl;
  found_all = λ p time direction limit c.
      let less = comes_before direction time in
      let kept = filter_b p c.documents in
      (
        sort_slice less kept,
        refl,
        sort_slice-IsSorted less (comes_before-IsWeakOrder direction time) kept,
        λ x. (
          λ i. (In-filter_b p x c.documents).0 ((In-sort_slice less x kept).0 i),
          λ h. (In-sort_slice less x kept).1 ((In-filter_b p x c.documents).1 h),
        ),
        λ q. count-sort_slice less q kept,
      );
  counted = λ p c. refl;
  indexed_unique = λ keys c e h. index_lem keys c c.documents refl e h;
}
