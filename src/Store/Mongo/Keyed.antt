-- ===== src/Store/Mongo/Keyed.antt =====
-- The collections of internal/store/mongo.go and mongo_users.go that have one unique key, on a
-- server that answers every call.
use mathlib.Core.Path.{subst}
use iot_api.Common.{
  ◌≡◌, refl, ap, sym, ◌∙◌, String, Bool, true, false, ◌==◌, eq_iff, if◌then◌else◌, List, [], ◌∷◌,
  ◌++◌, All, Bool-cases, ◌⊎◌, inl, inr, Result, ok, err, Error, not_found, arith,
}
use iot_api.Store.Mongo.Collections.{Stored, Driver, decode_one, result_or, count_result, matching}
use iot_api.Store.Mongo.Server.{
  clashes, DistinctBy, first_of, matched, update_first, delete_first, Server,
}

-- The documents by a unique key.
module _ {D : Type 0} (key : D → String) where
  abbrev pub has_key : String → Stored D → Bool
  has_key j = matching (λ d. key d == j)

  abbrev pub found : String → List (Stored D) → Result D
  found j xs = decode_one (first_of (has_key j) xs)

  abbrev pub or_else : Result D → D → Result D
  or_else (ok c) d = ok c
  or_else (err _) d = ok d

  abbrev pub map_ok : (D → D) → Result D → Result D
  map_ok f (ok d) = ok (f d)
  map_ok f (err e) = err e

  abbrev pub is_ok : Result D → Bool
  is_ok (ok d) = true
  is_ok (err e) = false

  pub found-cases :
      (j : String) (xs : List (Stored D))
      → ((d : D) × (found j xs ≡ ok d)) ⊎ (found j xs ≡ err not_found)
  found-cases j [] = inr refl
  found-cases j (x ∷ xs) = elim (Bool-cases (key x.document == j)) [
    | inl e ↦ inl (x.document, rw e refl)
    | inr e ↦ rw e (found-cases j xs)
  ]

  found-append :
      (j : String) (x : Stored D) (xs : List (Stored D))
      → found j (xs ++ x ∷ [])
        ≡ (if key x.document == j then or_else (found j xs) x.document else found j xs)
  found-append j x [] = ground arith
  found-append j x (y ∷ ys) = ground (arith, found-append j x ys)

  clashes-found :
      (d : D) (xs : List (Stored D)) → clashes (key ∷ []) d xs ≡ is_ok (found (key d) xs)
  clashes-found d [] = refl
  clashes-found d (x ∷ xs) = ground (arith, clashes-found d xs)

  matched-found :
      (j : String) (xs : List (Stored D))
      → matched (has_key j) xs ≡ (if is_ok (found j xs) then 1 else 0)
  matched-found j [] = refl
  matched-found j (x ∷ xs) = ground (arith, matched-found j xs)

  found-update :
      (i j : String) (g : D → D) (xs : List (Stored D))
      → ((d : D) → key (g d) ≡ key d)
      → found j (update_first (has_key i) g xs)
        ≡ (if i == j then map_ok g (found j xs) else found j xs)
  found-update i j g [] keeps = ground arith
  found-update i j g (x ∷ xs) keeps = ground (
    arith,
    found-update i j g xs keeps,
    keeps x.document,
    eq_iff i j,
    eq_iff (key x.document) i,
    eq_iff (key x.document) j,
  )

  pub absent_lem :
      (j : String) (d : D) (xs : List (Stored D))
      → All (λ y. (key y.document == key d) ≡ false) xs
      → (key d == j) ≡ true
      → found j xs ≡ err not_found
  absent_lem j d [] a e = refl
  absent_lem j d (x ∷ xs) (a, rest) e = ground (
    arith,
    absent_lem j d xs rest e,
    eq_iff (key x.document) (key d),
    eq_iff (key d) j,
    eq_iff (key x.document) j,
  )

  found-delete :
      (i j : String) (xs : List (Stored D))
      → DistinctBy key xs
      → found j (delete_first (has_key i) xs) ≡ (if i == j then err not_found else found j xs)
  found-delete i j [] d = ground arith
  found-delete i j (x ∷ xs) (apart, d) = ground (
    arith,
    found-delete i j xs d,
    absent_lem j x.document xs apart,
    eq_iff i j,
    eq_iff (key x.document) i,
    eq_iff (key x.document) j,
  )

module _ {Col : Type 0 → Type 0} (driver : Driver Col) (server : Server driver) {D : Type 0}
    (key : D → String) (c : Col D) (keyed : server.unique_keys c ≡ key ∷ []) where
  pub found_lem :
      (j : String) → decode_one (driver.find_one (has_key key j) c) ≡ found key j (server.view c)
  found_lem j = ap decode_one (server.found_one (has_key key j) c)

  bson_key : (d : D) → key (server.bson d) ≡ key d
  bson_key d = (subst (All (λ k. k (server.bson d) ≡ k d)) keyed (server.bson-key c d)).0

  clash :
      (d : D)
      → clashes (server.unique_keys c) d (server.view c)
        ≡ is_ok key (found key (key d) (server.view c))
  clash d = ap (λ ks. clashes ks d (server.view c)) keyed ∙ clashes-found key d (server.view c)

  -- What an insertion answers, and what is found under each key after it.
  pub insert_lem :
      (taken : Error) (d : D)
      → let r = driver.insert_one d c in
        (result_or taken r.0
          ≡ (if is_ok key (found key (key d) (server.view c)) then err taken else ok tt))
        × ((j : String)
            → found key j (server.view r.1) ≡ (
                if key d == j
                then or_else key (found key j (server.view c)) (server.bson d)
                else found key j (server.view c)))
  insert_lem taken d = elim (Bool-cases (is_ok key (found key (key d) (server.view c)))) [
    | inl e ↦
        let (refused, same) = server.insert_taken d c (clash d ∙ e) in
        (rw (refused, e) refl, λ j. rw same (ground (arith, e, eq_iff (key d) j)))
    | inr e ↦
        let (added, (oid, seen)) = server.insert_free d c (clash d ∙ e) in
        (
          rw (added, e) refl,
          λ j. rw seen (found-append key j _ (server.view c) ∙ rw (bson_key d) refl),
        )
  ]

  pub kept_keys :
      (g : D → D)
      → ((d : D) → key (g d) ≡ key d)
      → All (λ k. (d : D) → k (g d) ≡ k d) (server.unique_keys c)
  kept_keys g keeps = subst (All (λ k. (d : D) → k (g d) ≡ k d)) (sym keyed) (keeps, tt)

  -- The same of a `$set` that leaves the key.
  pub update_lem :
      (i : String) (g : D → D)
      → ((d : D) → key (g d) ≡ key d)
      → let r = driver.update_one (has_key key i) g c in
        (count_result r.0
          ≡ (if is_ok key (found key i (server.view c)) then ok tt else err not_found))
        × ((j : String)
            → found key j (server.view r.1) ≡ (
                if i == j
                then map_ok key (λ d. server.bson (g d)) (found key j (server.view c))
                else found key j (server.view c)))
  update_lem i g keeps =
      let (count, changed) = server.updated_one (has_key key i) g c (kept_keys g keeps) in
      (
        rw count (rw (matched-found key i (server.view c)) (ground arith)),
        λ j. rw changed (
            found-update key i j (λ d. server.bson (g d)) (server.view c)
              (λ d. bson_key (g d) ∙ keeps d)),
      )

  -- And of a deletion.
  pub delete_lem :
      (i : String)
      → server.Intact c
      → let r = driver.delete_one (has_key key i) c in
        (count_result r.0
          ≡ (if is_ok key (found key i (server.view c)) then ok tt else err not_found))
        × ((j : String)
            → found key j (server.view r.1)
              ≡ (if i == j then err not_found else found key j (server.view c)))
  delete_lem i intact =
      let (count, gone) = server.deleted_one (has_key key i) c in
      let apart =
        (subst (All (λ k. DistinctBy k (server.view c))) keyed
          (server.view-DistinctBy c intact)).0 in
      (
        rw count (rw (matched-found key i (server.view c)) (ground arith)),
        λ j. rw gone (found-delete key i j (server.view c) apart),
      )
