-- ===== src/Store/Mongo/Server.antt =====
-- What internal/store/mongo.go relies on of a MongoDB server that answers every call.
use iot_api.Common.{
  ℕ, zero, suc, ◌≡◌, String, Bool, true, false, not, ◌||◌, ◌==◌, if◌then◌else◌, Option, some, List,
  [], ◌∷◌, ◌++◌, map, take, ltb, In, ◌↔◌, All, filter_b, length,
}
use iot_api.Common.Sort.{IsSorted}
use iot_api.GoTime.{Time}
use iot_api.Store.Mongo.Collections.{
  Reply, done, fails, no_documents, duplicate_key, Stored, Direction, ascending, descending, Driver,
}

-- The new document has a key of a stored one.
abbrev pub shares_key : {D : Type 0} → List (D → String) → D → D → Bool
shares_key [] d e = false
shares_key (key ∷ keys) d e = key e == key d || shares_key keys d e

abbrev pub clashes : {D : Type 0} → List (D → String) → D → List (Stored D) → Bool
clashes keys d [] = false
clashes keys d (x ∷ xs) = shares_key keys d x.document || clashes keys d xs

-- No two documents have one key.
abbrev pub DistinctBy : {D : Type 0} → (D → String) → List (Stored D) → Type 0
DistinctBy key [] = Unit
DistinctBy key (x ∷ xs) =
    All (λ y. (key y.document == key x.document) ≡ false) xs × DistinctBy key xs

-- The first document that matches, in the order of the collection.
abbrev pub first_of : {D : Type 0} → (Stored D → Bool) → List (Stored D) → Reply (Option D)
first_of p [] = fails no_documents
first_of p (x ∷ xs) = if p x then done (some x.document) else first_of p xs

-- One, where a document matches.
abbrev pub matched : {D : Type 0} → (Stored D → Bool) → List (Stored D) → ℕ
matched p [] = 0
matched p (x ∷ xs) = if p x then 1 else matched p xs

abbrev pub update_first :
    {D : Type 0} → (Stored D → Bool) → (D → D) → List (Stored D) → List (Stored D)
update_first p g [] = []
update_first p g (x ∷ xs) =
    let rest = update_first p g xs in
    if p x then record x { document = g x.document } ∷ xs else x ∷ rest

abbrev pub delete_first : {D : Type 0} → (Stored D → Bool) → List (Stored D) → List (Stored D)
delete_first p [] = []
delete_first p (x ∷ xs) = let rest = delete_first p xs in if p x then xs else x ∷ rest

-- `less` of the two directions of a sort by a time.
abbrev pub comes_before : {D : Type 0} → Direction → (D → Time) → Stored D → Stored D → Bool
comes_before ascending time x y = ltb (time x.document) (time y.document)
comes_before descending time x y = ltb (time y.document) (time x.document)

-- A limit of zero is none.
abbrev pub limited : {A : Type 0} → ℕ → List A → List A
limited zero xs = xs
limited (suc n) xs = take (suc n) xs

-- A collection that is intact holds documents under distinct unique keys. `bson` is what is stored
-- of a document: it keeps the unique keys, which are strings, and rounds times.
pub record Server {Col : Type 0 → Type 0} (driver : Driver Col) : Type 1 where
  pub view : {D : Type 0} → Col D → List (Stored D)
  pub unique_keys : {D : Type 0} → Col D → List (D → String)
  pub Intact : {D : Type 0} → Col D → Type 0
  pub bson : {D : Type 0} → D → D
  pub bson-key :
      {D : Type 0} (c : Col D) (d : D) → All (λ key. key (bson d) ≡ key d) (unique_keys c)
  pub view-DistinctBy :
      {D : Type 0} (c : Col D) → Intact c → All (λ key. DistinctBy key (view c)) (unique_keys c)
  pub insert_taken :
      {D : Type 0} (d : D) (c : Col D)
      → clashes (unique_keys c) d (view c) ≡ true
      → ((driver.insert_one d c).0 ≡ fails duplicate_key)
        × (view (driver.insert_one d c).1 ≡ view c)
  pub insert_free :
      {D : Type 0} (d : D) (c : Col D)
      → clashes (unique_keys c) d (view c) ≡ false
      → ((driver.insert_one d c).0 ≡ done tt)
        × ((object_id : ℕ) × (view (driver.insert_one d c).1
              ≡ view c ++ record { object_id = object_id; document = bson d } ∷ []))
  pub keys-insert :
      {D : Type 0} (d : D) (c : Col D) → unique_keys (driver.insert_one d c).1 ≡ unique_keys c
  pub insert-Intact : {D : Type 0} (d : D) (c : Col D) → Intact c → Intact (driver.insert_one d c).1
  pub found_one :
      {D : Type 0} (p : Stored D → Bool) (c : Col D) → driver.find_one p c ≡ first_of p (view c)
  -- An update that changes no unique key.
  pub updated_one :
      {D : Type 0} (p : Stored D → Bool) (g : D → D) (c : Col D)
      → All (λ key. (d : D) → key (g d) ≡ key d) (unique_keys c)
      → ((driver.update_one p g c).0 ≡ done (matched p (view c)))
        × (view (driver.update_one p g c).1 ≡ update_first p (λ d. bson (g d)) (view c))
  pub update-Intact :
      {D : Type 0} (p : Stored D → Bool) (g : D → D) (c : Col D)
      → All (λ key. (d : D) → key (g d) ≡ key d) (unique_keys c)
      → Intact c
      → Intact (driver.update_one p g c).1
  pub keys-update :
      {D : Type 0} (p : Stored D → Bool) (g : D → D) (c : Col D)
      → unique_keys (driver.update_one p g c).1 ≡ unique_keys c
  pub deleted_one :
      {D : Type 0} (p : Stored D → Bool) (c : Col D)
      → ((driver.delete_one p c).0 ≡ done (matched p (view c)))
        × (view (driver.delete_one p c).1 ≡ delete_first p (view c))
  pub delete-Intact :
      {D : Type 0} (p : Stored D → Bool) (c : Col D) → Intact c → Intact (driver.delete_one p c).1
  pub keys-delete :
      {D : Type 0} (p : Stored D → Bool) (c : Col D)
      → unique_keys (driver.delete_one p c).1 ≡ unique_keys c
  pub deleted_many :
      {D : Type 0} (p : Stored D → Bool) (c : Col D)
      → view (driver.delete_many p c).1 ≡ filter_b (λ x. not (p x)) (view c)
  -- The documents that match, sorted, each once, and no more than the limit of them.
  pub found_all :
      {D : Type 0} (p : Stored D → Bool) (time : D → Time) (direction : Direction) (limit : ℕ)
      (c : Col D)
      → (all : List (Stored D)) × (driver.find p time direction limit c
          ≡ done (map some (limited limit all)))
        × IsSorted (comes_before direction time) all
        × ((x : Stored D) → In x all ↔ (In x (view c) × (p x ≡ true)))
        × ((q : Stored D → Bool)
            → length (filter_b q all) ≡ length (filter_b q (filter_b p (view c))))
  pub counted :
      {D : Type 0} (p : Stored D → Bool) (c : Col D)
      → driver.count_documents p c ≡ done (length (filter_b p (view c)))
  -- The first unique indexes of a collection.
  pub indexed_unique :
      {D : Type 0} (keys : List (D → String)) (c : Col D)
      → unique_keys c ≡ []
      → (driver.create_unique_indexes keys c).0 ≡ done tt
      → (unique_keys (driver.create_unique_indexes keys c).1 ≡ keys)
        × Intact (driver.create_unique_indexes keys c).1
