-- ===== src/Store/Mongo/Collections.antt =====
-- The driver of MongoDB, as far as internal/store/mongo.go and mongo_users.go use it. It is a
-- parameter: a collection of documents is a state of its own, and each call gives an answer of the
-- server. A filter is a test of stored documents, a `$set` a change of a document.
use iot_api.Common.{
  ℕ, zero, suc, String, Bool, Option, none, some, List, [], ◌∷◌, Result, ok, err, Error, not_found,
  external,
}
use iot_api.GoTime.{Time}

pub data DriverError : Type 0 where
  -- `mongo.ErrNoDocuments`, and the errors that `mongo.IsDuplicateKeyError` knows.
  no_documents duplicate_key : DriverError
  failed : DriverError

pub data Reply {ℓ} (A : Type ℓ) : Type ℓ where
  done : A → Reply A
  fails : DriverError → Reply A

-- A document under its `_id`.
pub record Stored (D : Type 0) : Type 0 where
  pub object_id : ℕ
  pub document : D

pub data Direction : Type 0 where
  ascending descending : Direction

-- `none` stands for a document that cannot be decoded. A limit of zero is no limit. All sorting is
-- by a time.
pub record Driver (Col : Type 0 → Type 0) : Type 1 where
  -- What BSON keeps of a time.
  pub date_time : Time → Time
  pub insert_one : {D : Type 0} → D → Col D → Reply (Unit {0}) × Col D
  pub find_one : {D : Type 0} → (Stored D → Bool) → Col D → Reply (Option D)
  pub find :
      {D : Type 0}
      → (Stored D → Bool)
      → (D → Time)
      → Direction
      → ℕ
      → Col D
      → Reply (List (Option (Stored D)))
  -- The number of documents that matched, or that were deleted.
  pub update_one : {D : Type 0} → (Stored D → Bool) → (D → D) → Col D → Reply ℕ × Col D
  pub delete_one : {D : Type 0} → (Stored D → Bool) → Col D → Reply ℕ × Col D
  pub delete_many : {D : Type 0} → (Stored D → Bool) → Col D → Reply ℕ × Col D
  pub count_documents : {D : Type 0} → (Stored D → Bool) → Col D → Reply ℕ
  pub create_unique_indexes : {D : Type 0} → List (D → String) → Col D → Reply (Unit {0}) × Col D
  pub create_index : {D : Type 0} → List String → Col D → Reply (Unit {0}) × Col D

-- An error that is returned as it is.
abbrev pub error_of : DriverError → Error
error_of e = external

abbrev pub result_of : Reply (Unit {0}) → Result (Unit {0})
result_of (done _) = ok tt
result_of (fails e) = err (error_of e)

-- `if mongo.IsDuplicateKeyError(err) { return taken }; return err`.
abbrev pub result_or : Error → Reply (Unit {0}) → Result (Unit {0})
result_or taken (done _) = ok tt
result_or taken (fails duplicate_key) = err taken
result_or taken (fails no_documents) = err (error_of no_documents)
result_or taken (fails failed) = err (error_of failed)

-- The error of a call, then `ErrNotFound` for the count zero.
abbrev pub count_result : Reply ℕ → Result (Unit {0})
count_result (done zero) = err not_found
count_result (done (suc n)) = ok tt
count_result (fails e) = err (error_of e)

-- `FindOne(…).Decode(&doc)`, with `ErrNotFound` for no document.
abbrev pub decode_one : {D : Type 0} → Reply (Option D) → Result D
decode_one (done (some d)) = ok d
decode_one (done none) = err external
decode_one (fails no_documents) = err not_found
decode_one (fails duplicate_key) = err (error_of duplicate_key)
decode_one (fails failed) = err (error_of failed)

-- `FindOne(…).Err()`, which does not decode.
abbrev pub find_result : {D : Type 0} → Reply (Option D) → Result (Unit {0})
find_result (done _) = ok tt
find_result (fails no_documents) = err not_found
find_result (fails duplicate_key) = err (error_of duplicate_key)
find_result (fails failed) = err (error_of failed)

-- `for cur.Next(ctx) { if err := cur.Decode(&doc); err != nil { continue }; … }`.
abbrev pub decode_all : {D : Type 0} → List (Option (Stored D)) → List (Stored D)
decode_all [] = []
decode_all (none ∷ rest) = decode_all rest
decode_all (some d ∷ rest) = d ∷ decode_all rest

-- An error of `Find` gives no documents.
abbrev pub decoded_or_nil : {D : Type 0} → Reply (List (Option (Stored D))) → List (Stored D)
decoded_or_nil (done items) = decode_all items
decoded_or_nil (fails e) = []

-- `bson.M{}`, and a filter on the document itself.
abbrev pub everything : {D : Type 0} → Stored D → Bool
everything x = Bool.true

abbrev pub matching : {D : Type 0} → (D → Bool) → Stored D → Bool
matching p x = p x.document
