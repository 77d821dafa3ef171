-- ===== src/Store/Mongo/Indexes.antt =====
-- The indexes that internal/store/mongo.go makes when it opens the store.
use mathlib.Core.Path.{subst}
use iot_api.Common.{
  ◌≡◌, refl, ap, ◌∙◌, ◌⊎◌, inl, inr, String, Bool, true, false, List, [], ◌∷◌, ok, ok-injective,
  arith,
}
use iot_api.Common.Int.{pos, ltb_ℤ}
use iot_api.Store.Mongo.{MongoStore, MongoConfig, with_defaults, ensure_indexes, new_mongo_store}
use iot_api.Store.Mongo.Collections.{Reply, done, fails, DriverError, Driver}
use iot_api.Store.Mongo.Documents.{UserDoc}
use iot_api.Store.Mongo.Server.{Server}
use iot_api.Store.Mongo.Lifecycle.{IsIndexed}

Reply-cases : (r : Reply (Unit {0})) → (r ≡ done tt) ⊎ ((e : DriverError) × (r ≡ fails e))
Reply-cases (done tt) = inl refl
Reply-cases (fails e) = inr (e, refl)

abbrev is_done : Reply (Unit {0}) → Bool
is_done (done _) = true
is_done (fails e) = false

module _ {Col : Type 0 → Type 0} (driver : Driver Col) (server : Server driver) where
  -- The collections that have unique indexes have none yet.
  abbrev pub IsFresh : MongoStore Col → Type 0
  IsFresh s =
      (server.unique_keys s.devices ≡ [])
      × (server.unique_keys s.users ≡ [])
      × (server.unique_keys s.refresh ≡ [])

  abbrev username_keys : List (UserDoc → String)
  username_keys = (λ u. u.id) ∷ (λ u. u.username) ∷ []

  -- The unique indexes that the operations rely on.
  abbrev pub HasIndexes : MongoStore Col → Type 0
  HasIndexes s =
      IsIndexed driver server s.devices
      × (server.unique_keys s.users ≡ ((λ u. u.id) ∷ (λ u. u.username) ∷ []))
      × (server.unique_keys s.refresh ≡ ((λ t. t.token_hash) ∷ []))

  ensure_indexes-HasIndexes :
      (s : MongoStore Col)
      → IsFresh s
      → (ensure_indexes driver s).0 ≡ done tt
      → HasIndexes (ensure_indexes driver s).1
        × ((ensure_indexes driver s).1.max_history ≡ s.max_history)
        × ((ensure_indexes driver s).1.timeout ≡ s.timeout)
  unfolding ensure_indexes
  ensure_indexes-HasIndexes s (fd, fu, fr) =
      elim (Reply-cases (driver.create_unique_indexes ((λ d. d.id) ∷ []) s.devices).0) [
        | inr (e, p) ↦ rw p (λ h. absurd (ground (arith, ap is_done h)))
        | inl p ↦
            rw p
              (elim (Reply-cases
                (driver.create_index ("device_id" ∷ "timestamp" ∷ []) s.telemetry).0) [
                  | inr (e, q) ↦ rw q (λ h. absurd (ground (arith, ap is_done h)))
                  | inl q ↦
                      rw q
                        (elim (Reply-cases
                          (driver.create_index ("device_id" ∷ "created_at" ∷ []) s.alerts).0) [
                            | inr (e, r) ↦ rw r (λ h. absurd (ground (arith, ap is_done h)))
                            | inl r ↦
                                rw r
                                  (elim (Reply-cases
                                    (driver.create_unique_indexes
                                      ((λ u. u.id) ∷ (λ u. u.username) ∷ []) s.users).0) [
                                        | inr (e, u) ↦
                                            rw u (λ h. absurd (ground (arith, ap is_done h)))
                                        | inl u ↦ rw u (λ h.
                                            let (kd, id) = server.indexed_unique _ s.devices fd p in
                                            (
                                              (
                                                (id, kd),
                                                (server.indexed_unique _ s.users fu u).0,
                                                (server.indexed_unique _ s.refresh fr h).0,
                                              ),
                                              refl,
                                              refl,
                                            ))
                                      ])
                          ])
                ])
      ]

  -- On a server that answers as MongoDB does, and a database whose collections have no unique index
  -- yet, a store that was opened has its unique indexes: on the identifiers of devices, on the
  -- identifiers and the names of users, and on the hashes of refresh tokens. Its history is bounded
  -- as configured, and its timeout is positive.
  pub new_mongo_store-HasIndexes :
      (connect : String → Reply (Unit {0})) (collections : String → MongoConfig → MongoStore Col)
      (config : MongoConfig) (s : MongoStore Col)
      → ((name : String) (cfg : MongoConfig) → IsFresh (collections name cfg))
      → new_mongo_store driver connect collections config ≡ ok s
      → HasIndexes s × (s.max_history ≡ config.max_history) × (ltb_ℤ (pos 0) s.timeout ≡ true)
  unfolding new_mongo_store with_defaults
  new_mongo_store-HasIndexes connect collections config s fresh =
      let cfg = with_defaults config in
      let s0 : MongoStore Col = record (collections cfg.database cfg) {
        max_history = cfg.max_history;
        timeout = cfg.timeout;
      } in
      elim (Reply-cases (connect config.uri)) [
        | inr (e, p) ↦ rw (p, new_mongo_store) (λ h. absurd (ground arith))
        | inl p ↦
            rw (p, new_mongo_store)
              (elim (Reply-cases (ensure_indexes driver s0).0) [
                | inr (e, q) ↦ rw q (λ h. absurd (ground arith))
                | inl q ↦ rw q (λ h.
                    let (has, history, limit) =
                      ensure_indexes-HasIndexes s0 (fresh cfg.database cfg) q in
                    let positive : ltb_ℤ (pos 0) cfg.timeout ≡ true = ground arith in
                    subst
                      (λ x.
                        HasIndexes x
                        × (x.max_history ≡ config.max_history)
                        × (ltb_ℤ (pos 0) x.timeout ≡ true))
                      (ok-injective _ _ h) (has, history, ap (ltb_ℤ (pos 0)) limit ∙ positive))
              ])
      ]
