-- ===== src/Store/Mongo/History.antt =====
-- The bound that `trimHistory` of internal/store/mongo.go keeps.

use iot_api.Common.{ℕ, String, Bool, not, List, length, filter_b}
use iot_api.Models.{Telemetry}
use iot_api.Store.Mongo.Collections.{Stored, Driver, matching}
use iot_api.Store.Mongo.Documents.{TelemetryDoc}
use iot_api.Store.Mongo.Telemetry.{sample_of, has_object_id}
use iot_api.Store.Mongo.Server.{Server}

module _ {D : Type 0} where
  -- The test of a document that is not deleted.
  abbrev spared : List ℕ → Stored D → Bool
  spared ids x = not (has_object_id ids x)

module _ {Col : Type 0 → Type 0} (driver : Driver Col) (server : Server driver) (id : String) where
  abbrev of_device : Stored TelemetryDoc → Bool
  of_device = matching (sample_of id)

  -- The samples of the device that the collection holds.
  abbrev pub held : Col TelemetryDoc → ℕ
  held c = length (filter_b of_device (server.view c))
