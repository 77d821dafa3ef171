-- ===== src/Mqtt/Topics.antt =====
-- Which messages `onMessage` of internal/mqtt/mqtt.go forwards, and for which device.
use Prim.Native.Char.{Char, code}
use Prim.Native.String
use Prim.Native.String.append
use iot_api.Common.{
  String, ◌≡◌, ◌≢◌, refl, ap, ◌∙◌, Bool, true, false, ◌&&◌, not, List, [], ◌∷◌, nat_eq, arith, ◌==◌,
  All, Bool-cases, inl, inr, eq_refl, eq_iff, Result, ok,
}
use iot_api.GoTime.{Time}
use iot_api.GoStrings.{split, put_first}
use iot_api.Mqtt.{
  Ingestor, Bridge, Payload, slash, middle_part, device_id_from_topic, telemetry_of, on_message,
}

-- The text has no `/`.
abbrev pub is_level : String → Bool
is_level String.[] = true
is_level (String.◌∷◌ c s) = not (nat_eq (code c) slash) && is_level s

-- `<prefix>/<id>/telemetry`.
abbrev pub topic_of : String → String → String
topic_of prefix id =
    String.◌++◌ prefix (String.◌∷◌ "/" (String.◌++◌ id (String.◌∷◌ "/" "telemetry")))

split-append :
    (a s : String)
    → is_level a ≡ true
    → split slash (String.◌++◌ a (String.◌∷◌ "/" s)) ≡ a ∷ split slash s
unfolding split
split-append String.[] s h = rw (append.nil (String.◌∷◌ "/" s)) refl
split-append (String.◌∷◌ c a) s h =
    let apart : nat_eq (code c) slash ≡ false = ground arith in
    rw (append.cons c a (String.◌∷◌ "/" s), split-append a s (ground arith), apart) refl

split_level : (a : String) → is_level a ≡ true → split slash a ≡ a ∷ []
unfolding split
split_level String.[] h = refl
split_level (String.◌∷◌ c a) h =
    let apart : nat_eq (code c) slash ≡ false = ground arith in
    rw (split_level a (ground arith), apart) refl

-- The topic that a device publishes on names this device, if neither the prefix nor the identifier
-- contains a `/`.
device_id_from_topic_lem :
    (prefix id : String)
    → is_level prefix ≡ true
    → is_level id ≡ true
    → device_id_from_topic (topic_of prefix id) prefix ≡ id
unfolding device_id_from_topic
device_id_from_topic_lem prefix id h k =
    let levels : split slash (topic_of prefix id) ≡ prefix ∷ id ∷ "telemetry" ∷ [] =
      split-append prefix (String.◌++◌ id (String.◌∷◌ "/" "telemetry")) h
      ∙ ap (◌∷◌ prefix)
          (split-append id "telemetry" k ∙ ap (◌∷◌ id) (split_level "telemetry" refl)) in
    rw (levels, eq_refl prefix) refl

put_first-level :
    (c : Char) (parts : List String)
    → nat_eq (code c) slash ≡ false
    → All (λ x. is_level x ≡ true) parts
    → All (λ x. is_level x ≡ true) (put_first c parts)
put_first-level c [] apart h = (rw apart refl, tt)
put_first-level c (x ∷ parts) apart h = (rw apart h.0, h.1)

split-level : (s : String) → All (λ x. is_level x ≡ true) (split slash s)
unfolding split
split-level String.[] = (refl, tt)
split-level (String.◌∷◌ c s) = elim (Bool-cases (nat_eq (code c) slash)) [
  | inl e ↦ rw e (refl, split-level s)
  | inr e ↦ rw e (put_first-level c (split slash s) e (split-level s))
]

middle_part-level :
    (prefix : String) (parts : List String)
    → All (λ x. is_level x ≡ true) parts
    → is_level prefix ≡ false
    → middle_part prefix parts ≡ ""
middle_part-level prefix [] h k = refl
middle_part-level prefix (a ∷ []) h k = refl
middle_part-level prefix (a ∷ b ∷ []) h k = refl
middle_part-level prefix (a ∷ b ∷ c ∷ []) h k =
    ground (arith, h.0, k, eq_iff a prefix, λ (e : a ≡ prefix). ap is_level e)
middle_part-level prefix (a ∷ b ∷ c ∷ d ∷ parts) h k = refl

-- Under a prefix of several levels, such as `site/devices`, no topic at all names a device.
pub device_id_from_topic-level :
    (prefix topic : String) → is_level prefix ≡ false → device_id_from_topic topic prefix ≡ ""
unfolding device_id_from_topic
device_id_from_topic-level prefix topic h =
    middle_part-level prefix (split slash topic) (split-level topic) h

module _ {I : Type 0} (ingestor : Ingestor I) (unmarshal : String → Result Payload) where
  -- A message on a device's topic is ingested once, as a sample of this device with the payload's
  -- metrics, at the payload's time or else the time of arrival, if its payload can be decoded. Prefix
  -- and identifier contain no `/`, and the identifier is not empty.
  on_message_lem :
      (b : Bridge) (now : Time) (id payload : String) (p : Payload) (s : I)
      → is_level b.prefix ≡ true
      → is_level id ≡ true
      → id ≢ ""
      → unmarshal payload ≡ ok p
      → on_message ingestor unmarshal b now (topic_of b.prefix id) payload s
        ≡ (ingestor.ingest_telemetry (telemetry_of id now p) s).1
  unfolding on_message
  on_message_lem b now id payload p s h k n e =
      let named : (id == "") ≡ false = ground (arith, eq_iff id "") in
      rw (device_id_from_topic_lem b.prefix id h k, named, e) refl
