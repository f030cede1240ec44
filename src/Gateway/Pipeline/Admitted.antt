-- ===== src/Gateway/Pipeline/Admitted.antt =====
-- What is known of a message that was admitted.
use mathlib.Core.Path.{subst}
use railsentinel.Prelude.{
  ℕ, ◌≤◌, ◌≡◌, refl, inl, inr, String, Option, none, some, Bool, true, arith, eq_iff, Bool-cases,
  get_elem?, ltb,
}
use railsentinel.Prelude.Int.{ℤ}
use railsentinel.Prelude.Map
use railsentinel.Prelude.Text.{split}
use railsentinel.Contracts.Types.{Message}
use railsentinel.Contracts.Topics.{TopicParts, parse_topic}
use railsentinel.Contracts.Replay.{check}
use railsentinel.Contracts.Platform.{Platform}
use railsentinel.Contracts.Validate.{validate_message}
use railsentinel.Gateway.Registry.{DeviceRecord, by_src, active}
use railsentinel.Gateway.Pipeline.{
  RejectStage, AdmissionPipeline, accepted, authorization, authentication, freshness, first_refusal,
  refuse_or, admit_counted, admit_device, admit_message, admit_parsed, admit, next_rate,
  check_input, names_source, is_revoked,
}
use railsentinel.Gateway.Pipeline.Gates.{
  IsAuthorized, IsSigned, authorization-IsAuthorized, authentication-IsSigned,
}

module _ (platform : Platform) where
  open platform use {Bytes, Json, byte_length, parse_json, as_message, date_parse}

  -- What has been checked of a message from the counter on, with the device of its source
  pub record IsChecked (p : AdmissionPipeline) (device : DeviceRecord) (msg : Message Json)
      (now : ℤ) : Type 0 where
    pub in_rate : (next_rate (Map.get p.rates msg.env.src) now).count ≤ p.rate_limit
    pub authorized : IsAuthorized platform device msg
    pub signed : p.require_signature ≡ true → IsSigned platform p.registry msg
    pub fresh : (check date_parse p.replay_guard (check_input platform msg) now).0.accept ≡ true

  -- All that has been checked of an admitted message
  pub record IsAdmitted (p : AdmissionPipeline) (topic : String) (payload : Bytes)
      (msg : Message Json) (now : ℤ) : Type 0 where
    pub fits : byte_length payload ≤ p.max_bytes
    pub parsed : Json
    pub parses : parse_json payload ≡ some parsed
    pub valid : validate_message platform parsed ≡ true
    pub is_message : as_message parsed ≡ msg
    pub parts : TopicParts
    pub topic_parses : parse_topic topic ≡ some parts
    pub bound : get_elem? (split b':' msg.env.src) 2 ≡ some parts.src_id
    pub device : DeviceRecord
    pub enrolled : by_src p.registry msg.env.src ≡ some device
    pub in_service : device.status ≡ active
    pub checked : IsChecked p device msg now

  freshness-accept :
      (p : AdmissionPipeline) (topic : String) (m : Message Json) (now : ℤ) {msg : Message Json}
      {t : String} {gaps : ℕ} {rebooted : Bool}
      → (freshness platform p topic m now).0 ≡ accepted msg t gaps rebooted
      → (m ≡ msg) × ((check date_parse p.replay_guard (check_input platform m) now).0.accept ≡ true)
  unfolding freshness
  freshness-accept p topic m now h = ground arith

  refuse_or-accept :
      (a b : Option RejectStage) (p : AdmissionPipeline) (topic : String) (m : Message Json)
      (now : ℤ) {msg : Message Json} {t : String} {gaps : ℕ} {rebooted : Bool}
      → (refuse_or platform (first_refusal platform a b) p topic m now).0
        ≡ accepted msg t gaps rebooted
      → (a ≡ none)
        × (b ≡ none)
        × (m ≡ msg)
        × ((check date_parse p.replay_guard (check_input platform m) now).0.accept ≡ true)
  refuse_or-accept none none p topic m now h =
      let (e, f) = freshness-accept p topic m now h in (refl, refl, e, f)
  refuse_or-accept none (some b) p topic m now h = absurd (ground arith)
  refuse_or-accept (some a) b p topic m now h = absurd (ground arith)

  admit_counted-IsChecked :
      (p : AdmissionPipeline) (device : DeviceRecord) (topic : String) (m : Message Json) (now : ℤ)
      {msg : Message Json} {t : String} {gaps : ℕ} {rebooted : Bool}
      → (admit_counted platform p device topic m now).0 ≡ accepted msg t gaps rebooted
      → (m ≡ msg) × IsChecked p device m now
  unfolding admit_counted
  admit_counted-IsChecked p device topic m now h =
      elim (Bool-cases (ltb p.rate_limit (next_rate (Map.get p.rates m.env.src) now).count)) [
        | inl over ↦ absurd (ground arith)
        | inr within ↦
            let (a, b, e, f) =
              refuse_or-accept (authorization platform device m)
                (authentication platform p.registry p.require_signature m.sig m)
                (record p {
                  rates = Map.set p.rates m.env.src (next_rate (Map.get p.rates m.env.src) now);
                })
                topic m now (rw within at h) in
            (
              e,
              record {
                in_rate = ground arith;
                authorized = authorization-IsAuthorized platform device m a;
                signed = λ r. authentication-IsSigned platform p.registry m m.sig refl (rw r at b);
                fresh = f;
              },
            )
      ]

  -- What has been checked from the parts of the topic on
  record IsBound (p : AdmissionPipeline) (o : Option TopicParts) (msg : Message Json) (now : ℤ)
      : Type 0 where
    parts : TopicParts
    topic_parses : o ≡ some parts
    bound : get_elem? (split b':' msg.env.src) 2 ≡ some parts.src_id
    device : DeviceRecord
    enrolled : by_src p.registry msg.env.src ≡ some device
    in_service : device.status ≡ active
    checked : IsChecked p device msg now

  admit_device-IsChecked :
      (p : AdmissionPipeline) (o : Option DeviceRecord) (topic : String) (m : Message Json)
      (now : ℤ) {msg : Message Json} {t : String} {gaps : ℕ} {rebooted : Bool}
      → (admit_device platform p o topic m now).0 ≡ accepted msg t gaps rebooted
      → (m ≡ msg)
        × (device : DeviceRecord) × (o ≡ some device)
        × (device.status ≡ active)
        × IsChecked p device m now
  unfolding admit_device
  admit_device-IsChecked p none topic m now h = absurd (ground arith)
  admit_device-IsChecked p (some d) topic m now h = elim (Bool-cases (is_revoked d.status)) [
    | inl gone ↦ absurd (ground arith)
    | inr here ↦
        let (e, c) = admit_counted-IsChecked p d topic m now (rw here at h) in
        (e, d, refl, ground arith, c)
  ]

  names_source-eq :
      (o : Option String) (parts : TopicParts)
      → names_source platform o parts ≡ true
      → o ≡ some parts.src_id
  names_source-eq none parts h = absurd (ground arith)
  names_source-eq (some s) parts h = ground (arith, eq_iff s parts.src_id)

  admit_message-IsBound :
      (p : AdmissionPipeline) (o : Option TopicParts) (topic : String) (m : Message Json) (now : ℤ)
      {msg : Message Json} {t : String} {gaps : ℕ} {rebooted : Bool}
      → (admit_message platform p o topic m now).0 ≡ accepted msg t gaps rebooted
      → (m ≡ msg) × IsBound p o m now
  unfolding admit_message
  admit_message-IsBound p none topic m now h = absurd (ground arith)
  admit_message-IsBound p (some parts) topic m now h =
      elim (Bool-cases (names_source platform (get_elem? (split b':' m.env.src) 2) parts)) [
        | inr other ↦ absurd (ground arith)
        | inl same ↦
            let (e, d, k, s, c) =
              admit_device-IsChecked p (by_src p.registry m.env.src) topic m now (rw same at h) in
            (
              e,
              record {
                parts = parts;
                topic_parses = refl;
                bound = names_source-eq (get_elem? (split b':' m.env.src) 2) parts same;
                device = d;
                enrolled = k;
                in_service = s;
                checked = c;
              },
            )
      ]

  admit_parsed-IsBound :
      (p : AdmissionPipeline) (o : Option Json) (topic : String) (now : ℤ) {msg : Message Json}
      {t : String} {gaps : ℕ} {rebooted : Bool}
      → (admit_parsed platform p o topic now).0 ≡ accepted msg t gaps rebooted
      → (parsed : Json) × (o ≡ some parsed)
        × (validate_message platform parsed ≡ true)
        × (as_message parsed ≡ msg)
        × IsBound p (parse_topic topic) (as_message parsed) now
  unfolding admit_parsed
  admit_parsed-IsBound p none topic now h = absurd (ground arith)
  admit_parsed-IsBound p (some j) topic now h = elim (Bool-cases (validate_message platform j)) [
    | inr bad ↦ absurd (ground arith)
    | inl good ↦
        let (e, b) =
          admit_message-IsBound p (parse_topic topic) topic (as_message j) now (rw good at h) in
        (j, refl, good, e, b)
  ]

  -- A message that is admitted has passed every gate: its size and its JSON, the schemas, the binding of
  -- its source to the topic and to an enrolled device that is not revoked, the rate, the zone, the type
  -- and the class of integrity that the device may claim, the signature by a key of that source where
  -- signatures are required, and the freshness. What is admitted is the message that was parsed.
  pub admit-IsAdmitted :
      (p : AdmissionPipeline) (topic : String) (payload : Bytes) (now : ℤ) (msg : Message Json)
      (t : String) (gaps : ℕ) (rebooted : Bool)
      → (admit platform p topic payload now).0 ≡ accepted msg t gaps rebooted
      → IsAdmitted p topic payload msg now
  unfolding admit
  admit-IsAdmitted p topic payload now msg t gaps rebooted h =
      elim (Bool-cases (ltb p.max_bytes (byte_length payload))) [
        | inl big ↦ absurd (ground arith)
        | inr small ↦
            let (j, parses, valid, e, b') =
              admit_parsed-IsBound p (parse_json payload) topic now (rw small at h) in
            let b = subst (λ m. IsBound p (parse_topic topic) m now) e b' in
            record {
              fits = ground arith;
              parsed = j;
              parses = parses;
              valid = valid;
              is_message = e;
              parts = b.parts;
              topic_parses = b.topic_parses;
              bound = b.bound;
              device = b.device;
              enrolled = b.enrolled;
              in_service = b.in_service;
              checked = b.checked;
            }
      ]
