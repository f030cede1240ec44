-- ===== src/Gateway/Pipeline/RateLimit.antt =====
-- The rate limit: how many messages of a source are admitted in one window.
use railsentinel.Prelude.{
  ℕ, ◌+◌, ◌-◌, ◌≤◌, ◌≡◌, refl, ◌∙◌, ◌⊎◌, inl, inr, String, List, [], ◌∷◌, Option, none, some, Bool,
  true, false, All, arith, Bool-cases, ltb, get_elem?, str_eq, eq_iff, if◌then◌else◌,
}
use railsentinel.Prelude.Int.{ℤ, pos, ◌-ℤ◌, ltb_ℤ}
use railsentinel.Prelude.Map
use railsentinel.Prelude.Map.{Map, get-set}
use railsentinel.Prelude.Text.{split}
use railsentinel.Contracts.Types.{Message}
use railsentinel.Contracts.Topics.{TopicParts, parse_topic}
use railsentinel.Contracts.Platform.{Platform}
use railsentinel.Contracts.Validate.{validate_message}
use railsentinel.Gateway.Registry.{DeviceRecord, by_src}
use railsentinel.Gateway.Pipeline.{
  RejectStage, RateState, AdmissionPipeline, Verdict, accepted, rejected, authorization,
  authentication, freshness, first_refusal, refuse_or, admit_counted, admit_device, admit_message,
  admit_parsed, admit, next_rate, names_source, is_revoked,
}

module _ (platform : Platform) where
  open platform use {Bytes, Json, byte_length, parse_json, as_message}

  abbrev pub admitted_from : String → Verdict platform → Bool
  admitted_from s (accepted m t gaps rebooted) = str_eq m.env.src s
  admitted_from s (rejected stage t src) = false

  -- What one attempt does to the counter of a source: it leaves it, or counts once; and a message of
  -- the source is admitted only if it is counted and the count is within the limit.
  record Counts (s : String) (p : AdmissionPipeline) (now : ℤ)
      (r : Verdict platform × AdmissionPipeline) : Type 0 where
    limit_kept : r.1.rate_limit ≡ p.rate_limit
    moved :
        ((Map.get r.1.rates s ≡ Map.get p.rates s) × (admitted_from s r.0 ≡ false))
        ⊎ ((Map.get r.1.rates s ≡ some (next_rate (Map.get p.rates s) now))
            × (admitted_from s r.0 ≡ true
                → (next_rate (Map.get p.rates s) now).count ≤ p.rate_limit))

  refused-Counts :
      (s : String) (p : AdmissionPipeline) (now : ℤ) (stage : RejectStage) (t : String)
      (src : Option String)
      → Counts s p now (rejected stage t src, p)
  refused-Counts s p now stage t src = record { limit_kept = refl; moved = inl (refl, refl) }

  -- The stages after the counter admit the message that they are given, or none.
  AfterCount : String → String → AdmissionPipeline → Verdict platform × AdmissionPipeline → Type 0
  AfterCount s src p r =
      (r.1.rate_limit ≡ p.rate_limit)
      × (r.1.rates ≡ p.rates)
      × (admitted_from s r.0 ≡ true → str_eq src s ≡ true)

  refuse_or-AfterCount :
      (s : String) (o : Option RejectStage) (p : AdmissionPipeline) (topic : String)
      (m : Message Json) (now : ℤ)
      → AfterCount s m.env.src p (refuse_or platform o p topic m now)
  unfolding AfterCount freshness
  refuse_or-AfterCount s (some stage) p topic m now = (refl, refl, λ h. ground arith)
  refuse_or-AfterCount s none p topic m now = ground arith

  -- An attempt of the source `src` that was counted
  counted :
      (s src : String) (p : AdmissionPipeline) (now : ℤ) (v : Verdict platform)
      (p' : AdmissionPipeline)
      → p'.rate_limit ≡ p.rate_limit
      → p'.rates ≡ Map.set p.rates src (next_rate (Map.get p.rates src) now)
      → (admitted_from s v ≡ true → str_eq src s ≡ true)
      → (admitted_from s v ≡ true → (next_rate (Map.get p.rates src) now).count ≤ p.rate_limit)
      → Counts s p now (v, p')
  counted s src p now v p' l r a b = elim (Bool-cases (str_eq src s)) [
    | inl same ↦
        let e : src ≡ s = (eq_iff src s).0 same in
        record {
          limit_kept = l;
          moved = inr (
            rw r (ground (arith, get-set p.rates src (next_rate (Map.get p.rates src) now) s)),
            λ h. rw (← e) (b h),
          );
        }
    | inr other ↦ record {
      limit_kept = l;
      moved = inl (
        rw r (ground (arith, get-set p.rates src (next_rate (Map.get p.rates src) now) s)),
        ground arith,
      );
    }
  ]

  admit_counted-Counts :
      (s : String) (p : AdmissionPipeline) (d : DeviceRecord) (topic : String) (m : Message Json)
      (now : ℤ)
      → Counts s p now (admit_counted platform p d topic m now)
  unfolding admit_counted AfterCount
  admit_counted-Counts s p d topic m now =
      let rate = next_rate (Map.get p.rates m.env.src) now in
      let p' : AdmissionPipeline = record p { rates = Map.set p.rates m.env.src rate } in
      elim (Bool-cases (ltb p.rate_limit rate.count)) [
        | inl over ↦
            rw over
              (counted s m.env.src p now _ p' refl refl (λ h. ground arith) (λ h. ground arith))
        | inr within ↦
            let o =
              first_refusal platform (authorization platform d m)
                (authentication platform p.registry p.require_signature m.sig m) in
            let (l, r, a) = refuse_or-AfterCount s o p' topic m now in
            let result = refuse_or platform o p' topic m now in
            rw within (counted s m.env.src p now result.0 result.1 l r a (λ h. ground arith))
      ]

  admit_device-Counts :
      (s : String) (p : AdmissionPipeline) (o : Option DeviceRecord) (topic : String)
      (m : Message Json) (now : ℤ)
      → Counts s p now (admit_device platform p o topic m now)
  unfolding admit_device
  admit_device-Counts s p none topic m now = refused-Counts s p now _ _ _
  admit_device-Counts s p (some d) topic m now = elim (Bool-cases (is_revoked d.status)) [
    | inl gone ↦ rw gone (refused-Counts s p now _ _ _)
    | inr here ↦ rw here (admit_counted-Counts s p d topic m now)
  ]

  admit_message-Counts :
      (s : String) (p : AdmissionPipeline) (o : Option TopicParts) (topic : String)
      (m : Message Json) (now : ℤ)
      → Counts s p now (admit_message platform p o topic m now)
  unfolding admit_message
  admit_message-Counts s p none topic m now = refused-Counts s p now _ _ _
  admit_message-Counts s p (some parts) topic m now =
      elim (Bool-cases (names_source platform (get_elem? (split b':' m.env.src) 2) parts)) [
        | inl same ↦ rw same (admit_device-Counts s p (by_src p.registry m.env.src) topic m now)
        | inr other ↦ rw other (refused-Counts s p now _ _ _)
      ]

  admit_parsed-Counts :
      (s : String) (p : AdmissionPipeline) (o : Option Json) (topic : String) (now : ℤ)
      → Counts s p now (admit_parsed platform p o topic now)
  unfolding admit_parsed
  admit_parsed-Counts s p none topic now = refused-Counts s p now _ _ _
  admit_parsed-Counts s p (some j) topic now = elim (Bool-cases (validate_message platform j)) [
    | inl good ↦ rw good (admit_message-Counts s p (parse_topic topic) topic (as_message j) now)
    | inr bad ↦ rw bad (refused-Counts s p now _ _ _)
  ]

  admit-Counts :
      (s : String) (p : AdmissionPipeline) (topic : String) (payload : Bytes) (now : ℤ)
      → Counts s p now (admit platform p topic payload now)
  unfolding admit
  admit-Counts s p topic payload now = elim (Bool-cases (ltb p.max_bytes (byte_length payload))) [
    | inl big ↦ rw big (refused-Counts s p now _ _ _)
    | inr small ↦ rw small (admit_parsed-Counts s p (parse_json payload) topic now)
  ]

  pub record Attempt : Type 0 where
    pub topic : String
    pub payload : Bytes
    pub now : ℤ

  -- How many messages of a source are admitted over a series of attempts
  pub admitted_count : String → AdmissionPipeline → List Attempt → ℕ
  admitted_count s p [] = 0
  admitted_count s p (a ∷ as') =
      let (v, p') = admit platform p a.topic a.payload a.now in
      let rest = admitted_count s p' as' in if admitted_from s v then rest + 1 else rest

  -- The attempt falls into the window that started at `start`.
  abbrev pub InWindow : ℤ → Attempt → Type 0
  InWindow start a = ltb_ℤ (a.now -ℤ start) (pos 1000) ≡ true

  one_more :
      (rate : RateState) (now : ℤ)
      → ltb_ℤ (now -ℤ rate.window_start) (pos 1000) ≡ true
      → next_rate (some rate) now ≡ record rate { count = rate.count + 1 }
  unfolding next_rate
  one_more rate now h = rw h

  -- While a window of a source lasts, no more of its messages are admitted than the limit leaves after
  -- those that the window has counted, whatever messages of whatever sources arrive, in any order.
  pub window_bounded :
      (s : String) (p : AdmissionPipeline) (rate : RateState) (attempts : List Attempt)
      → Map.get p.rates s ≡ some rate
      → All (InWindow rate.window_start) attempts
      → admitted_count s p attempts ≤ p.rate_limit - rate.count
  unfolding admitted_count
  window_bounded s p rate [] e w = omega arith
  window_bounded s p rate (a ∷ as') e w =
      let r = admit platform p a.topic a.payload a.now in
      let c = admit-Counts s p a.topic a.payload a.now in
      let counted' = one_more rate a.now w.0 in
      elim c.moved [
        | inl (same, none') ↦
            let ih = window_bounded s r.1 rate as' (same ∙ e) w.1 in
            rw none' (omega (arith, ih, c.limit_kept))
        | inr (moved, within) ↦
            let rate' : RateState = record rate { count = rate.count + 1 } in
            let moved' : Map.get r.1.rates s ≡ some rate' = rw (e, counted') at moved in
            let ih = window_bounded s r.1 rate' as' moved' w.1 in
            elim (Bool-cases (admitted_from s r.0)) [
              | inl h ↦
                  let room : rate.count + 1 ≤ p.rate_limit = rw (e, counted') at (within h) in
                  rw h (omega (arith, ih, room, c.limit_kept))
              | inr h ↦ rw h (omega (arith, ih, c.limit_kept))
            ]
      ]
