-- ===== src/Witnesses/Contracts.antt =====
-- Messages of one source, for packages/contracts/src/replay.ts and topics.ts.
use railsentinel.Prelude.{
  ℕ, List, ◌≡◌, ◌↔◌, ◌≢◌, eq_iff, refl, inr, String, [], ◌∷◌, Option, none, some, true, false,
  arith, str_eq, ◌==◌, if◌then◌else◌,
}
use railsentinel.Prelude.Int.{ℤ, pos, ◌-ℤ◌}
use railsentinel.Prelude.Map
use railsentinel.Contracts.Replay.{CheckInput, new, check}
use railsentinel.Contracts.Replay.Exact.{IsTimely, GoesOn, check_exact}
use railsentinel.Contracts.Replay.Cache.{HasCaches, run-HasCaches}
use railsentinel.Contracts.Replay.NoReplay.{run, no_replay}
use railsentinel.Contracts.Canonical.{
  Value, boolean, null, array, object, cons, nil, field, end, absent, canonicalize,
}
use railsentinel.Contracts.Canonical.Order.{
  canonicalize-Reordered, in_array, in_object, cons_cons, nil_nil, swapped,
}
use railsentinel.Contracts.Topics.{TopicParts, build_topic, parse_topic}
use railsentinel.Contracts.Topics.RoundTrip.{parse-build}

-- a clock that reads one text
abbrev date_parse : String → Option ℤ
date_parse t = if str_eq t "noon" then some (pos 1_000) else none

abbrev message : String → CheckInput
message id = record { src = "urn:vlt:cam-1"; id = id; seq = 7; boot = 2; ts = "noon" }

named : (id : String) → str_eq id "" ≡ false → id ≢ ""
named id h p = ground (arith, (eq_iff id "").1 p)

abbrev undated : CheckInput
undated = record { src = "urn:vlt:cam-1"; id = "m3"; seq = 9; boot = 2; ts = "" }

no_replay_example :
    (check date_parse
      (run date_parse
        (check date_parse new (message "m1") (pos 1_500)).1
        ((undated, pos 1_600) ∷ []))
      (message "m2")
      (pos 2_000)).0.accept
    ≡ false
unfolding check ◌-ℤ◌ Map.get
no_replay_example =
    no_replay date_parse new (message "m1") (message "m2") (pos 1_500) (pos 2_000)
      ((undated, pos 1_600) ∷ []) refl refl (inr (refl, omega arith))

check_exact_example : ((check date_parse new (message "m1") (pos 1_500)).0.accept ≡ true) ↔ (
    IsTimely new (date_parse "noon") (pos 1_500)
    × GoesOn (Map.get new.sources "urn:vlt:cam-1") (message "m1"))
check_exact_example = check_exact date_parse new (message "m1") (pos 1_500)

new_caches : HasCaches new
unfolding Map.get
new_caches = record { at_source = λ s st e. absurd (ground arith) }

run-HasCaches_example : HasCaches (
    run date_parse new
      ((message "m1", pos 1_500) ∷ (message "m2", pos 1_600) ∷ (undated, pos 1_700) ∷ []))
run-HasCaches_example =
    run-HasCaches date_parse new
      ((message "m1", pos 1_500) ∷ (message "m2", pos 1_600) ∷ (undated, pos 1_700) ∷ []) new_caches
      (named "m1" refl, (named "m2" refl, (named "m3" refl, tt)))

abbrev parts : TopicParts
parts = record {
  site = "santos";
  line = "l2";
  zone = "valongo";
  src_kind = "edge";
  src_id = "cam-1";
  stream = "evt";
  name = some "intrusion";
}

parse-build_example : parse_topic (build_topic parts) ≡ some parts
parse-build_example = parse-build parts (record {
  site = (refl, refl);
  line = (refl, refl);
  zone = (refl, refl);
  src_kind = (refl, refl);
  src_id = (refl, refl);
  stream = (refl, refl);
  name = λ n e. let same : "intrusion" ≡ n = ground (arith, e) in rw (← same) (refl, refl);
})

-- the code units of a small letter
abbrev letter : List ℕ → String
letter [] = "\"\""
letter (x ∷ _) = if x == 97 then "\"a\"" else "\"b\""

-- a list of one object
abbrev listed : List ℕ → Value → List ℕ → Value → Value
listed j v k w = array (cons (object (field j v (field k w end))) nil)

canonicalize-Reordered_example :
    canonicalize letter (listed (97 ∷ []) null (98 ∷ []) (boolean true))
    ≡ canonicalize letter (listed (98 ∷ []) (boolean true) (97 ∷ []) null)
canonicalize-Reordered_example =
    canonicalize-Reordered letter (listed (97 ∷ []) null (98 ∷ []) (boolean true))
      (listed (98 ∷ []) (boolean true) (97 ∷ []) null)
      (in_array (
        cons_cons (in_object (swapped (97 ∷ []) (98 ∷ []) null (boolean true) end (ground arith)))
          nil_nil))

-- sorted, without the absent field
canonical_sample :
    canonicalize letter
      (object (field (98 ∷ []) null (field (99 ∷ []) absent (field (97 ∷ []) (boolean true) end))))
    ≡ some "{\"a\":true,\"b\":null}"
unfolding canonicalize
canonical_sample = refl
