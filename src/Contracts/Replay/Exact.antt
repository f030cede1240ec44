-- ===== src/Contracts/Replay/Exact.antt =====
-- What `check` accepts, and that a rejection changes nothing.
use railsentinel.Prelude.{
  ℕ, ◌<◌, ◌≡◌, ◌↔◌, ◌⊎◌, String, Option, none, some, true, false, contains, arith,
}
use railsentinel.Prelude.Int.{ℤ, pos, ◌-ℤ◌, ◌≤ℤ◌}
use railsentinel.Prelude.Map
use railsentinel.Prelude.Map.{Map, map_laws}
use railsentinel.Contracts.Replay.{
  CheckInput, SourceState, ReplayGuard, check, check_at, check_known, check_source,
}

abbrev pub IsNewer : ℕ → Option ℕ → Type 0
IsNewer seq none = Unit
IsNewer seq (some last) = last < seq

-- The session and the number go on, and the id is not in the cache; a source that is not known has
-- nothing to go on from.
abbrev pub GoesOn : Option SourceState → CheckInput → Type 0
GoesOn none i = Unit
GoesOn (some st) i =
    (contains st.seen_ids i.id ≡ false)
    × ((st.boot < i.boot) ⊎ ((st.boot ≡ i.boot) × IsNewer i.seq st.last_seq))

-- The timestamp is readable and inside the window of freshness.
abbrev pub IsTimely : ReplayGuard → Option ℤ → ℤ → Type 0
IsTimely g none now = ⊥
IsTimely g (some sent_at) now =
    (now -ℤ sent_at ≤ℤ pos g.max_age_ms) × (pos 0 -ℤ pos g.max_skew_ms ≤ℤ now -ℤ sent_at)

check_source_exact :
    (g : ReplayGuard) (st : SourceState) (i : CheckInput)
    → ((check_source g st i).0.accept ≡ true) ↔ GoesOn (some st) i
unfolding check_source
check_source_exact g st i = ground arith

check_known_exact :
    (g : ReplayGuard) (o : Option SourceState) (i : CheckInput)
    → ((check_known g o i).0.accept ≡ true) ↔ GoesOn o i
unfolding check_known
check_known_exact g none i = ground arith
check_known_exact g (some st) i = check_source_exact g st i

check_at_exact :
    (g : ReplayGuard) (i : CheckInput) (o : Option ℤ) (now : ℤ)
    → ((check_at g i o now).0.accept ≡ true)
      ↔ (IsTimely g o now × GoesOn (Map.get g.sources i.src) i)
unfolding check_at
check_at_exact g i none now = ground arith
check_at_exact g i (some t) now = ground (arith, check_known_exact g (Map.get g.sources i.src) i)

-- A message is accepted exactly when its timestamp is readable and within the two bounds of age, and,
-- for a source that is known, its id is not in the cache and its session is later, or is the same
-- with a number above the last.
pub check_exact :
    (date_parse : String → Option ℤ) (g : ReplayGuard) (i : CheckInput) (now : ℤ)
    → ((check date_parse g i now).0.accept ≡ true)
      ↔ (IsTimely g (date_parse i.ts) now × GoesOn (Map.get g.sources i.src) i)
unfolding check
check_exact date_parse g i now = check_at_exact g i (date_parse i.ts) now

check_source_unchanged :
    (g : ReplayGuard) (st : SourceState) (i : CheckInput)
    → (check_source g st i).0.accept ≡ false
    → (check_source g st i).1 ≡ g
unfolding check_source
check_source_unchanged g st i h = ground arith

check_known_unchanged :
    (g : ReplayGuard) (o : Option SourceState) (i : CheckInput)
    → (check_known g o i).0.accept ≡ false
    → (check_known g o i).1 ≡ g
unfolding check_known check_source
check_known_unchanged g none i h = ground arith
check_known_unchanged g (some st) i h = check_source_unchanged g st i h

check_at_unchanged :
    (g : ReplayGuard) (i : CheckInput) (o : Option ℤ) (now : ℤ)
    → (check_at g i o now).0.accept ≡ false
    → (check_at g i o now).1 ≡ g
unfolding check_at
check_at_unchanged g i none now h = ground arith
check_at_unchanged g i (some t) now h =
    ground (arith, check_known_unchanged g (Map.get g.sources i.src) i)

-- A rejected message leaves the guard as it was, whichever of the five reasons it is rejected for.
pub check-eq_of_reject :
    (date_parse : String → Option ℤ) (g : ReplayGuard) (i : CheckInput) (now : ℤ)
    → (check date_parse g i now).0.accept ≡ false
    → (check date_parse g i now).1 ≡ g
unfolding check
check-eq_of_reject date_parse g i now h = check_at_unchanged g i (date_parse i.ts) now h
