-- ===== src/Contracts/Replay.antt =====
-- packages/contracts/src/replay.ts: the guard against replays and duplicates.
-- `Date.parse` is a parameter, with `none` for NaN; instants are integers, in milliseconds. The
-- texts `detail` of the verdicts, which only go to a log, are left out. The value -1 of `lastSeq`
-- is `none`; sequence numbers are naturals, as the schema of the envelope demands.
pub mod Exact
pub mod Cache
pub mod NoReplay
use railsentinel.Prelude.{
  ℕ, ◌-◌, String, List, [], ◌∷◌, ◌++◌, Option, none, some, Bool, true, false, ltb, leb, ◌==◌,
  length, contains, set_add, set_delete, tail_or_nil, str_eq, if◌then◌else◌,
}
use railsentinel.Prelude.Int.{ℤ, pos, ◌-ℤ◌, ltb_ℤ}
use railsentinel.Prelude.Map
use railsentinel.Prelude.Map.{Map}

pub data RejectReason : Type 0 where
  stale future stale_boot replayed_seq duplicate : RejectReason

pub record ReplayVerdict : Type 0 where
  pub accept : Bool
  pub reason : Option RejectReason
  pub rebooted : Bool

pub record CheckInput : Type 0 where
  pub src : String
  pub id : String
  pub seq : ℕ
  pub boot : ℕ
  pub ts : String

pub record SourceState : Type 0 where
  pub boot : ℕ
  pub last_seq : Option ℕ
  pub seen_ids : List String
  pub id_order : List String

pub record ReplayGuard : Type 0 where
  pub max_age_ms : ℕ
  pub max_skew_ms : ℕ
  pub id_cache_size : ℕ
  pub sources : Map SourceState

-- the constructor's defaults
abbrev pub new : ReplayGuard
new = record { max_age_ms = 30_000; max_skew_ms = 5_000; id_cache_size = 512; sources = [] }

abbrev pub rejected : RejectReason → ReplayVerdict
rejected r = record { accept = false; reason = some r; rebooted = false }

-- `seq <= lastSeq`
abbrev pub seq_le_last : ℕ → Option ℕ → Bool
seq_le_last seq none = false
seq_le_last seq (some last) = leb seq last

abbrev pub fresh_source : ℕ → SourceState
fresh_source boot = record { boot = boot; last_seq = none; seen_ids = []; id_order = [] }

-- The oldest id leaves the queue; it leaves the set too, unless it is the empty text.
unfoldable pub evict : SourceState → List String → SourceState
evict st [] = st
evict st (evicted ∷ rest) = record st {
  seen_ids = if str_eq evicted "" then st.seen_ids else set_delete st.seen_ids evicted;
  id_order = rest;
}

-- What an accepted message writes: its number and its id, with an id evicted from a full cache
unfoldable pub remember : ℕ → SourceState → CheckInput → SourceState
unfolding evict
remember size st i =
    let st' : SourceState = record st {
      last_seq = some i.seq;
      seen_ids = set_add st.seen_ids i.id;
      id_order = st.id_order ++ i.id ∷ [];
    } in
    if ltb size (length st'.id_order) then evict st' st'.id_order else st'

unfoldable pub accept : ReplayGuard → SourceState → CheckInput → Bool → ReplayVerdict × ReplayGuard
accept g st i rebooted = (
  record { accept = true; reason = none; rebooted = rebooted },
  record g { sources = Map.set g.sources i.src (remember g.id_cache_size st i) },
)

-- From the cache of ids on, for a source that the guard holds in the state `st`
unfoldable pub check_source : ReplayGuard → SourceState → CheckInput → ReplayVerdict × ReplayGuard
unfolding accept
check_source g st i =
    if contains st.seen_ids i.id
    then (rejected duplicate, g)
    else if ltb st.boot i.boot
    then accept g (record st { boot = i.boot; last_seq = none }) i true
    else if ltb i.boot st.boot
    then (rejected stale_boot, g)
    else if seq_le_last i.seq st.last_seq
    then (rejected replayed_seq, g)
    else accept g st i false

-- A source that is not known is entered first.
unfoldable pub check_known :
    ReplayGuard → Option SourceState → CheckInput → ReplayVerdict × ReplayGuard
unfolding check_source
check_known g (some st) i = check_source g st i
check_known g none i =
    let st = fresh_source i.boot in
    check_source (record g { sources = Map.set g.sources i.src st }) st i

unfoldable pub check_at : ReplayGuard → CheckInput → Option ℤ → ℤ → ReplayVerdict × ReplayGuard
unfolding check_known
check_at g i none now = (rejected stale, g)
check_at g i (some sent_at) now =
    let age = now -ℤ sent_at in
    if ltb_ℤ (pos g.max_age_ms) age
    then (rejected stale, g)
    else if ltb_ℤ age (pos 0 -ℤ pos g.max_skew_ms)
    then (rejected future, g)
    else check_known g (Map.get g.sources i.src) i

unfoldable pub check :
    (String → Option ℤ) → ReplayGuard → CheckInput → ℤ → ReplayVerdict × ReplayGuard
unfolding check_at
check date_parse g i now = check_at g i (date_parse i.ts) now

-- `Math.max(0, seq - lastSeq - 1)`: the subtraction on numbers stops at 0.
unfoldable pub gap_of : Option SourceState → ℕ → ℕ → ℕ
gap_of none seq boot = 0
gap_of (some st) seq boot = elim st.last_seq [
  | none ↦ 0
  | some last ↦ if st.boot == boot then seq - last - 1 else 0
]

unfoldable pub gap_count : ReplayGuard → String → ℕ → ℕ → ℕ
unfolding gap_of
gap_count g src seq boot = gap_of (Map.get g.sources src) seq boot
