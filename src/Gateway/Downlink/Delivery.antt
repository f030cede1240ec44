-- ===== src/Gateway/Downlink/Delivery.antt =====
-- A device that guards against replays accepts the commands of the core in their order.
use railsentinel.Prelude.{
  ℕ, ◌+◌, ◌≤◌, ◌<◌, ◌≡◌, refl, ◌⊎◌, String, Option, none, some, Bool, true, false, contains, arith,
  eq_refl,
}
use railsentinel.Prelude.Int.{ℤ}
use railsentinel.Prelude.Map
use railsentinel.Prelude.Map.{Map, get-set}
use railsentinel.Contracts.Platform.{Platform}
use railsentinel.Contracts.Replay.{
  ReplayGuard, SourceState, CheckInput, check, check_at, check_known, check_source, accept,
  remember, fresh_source,
}
use railsentinel.Contracts.Replay.Exact.{IsTimely, GoesOn, check_exact}
use railsentinel.Contracts.Replay.NoReplay.{remember_fields}
use railsentinel.Gateway.Pipeline.{check_input}
use railsentinel.Gateway.Downlink.{Downlink, BuildParams, build}

abbrev pub IsUpTo : Option ℕ → ℕ → Type 0
IsUpTo none seq = Unit
IsUpTo (some last) seq = last ≤ seq

-- A guard's state of a source has not gone past a session and a number.
abbrev pub IsBehind : Option SourceState → ℕ → ℕ → Type 0
IsBehind none boot seq = Unit
IsBehind (some st) boot seq = (st.boot < boot) ⊎ ((st.boot ≡ boot) × IsUpTo st.last_seq seq)

-- The id is not in the cache.
abbrev pub IsNew : Option SourceState → String → Type 0
IsNew none id = Unit
IsNew (some st) id = contains st.seen_ids id ≡ false

accept-IsBehind :
    (g : ReplayGuard) (st : SourceState) (i : CheckInput) (b : Bool)
    → st.boot ≡ i.boot
    → IsBehind (Map.get (accept g st i b).1.sources i.src) i.boot i.seq
unfolding accept
accept-IsBehind g st i b e = ground (
  arith,
  get-set g.sources i.src (remember g.id_cache_size st i) i.src,
  eq_refl i.src,
  remember_fields g.id_cache_size st i,
)

check_known-IsBehind :
    (g : ReplayGuard) (o : Option SourceState) (i : CheckInput)
    → (check_known g o i).0.accept ≡ true
    → IsBehind (Map.get (check_known g o i).1.sources i.src) i.boot i.seq
unfolding check_known check_source
check_known-IsBehind g none i h =
    let st = fresh_source i.boot in
    let g' = record g { sources = Map.set g.sources i.src st } in
    ground (arith, accept-IsBehind g' st i false)
check_known-IsBehind g (some st) i h = ground (
  arith,
  accept-IsBehind g st i false,
  accept-IsBehind g (record st { boot = i.boot; last_seq = none }) i true,
)

check_at-IsBehind :
    (g : ReplayGuard) (i : CheckInput) (o : Option ℤ) (now : ℤ)
    → (check_at g i o now).0.accept ≡ true
    → IsBehind (Map.get (check_at g i o now).1.sources i.src) i.boot i.seq
unfolding check_at
check_at-IsBehind g i none now h = absurd (ground arith)
check_at-IsBehind g i (some t) now h =
    ground (arith, check_known-IsBehind g (Map.get g.sources i.src) i)

goes_on :
    (o : Option SourceState) (i : CheckInput) (seq : ℕ)
    → i.seq ≡ seq + 1
    → IsBehind o i.boot seq
    → IsNew o i.id
    → GoesOn o i
goes_on none i seq e b n = tt
goes_on (some st) i seq e b n = ground (arith, b, n, e)

module _ (platform : Platform) (sign : String → String → String) where
  open platform use {Json, date_parse}

  -- The next command of the downlink is accepted by a guard that has not gone past the downlink, if it
  -- arrives in time and its id is new; and then the guard has not gone past the downlink either, so that
  -- the one after it is accepted in turn.
  pub build_delivers :
      (g : ReplayGuard) (d : Downlink) (params : BuildParams platform sign) (id ts : String)
      (now : ℤ)
      → IsBehind (Map.get g.sources d.signer.src) d.boot d.seq
      → IsNew (Map.get g.sources d.signer.src) id
      → IsTimely g (date_parse ts) now
      → let (msg, d') = build platform sign d params id ts in
        let (verdict, g') = check date_parse g (check_input platform msg) now in
        (verdict.accept ≡ true) × IsBehind (Map.get g'.sources d'.signer.src) d'.boot d'.seq
  unfolding build check
  build_delivers g d params id ts now b n t =
      let i = check_input platform (build platform sign d params id ts).0 in
      let ok =
        (check_exact date_parse g i now).1
          (t, goes_on (Map.get g.sources d.signer.src) i d.seq refl b n) in
      (ok, check_at-IsBehind g i (date_parse ts) now ok)
