-- ===== src/Contracts/Replay/NoReplay.antt =====
-- What is accepted once is never accepted again, however many messages of whatever sources come
-- between: the guard covers all numbers up to the last of a session, and all earlier sessions.
use railsentinel.Prelude.{
  ℕ, ◌≤◌, ◌<◌, ◌≡◌, refl, ◌⊎◌, String, List, [], ◌∷◌, Option, none, some, Bool, true, false, arith,
  eq_iff, Bool-cases, inl, inr, set_add, ◌++◌,
}
use railsentinel.Prelude.Int.{ℤ}
use railsentinel.Prelude.Map
use railsentinel.Prelude.Map.{Map, get-set}
use railsentinel.Contracts.Replay.{
  CheckInput, SourceState, ReplayGuard, check, check_at, check_known, check_source, accept,
  remember, evict, seq_le_last, fresh_source,
}
use railsentinel.Contracts.Replay.Exact.{GoesOn, check_exact}

abbrev CoversNumber : Option ℕ → ℕ → Type 0
CoversNumber none seq = ⊥
CoversNumber (some last) seq = seq ≤ last

-- The state of a source has gone past a session and a number.
abbrev pub Covers : Option SourceState → ℕ → ℕ → Type 0
Covers none boot seq = ⊥
Covers (some st) boot seq = (boot < st.boot) ⊎ ((boot ≡ st.boot) × CoversNumber st.last_seq seq)

abbrev state_of : ReplayGuard → String → Option SourceState
state_of g s = Map.get g.sources s

evict_fields :
    (st : SourceState) (l : List String)
    → ((evict st l).boot ≡ st.boot) × ((evict st l).last_seq ≡ st.last_seq)
unfolding evict
evict_fields st [] = (refl, refl)
evict_fields st (x ∷ l) = (refl, refl)

pub remember_fields :
    (n : ℕ) (st : SourceState) (i : CheckInput)
    → ((remember n st i).boot ≡ st.boot) × ((remember n st i).last_seq ≡ some i.seq)
unfolding remember
remember_fields n st i = ground (
  arith,
  evict_fields
      (record st {
        last_seq = some i.seq;
        seen_ids = set_add st.seen_ids i.id;
        id_order = st.id_order ++ i.id ∷ [];
      })
      (st.id_order ++ i.id ∷ []),
)

-- An accepted message is covered from then on.
accept-Covers :
    (g : ReplayGuard) (st : SourceState) (i : CheckInput) (b : Bool) (boot seq : ℕ) (s : String)
    → s ≡ i.src
    → boot ≡ st.boot
    → seq ≤ i.seq
    → Covers (state_of (accept g st i b).1 s) boot seq
unfolding accept
accept-Covers g st i b boot seq s es eb h = ground (
  arith,
  get-set g.sources i.src (remember g.id_cache_size st i) s,
  eq_iff i.src s,
  remember_fields g.id_cache_size st i,
)

-- What a source's state covers it goes on to cover when it accepts.
accept_keeps :
    (g : ReplayGuard) (st st' : SourceState) (i : CheckInput) (b : Bool) (boot seq : ℕ) (s : String)
    → Map.get g.sources i.src ≡ some st
    → (st.boot < st'.boot) ⊎ ((st.boot ≡ st'.boot) × (seq_le_last i.seq st.last_seq ≡ false))
    → Covers (state_of g s) boot seq
    → Covers (state_of (accept g st' i b).1 s) boot seq
unfolding accept
accept_keeps g st st' i b boot seq s e h c = ground (
  arith,
  get-set g.sources i.src (remember g.id_cache_size st' i) s,
  eq_iff i.src s,
  remember_fields g.id_cache_size st' i,
)

check_known-Covers :
    (g : ReplayGuard) (o : Option SourceState) (i : CheckInput)
    → Map.get g.sources i.src ≡ o
    → (check_known g o i).0.accept ≡ true
    → Covers (state_of (check_known g o i).1 i.src) i.boot i.seq
unfolding check_known check_source
check_known-Covers g none i e h =
    let st = fresh_source i.boot in
    let g' = record g { sources = Map.set g.sources i.src st } in
    ground (arith, accept-Covers g' st i false i.boot i.seq i.src)
check_known-Covers g (some st) i e h = ground (
  arith,
  accept-Covers g st i false i.boot i.seq i.src,
  accept-Covers g (record st { boot = i.boot; last_seq = none }) i true i.boot i.seq i.src,
)

check_known_keeps :
    (g : ReplayGuard) (o : Option SourceState) (i : CheckInput) (boot seq : ℕ) (s : String)
    → Map.get g.sources i.src ≡ o
    → Covers (state_of g s) boot seq
    → Covers (state_of (check_known g o i).1 s) boot seq
unfolding check_known check_source
check_known_keeps g none i boot seq s e c =
    let st = fresh_source i.boot in
    let g' = record g { sources = Map.set g.sources i.src st } in
    ground (
      arith,
      accept_keeps g' st st i false boot seq s,
      get-set g.sources i.src st s,
      get-set g.sources i.src st i.src,
      eq_iff i.src s,
      eq_iff i.src i.src,
    )
check_known_keeps g (some st) i boot seq s e c = ground (
  arith,
  accept_keeps g st st i false boot seq s,
  accept_keeps g st (record st { boot = i.boot; last_seq = none }) i true boot seq s,
)

check_at-Covers :
    (g : ReplayGuard) (i : CheckInput) (o : Option ℤ) (now : ℤ)
    → (check_at g i o now).0.accept ≡ true
    → Covers (state_of (check_at g i o now).1 i.src) i.boot i.seq
unfolding check_at
check_at-Covers g i none now h = absurd (ground arith)
check_at-Covers g i (some t) now h = ground (arith, check_known-Covers g (state_of g i.src) i refl)

check_at_keeps :
    (g : ReplayGuard) (i : CheckInput) (o : Option ℤ) (now : ℤ) (boot seq : ℕ) (s : String)
    → Covers (state_of g s) boot seq
    → Covers (state_of (check_at g i o now).1 s) boot seq
unfolding check_at
check_at_keeps g i none now boot seq s c = c
check_at_keeps g i (some t) now boot seq s c =
    ground (arith, check_known_keeps g (state_of g i.src) i boot seq s refl)

not-GoesOn :
    (o : Option SourceState) (i : CheckInput) (boot seq : ℕ)
    → Covers o boot seq
    → (i.boot < boot) ⊎ ((i.boot ≡ boot) × (i.seq ≤ seq))
    → ¬ GoesOn o i
not-GoesOn none i boot seq c h k = c
not-GoesOn (some st) i boot seq c h k = ground arith

-- A series of checks, each with the time at which it is made
unfoldable pub run : (String → Option ℤ) → ReplayGuard → List (CheckInput × ℤ) → ReplayGuard
run date_parse g [] = g
run date_parse g ((i, now) ∷ rest) = run date_parse (check date_parse g i now).1 rest

module _ (date_parse : String → Option ℤ) where
  check-Covers :
      (g : ReplayGuard) (i : CheckInput) (now : ℤ)
      → (check date_parse g i now).0.accept ≡ true
      → Covers (state_of (check date_parse g i now).1 i.src) i.boot i.seq
  unfolding check
  check-Covers g i now h = check_at-Covers g i (date_parse i.ts) now h

  check_keeps :
      (g : ReplayGuard) (i : CheckInput) (now : ℤ) (boot seq : ℕ) (s : String)
      → Covers (state_of g s) boot seq
      → Covers (state_of (check date_parse g i now).1 s) boot seq
  unfolding check
  check_keeps g i now boot seq s c = check_at_keeps g i (date_parse i.ts) now boot seq s c

  covered_rejected :
      (g : ReplayGuard) (i : CheckInput) (now : ℤ) (boot seq : ℕ)
      → Covers (state_of g i.src) boot seq
      → (i.boot < boot) ⊎ ((i.boot ≡ boot) × (i.seq ≤ seq))
      → (check date_parse g i now).0.accept ≡ false
  covered_rejected g i now boot seq c h = elim (Bool-cases (check date_parse g i now).0.accept) [
    | inl yes' ↦
        absurd
          (not-GoesOn (state_of g i.src) i boot seq c h ((check_exact date_parse g i now).0 yes').1)
    | inr no' ↦ no'
  ]

  run_keeps :
      (g : ReplayGuard) (checks : List (CheckInput × ℤ)) (boot seq : ℕ) (s : String)
      → Covers (state_of g s) boot seq
      → Covers (state_of (run date_parse g checks) s) boot seq
  unfolding run
  run_keeps g [] boot seq s c = c
  run_keeps g ((i, now) ∷ rest) boot seq s c =
      run_keeps (check date_parse g i now).1 rest boot seq s (check_keeps g i now boot seq s c)

  -- After a message is accepted, and any further messages are checked, of any sources and at any
  -- times, every message of the same source from an earlier session, or from the same session with
  -- no higher a number, is rejected: the accepted message itself, reinjected, among them.
  pub no_replay :
      (g : ReplayGuard) (i j : CheckInput) (now later : ℤ) (checks : List (CheckInput × ℤ))
      → (check date_parse g i now).0.accept ≡ true
      → j.src ≡ i.src
      → (j.boot < i.boot) ⊎ ((j.boot ≡ i.boot) × (j.seq ≤ i.seq))
      → (check date_parse (run date_parse (check date_parse g i now).1 checks) j later).0.accept
        ≡ false
  no_replay g i j now later checks h e o =
      covered_rejected (run date_parse (check date_parse g i now).1 checks) j later i.boot i.seq
        (rw e (
          run_keeps (check date_parse g i now).1 checks i.boot i.seq i.src
            (check-Covers g i now h)))
        o
