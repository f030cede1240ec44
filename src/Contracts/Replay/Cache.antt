-- ===== src/Contracts/Replay/Cache.antt =====
-- The cache of ids: the set and the queue of a source agree, and their size stays within its bound.
use railsentinel.Prelude.{
  ℕ, ◌+◌, ◌≤◌, ◌≡◌, ◌≢◌, refl, sym, ap, ◌⊎◌, String, List, [], ◌∷◌, ◌++◌, Option, none, some, Bool,
  true, false, arith, eq_iff, Bool-cases, inl, inr, str_eq, set_add, set_delete, contains, length,
  length-append, contains-append, IsDistinct, IsDistinct-snoc, set_delete_absent, ltb, eq_refl, ◌∙◌,
}
use railsentinel.Prelude.Int.{ℤ}
use railsentinel.Prelude.Map
use railsentinel.Prelude.Map.{Map, get-set}
use railsentinel.Contracts.Replay.NoReplay.{run}
use railsentinel.Contracts.Replay.{
  CheckInput, SourceState, ReplayGuard, check, check_at, check_known, check_source, accept,
  remember, evict, fresh_source,
}

pub record IsCache (size : ℕ) (st : SourceState) : Type 0 where
  pub agree : st.seen_ids ≡ st.id_order
  pub distinct : IsDistinct st.id_order
  pub bounded : length st.id_order ≤ size
  pub named : contains st.id_order "" ≡ false

set_add_absent :
    (xs : List String) (a : String) → contains xs a ≡ false → set_add xs a ≡ xs ++ a ∷ []
set_add_absent xs a h = rw h

set_delete_head : (x : String) (l : List String) → contains l x ≡ false → set_delete (x ∷ l) x ≡ l
set_delete_head x l h = ground (arith, set_delete_absent l x, eq_refl x)

-- Evicting the head of a queue that the set agrees with
evict-IsCache :
    (n : ℕ) (st : SourceState) (l : List String)
    → st.seen_ids ≡ l
    → st.id_order ≡ l
    → IsDistinct l
    → length l ≤ n + 1
    → contains l "" ≡ false
    → IsCache n (evict st l)
unfolding evict
evict-IsCache n st [] a o d b m = record {
  agree = a ∙ sym o;
  distinct = rw o tt;
  bounded = rw o (omega arith);
  named = rw o refl;
}
evict-IsCache n st (x ∷ l) a o d b m = record {
  agree = rw (ne, a) (set_delete_head x l d.0);
  distinct = d.1;
  bounded = omega arith;
  named = ground arith;
}
  where
    ne : str_eq x "" ≡ false
    ne = ground arith

-- The queue of a source with one more id
grown :
    (n : ℕ) (st : SourceState) (i : CheckInput)
    → IsCache n st
    → contains st.seen_ids i.id ≡ false
    → i.id ≢ ""
    → let l = st.id_order ++ i.id ∷ [] in
      (set_add st.seen_ids i.id ≡ l) × IsDistinct l × (length l ≤ n + 1) × (contains l "" ≡ false)
grown n st i c h ne =
    let h' : contains st.id_order i.id ≡ false = rw (← c.agree) h in
    (
      set_add_absent st.seen_ids i.id h ∙ (ap (λ l. l ++ i.id ∷ []) c.agree),
      IsDistinct-snoc st.id_order i.id c.distinct h',
      omega (arith, length-append st.id_order (i.id ∷ []), c.bounded),
      ground (arith, contains-append st.id_order (i.id ∷ []) "", c.named, eq_iff i.id ""),
    )

remember-IsCache :
    (n : ℕ) (st : SourceState) (i : CheckInput)
    → IsCache n st
    → contains st.seen_ids i.id ≡ false
    → i.id ≢ ""
    → IsCache n (remember n st i)
unfolding remember
remember-IsCache n st i c h ne =
    let l = st.id_order ++ i.id ∷ [] in
    let (a, d, b, m) = grown n st i c h ne in
    let st' : SourceState = record st {
      last_seq = some i.seq;
      seen_ids = set_add st.seen_ids i.id;
      id_order = l;
    } in
    elim (Bool-cases (ltb n (length l))) [
      | inl full ↦ rw full (evict-IsCache n st' l a refl d b m)
      | inr room ↦ rw room (record { agree = a; distinct = d; bounded = ground arith; named = m })
    ]

-- Every source of the guard
pub record HasCaches (g : ReplayGuard) : Type 0 where
  pub at_source :
      (s : String) (st : SourceState) → Map.get g.sources s ≡ some st → IsCache g.id_cache_size st

set-HasCaches :
    (g : ReplayGuard) (k : String) (st : SourceState)
    → HasCaches g
    → IsCache g.id_cache_size st
    → HasCaches (record g { sources = Map.set g.sources k st })
set-HasCaches g k st h c = record {
  at_source = λ s st' e. elim (Bool-cases (str_eq k s)) [
    | inl here ↦ rw (← (hit s st' here e)) c
    | inr other ↦ h.at_source s st' (ground (arith, get-set g.sources k st s))
  ];
}
  where
    hit :
        (s : String) (st' : SourceState)
        → str_eq k s ≡ true
        → Map.get (Map.set g.sources k st) s ≡ some st'
        → st ≡ st'
    hit s st' here e = ground (arith, get-set g.sources k st s)

accept-HasCaches :
    (g : ReplayGuard) (st : SourceState) (i : CheckInput) (b : Bool)
    → HasCaches g
    → IsCache g.id_cache_size st
    → contains st.seen_ids i.id ≡ false
    → i.id ≢ ""
    → HasCaches (accept g st i b).1
unfolding accept
accept-HasCaches g st i b h c n ne =
    set-HasCaches g i.src (remember g.id_cache_size st i) h
      (remember-IsCache g.id_cache_size st i c n ne)

-- The three ways in which the check of a known source ends
check_source_cases :
    (g : ReplayGuard) (st : SourceState) (i : CheckInput)
    → ((check_source g st i).1 ≡ g)
      ⊎ ((contains st.seen_ids i.id ≡ false)
          × ((check_source g st i ≡ accept g (record st { boot = i.boot; last_seq = none }) i true)
              ⊎ (check_source g st i ≡ accept g st i false)))
unfolding check_source
check_source_cases g st i = ground arith

check_source-HasCaches :
    (g : ReplayGuard) (st : SourceState) (i : CheckInput)
    → HasCaches g
    → IsCache g.id_cache_size st
    → i.id ≢ ""
    → HasCaches (check_source g st i).1
check_source-HasCaches g st i h c ne = elim (check_source_cases g st i) [
  | inl same ↦ rw same h
  | inr (new, inl later) ↦ rw later (
      accept-HasCaches g (record st { boot = i.boot; last_seq = none }) i true h
        (record { agree = c.agree; distinct = c.distinct; bounded = c.bounded; named = c.named })
        new ne)
  | inr (new, inr going_on) ↦ rw going_on (accept-HasCaches g st i false h c new ne)
]

check_known-HasCaches :
    (g : ReplayGuard) (o : Option SourceState) (i : CheckInput)
    → HasCaches g
    → Map.get g.sources i.src ≡ o
    → i.id ≢ ""
    → HasCaches (check_known g o i).1
unfolding check_known
check_known-HasCaches g (some st) i h e ne =
    check_source-HasCaches g st i h (h.at_source i.src st e) ne
check_known-HasCaches g none i h e ne =
    let st = fresh_source i.boot in
    let c : IsCache g.id_cache_size st = record {
      agree = refl;
      distinct = tt;
      bounded = omega arith;
      named = refl;
    } in
    check_source-HasCaches (record g { sources = Map.set g.sources i.src st }) st i
      (set-HasCaches g i.src st h c) c ne

check_at_cases :
    (g : ReplayGuard) (i : CheckInput) (o : Option ℤ) (now : ℤ)
    → ((check_at g i o now).1 ≡ g)
      ⊎ (check_at g i o now ≡ check_known g (Map.get g.sources i.src) i)
unfolding check_at
check_at_cases g i none now = inl refl
check_at_cases g i (some t) now = ground arith

check_at-HasCaches :
    (g : ReplayGuard) (i : CheckInput) (o : Option ℤ) (now : ℤ)
    → HasCaches g
    → i.id ≢ ""
    → HasCaches (check_at g i o now).1
check_at-HasCaches g i o now h ne = elim (check_at_cases g i o now) [
  | inl same ↦ rw same h
  | inr known ↦ rw known (check_known-HasCaches g (Map.get g.sources i.src) i h refl ne)
]

-- The ids of a series of checks are not empty.
abbrev pub AreNamed : List (CheckInput × ℤ) → Type 0
AreNamed [] = Unit
AreNamed ((i, now) ∷ rest) = (i.id ≢ "") × AreNamed rest

module _ (date_parse : String → Option ℤ) where
  -- Whatever is checked, in whatever order and at whatever times, each source's set of seen ids and
  -- its queue stay one list, with no id twice, and no longer than the bound of the cache, provided
  -- that no id is the empty text and that this holds at the start.
  pub run-HasCaches :
      (g : ReplayGuard) (checks : List (CheckInput × ℤ))
      → HasCaches g
      → AreNamed checks
      → HasCaches (run date_parse g checks)
  unfolding run check
  run-HasCaches g [] h n = h
  run-HasCaches g ((i, now) ∷ rest) h n =
      run-HasCaches (check date_parse g i now).1 rest
        (check_at-HasCaches g i (date_parse i.ts) now h n.0) n.1
