-- ===== src/Ats/Fleet/Presence.antt =====
-- A train that falls silent is not taken for absent.
use railsentinel.Prelude.{
  ℕ, ◌≡◌, ◌≢◌, refl, ap, ◌⊎◌, inl, inr, String, List, [], ◌∷◌, map, some, Bool, true, All, arith,
  keep, contains, str_eq, eq_iff, eq_refl, Bool-cases,
}
use railsentinel.Prelude.Map
use railsentinel.Prelude.Map.{Map, get-set}
use railsentinel.Ats.Runtime.{Runtime}
use railsentinel.Ats.Fleet.{
  FleetRegistry, TrainPosition, TrainState, upsert, refreshed, in_sections, is_stale,
}

abbrev pub IsIn : {A : Type 0} → A → List A → Type 0
IsIn x [] = ⊥
IsIn x (y ∷ ys) = (y ≡ x) ⊎ IsIn x ys

get-IsIn :
    (m : Map TrainState) (k : String) (v : TrainState)
    → Map.get m k ≡ some v
    → IsIn v (Map.values m)
unfolding Map.get
get-IsIn [] k v h = absurd (ground arith)
get-IsIn ((j, w) ∷ m) k v h = elim (Bool-cases (str_eq j k)) [
  | inl here ↦ inl (ground arith)
  | inr there ↦ inr (get-IsIn m k v (rw there at h))
]

keep-IsIn :
    {A : Type 0} (p : A → Bool) (x : A) (xs : List A) → IsIn x xs → p x ≡ true → IsIn x (keep p xs)
keep-IsIn p x [] i h = i
keep-IsIn p x (y ∷ ys) (inl e) h = rw (e, h) (inl refl)
keep-IsIn p x (y ∷ ys) (inr i) h = elim (Bool-cases (p y)) [
  | inl yes' ↦ rw yes' (inr (keep-IsIn p x ys i h))
  | inr no' ↦ rw no' (keep-IsIn p x ys i h)
]

map-IsIn : {A B : Type 0} (f : A → B) (x : A) (xs : List A) → IsIn x xs → IsIn (f x) (map f xs)
map-IsIn f x [] i = absurd i
map-IsIn f x (y ∷ ys) (inl e) = inl (ap f e)
map-IsIn f x (y ∷ ys) (inr i) = inr (map-IsIn f x ys i)

-- A report of a position, with the time of its message
pub record Report : Type 0 where
  pub position : TrainPosition
  pub at : String

pub upsert_all : FleetRegistry → List Report → FleetRegistry
upsert_all fleet [] = fleet
upsert_all fleet (r ∷ rs) = upsert_all (upsert fleet r.position r.at).1 rs

upsert_keeps :
    (fleet : FleetRegistry) (id : String) (v : TrainState) (rs : List Report)
    → Map.get fleet id ≡ some v
    → All (λ r. r.position.train_id ≢ id) rs
    → Map.get (upsert_all fleet rs) id ≡ some v
unfolding upsert_all upsert
upsert_keeps fleet id v [] h o = h
upsert_keeps fleet id v (r ∷ rs) h o =
    upsert_keeps (upsert fleet r.position r.at).1 id v rs
      (ground (
        arith,
        get-set fleet r.position.train_id (upsert fleet r.position r.at).0 id,
        eq_iff r.position.train_id id,
        h,
        o.0,
      ))
      o.1

-- A train stays among the occupants of the section that it last reported, however long it has been
-- silent and whatever other trains report since: it is only marked as stale once its report is more
-- than 15 seconds old, and nothing else of it changes.
pub silent_train_stays :
    (runtime : Runtime) (fleet : FleetRegistry) (pos : TrainPosition) (at : String)
    (others : List Report) (sections : List String) (now : ℕ)
    → All (λ r. r.position.train_id ≢ pos.train_id) others
    → contains sections pos.section_id ≡ true
    → let (state, fleet') = upsert fleet pos at in
      IsIn
        (record state { stale = is_stale (runtime.date_parse at) now })
        (in_sections runtime (upsert_all fleet' others) sections now)
unfolding in_sections upsert
silent_train_stays runtime fleet pos at others sections now o h =
    let state = (upsert fleet pos at).0 in
    let found =
      upsert_keeps (upsert fleet pos at).1 pos.train_id state others
        (ground (arith, get-set fleet pos.train_id state pos.train_id, eq_refl pos.train_id)) o in
    map-IsIn (refreshed runtime now) state _ (
      keep-IsIn (λ t. contains sections t.section_id) state _ (get-IsIn _ pos.train_id state found)
        h)
