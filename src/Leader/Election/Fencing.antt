-- ===== src/Leader/Election/Fencing.antt =====
-- The epoch as a fencing token: it only grows, and it belongs to one holder.
use railsentinel.Prelude.{
  ℕ, ◌+◌, ◌<◌, ◌≡◌, refl, ◌⊎◌, String, List, [], ◌∷◌, Option, none, some, All, arith, eq_iff,
  eq_refl,
}
use railsentinel.Prelude.Map
use railsentinel.Prelude.Map.{Map, get-set}
use railsentinel.Leader.Election.{
  LeaseRow, Lease, row_to_lease, returning, acquired_row, owned_row, expiring, try_acquire, renew,
  release,
}

-- What a process asks of the table.
pub data Request : Type 0 where
  acquire_for : ℕ → Request
  renew_for : ℕ → ℕ → Request
  give_up : ℕ → Request

pub record Call : Type 0 where
  pub holder : String
  pub request : Request
  pub now : ℕ

abbrev pub serve : String → String → Map LeaseRow → Request → ℕ → Option Lease × Map LeaseRow
serve role holder table (acquire_for ms) now = try_acquire role holder table ms now
serve role holder table (renew_for epoch ms) now = renew role holder table epoch ms now
serve role holder table (give_up epoch) now = (none, release role holder table epoch now)

abbrev pub call : String → Map LeaseRow → Call → Option Lease × Map LeaseRow
call role table c = serve role c.holder table c.request c.now

-- The epoch of a role, 0 where it has no row; and its holder
abbrev pub row_epoch : Option LeaseRow → ℕ
row_epoch none = 0
row_epoch (some row) = row.epoch

abbrev pub epoch_of : Map LeaseRow → String → ℕ
epoch_of table role = row_epoch (Map.get table role)

abbrev HeldBy : Option LeaseRow → String → Type 0
HeldBy none h = ⊥
HeldBy (some row) h = row.holder ≡ h

-- A lease against the table: it is past, or it is the current one and its holder holds the row.
abbrev Covered : Option LeaseRow → Lease → Type 0
Covered o l = (l.epoch < row_epoch o) ⊎ ((l.epoch ≡ row_epoch o) × HeldBy o l.holder)

-- A lease that has just been granted: a new epoch, or the current one, renewed by its holder.
abbrev Fresh : Option LeaseRow → Lease → Type 0
Fresh before l =
    (l.epoch ≡ row_epoch before + 1) ⊎ ((l.epoch ≡ row_epoch before) × HeldBy before l.holder)

abbrev pub written_or : Option LeaseRow → Option LeaseRow → Option LeaseRow
written_or none old = old
written_or (some row) old = some row

pub get-returning :
    (t : Map LeaseRow) (role : String) (w : Option LeaseRow)
    → Map.get (returning t role w).1 role ≡ written_or w (Map.get t role)
unfolding returning
get-returning t role none = refl
get-returning t role (some row) = ground (arith, get-set t role row role, eq_refl role)

-- What writing a row, or none, does to the row of the role
record Advances (role : String) (old w : Option LeaseRow) : Type 0 where
  keeps : (l : Lease) → Covered old l → Covered (written_or w old) l
  grants : (row : LeaseRow) → w ≡ some row → Fresh old (row_to_lease row role)

acquired_row-Advances :
    (role : String) (o : Option LeaseRow) (holder : String) (ms now : ℕ)
    → Advances role o (acquired_row o holder ms now)
unfolding acquired_row row_to_lease
acquired_row-Advances role none holder ms now = record {
  keeps = λ l c. ground arith;
  grants = λ row e. ground arith;
}
acquired_row-Advances role (some r) holder ms now = record {
  keeps = λ l c. ground arith;
  grants = λ row e. ground arith;
}

owned_row-Advances :
    (role : String) (o : Option LeaseRow) (holder : String) (epoch at : ℕ)
    → Advances role o (expiring (owned_row o holder epoch) at)
unfolding owned_row row_to_lease
owned_row-Advances role none holder epoch at = record {
  keeps = λ l c. c;
  grants = λ row e. absurd (ground arith);
}
owned_row-Advances role (some r) holder epoch at = record {
  keeps = λ l c. ground arith;
  grants = λ row e. ground (arith, eq_iff r.holder holder);
}

-- What a call does: leases that are covered stay covered, and a lease that it returns is covered.
module _ (role : String) (t : Map LeaseRow) where
  abbrev Safe : Option Lease × Map LeaseRow → Type 0
  Safe r =
      ((l : Lease) → Covered (Map.get t role) l → Covered (Map.get r.1 role) l)
      × ((l : Lease) → r.0 ≡ some l → Covered (Map.get r.1 role) l × Fresh (Map.get t role) l)

  returning-Safe :
      (w : Option LeaseRow) → Advances role (Map.get t role) w → Safe (returning t role w)
  unfolding returning row_to_lease
  returning-Safe w a = (
    λ l c. rw (get-returning t role w) (a.keeps l c),
    λ l e. rw (get-returning t role w) (lease w a l e),
  )
    where
      lease :
          (w : Option LeaseRow)
          → Advances role (Map.get t role) w
          → (l : Lease) → (returning t role w).0 ≡ some l
          → Covered (written_or w (Map.get t role)) l × Fresh (Map.get t role) l
      lease none a l e = absurd (ground arith)
      lease (some row) a l e = ground (arith, a.grants row refl)

  serve-Safe : (holder : String) (q : Request) (now : ℕ) → Safe (serve role holder t q now)
  unfolding try_acquire renew release
  serve-Safe holder (acquire_for ms) now =
      returning-Safe (acquired_row (Map.get t role) holder ms now)
        (acquired_row-Advances role (Map.get t role) holder ms now)
  serve-Safe holder (renew_for epoch ms) now =
      returning-Safe (expiring (owned_row (Map.get t role) holder epoch) (now + ms))
        (owned_row-Advances role (Map.get t role) holder epoch (now + ms))
  serve-Safe holder (give_up epoch) now =
      let w = expiring (owned_row (Map.get t role) holder epoch) now in
      silent w (returning-Safe w (owned_row-Advances role (Map.get t role) holder epoch now))
    where
      silent :
          (w : Option LeaseRow) → Safe (returning t role w) → Safe (none, (returning t role w).1)
      silent w s = (s.0, λ l e. absurd (ground arith))

abbrev pub with_lease : Option Lease → List Lease → List Lease
with_lease none ls = ls
with_lease (some l) ls = l ∷ ls

-- All leases that are granted over a series of calls, the last first
unfoldable pub history : String → Map LeaseRow → List Lease → List Call → List Lease × Map LeaseRow
history role t ls [] = (ls, t)
history role t ls (c ∷ cs) = let (o, t') = call role t c in history role t' (with_lease o ls) cs

-- Two leases of one epoch are of one holder.
abbrev pub Agrees : Lease → Lease → Type 0
Agrees l m = l.epoch ≡ m.epoch → l.holder ≡ m.holder

abbrev pub AllAgree : List Lease → Type 0
AllAgree [] = Unit
AllAgree (l ∷ ls) = All (Agrees l) ls × AllAgree ls

All-map : (P Q : Lease → Type 0) (ls : List Lease) → ((l : Lease) → P l → Q l) → All P ls → All Q ls
All-map P Q [] f a = tt
All-map P Q (l ∷ ls) f a = (f l a.0, All-map P Q ls f a.1)

Fresh-Agrees : (o : Option LeaseRow) (l m : Lease) → Fresh o l → Covered o m → Agrees l m
Fresh-Agrees none l m f c e = ground arith
Fresh-Agrees (some row) l m f c e = ground arith

history-Agrees :
    (role : String) (t : Map LeaseRow) (ls : List Lease) (cs : List Call)
    → All (Covered (Map.get t role)) ls
    → AllAgree ls
    → let (ls', t') = history role t ls cs in All (Covered (Map.get t' role)) ls' × AllAgree ls'
unfolding history
history-Agrees role t ls [] c a = (c, a)
history-Agrees role t ls (d ∷ cs) c a =
    let (keep, grant) = serve-Safe role t d.holder d.request d.now in
    let r = call role t d in
    history-Agrees role r.1 (with_lease r.0 ls) cs (covered r.0 grant (All-map _ _ ls keep c))
      (agree r.0 grant)
  where
    covered :
        (o : Option Lease)
        → ((l : Lease)
            → o ≡ some l
            → Covered (Map.get (call role t d).1 role) l × Fresh (Map.get t role) l)
        → All (Covered (Map.get (call role t d).1 role)) ls
        → All (Covered (Map.get (call role t d).1 role)) (with_lease o ls)
    covered none g k = k
    covered (some l) g k = ((g l refl).0, k)

    agree :
        (o : Option Lease)
        → ((l : Lease)
            → o ≡ some l
            → Covered (Map.get (call role t d).1 role) l × Fresh (Map.get t role) l)
        → AllAgree (with_lease o ls)
    agree none g = a
    agree (some l) g = (All-map _ _ ls (λ m. Fresh-Agrees (Map.get t role) l m (g l refl).1) c, a)

-- Whatever processes acquire, renew and release the lease of a role, in whatever order and whatever
-- the clock of the database says, any two leases of the same epoch that are granted from the empty
-- table on are of one holder: an epoch never belongs to two processes.
pub one_holder_per_epoch :
    (role : String) (calls : List Call) → AllAgree (history role [] [] calls).0
one_holder_per_epoch role calls = (history-Agrees role [] [] calls tt tt).1

-- The table after a series of calls
unfoldable pub table_after : String → Map LeaseRow → List Call → Map LeaseRow
table_after role t [] = t
table_after role t (c ∷ cs) = table_after role (call role t c).1 cs

past_stays :
    (role : String) (t : Map LeaseRow) (cs : List Call) (l : Lease)
    → Covered (Map.get t role) l
    → Covered (Map.get (table_after role t cs) role) l
unfolding table_after
past_stays role t [] l c = c
past_stays role t (d ∷ cs) l c =
    past_stays role (call role t d).1 cs l ((serve-Safe role t d.holder d.request d.now).0 l c)

stale_owner :
    (o : Option LeaseRow) (l : Lease) (holder : String) (epoch : ℕ)
    → epoch < l.epoch
    → Covered o l
    → owned_row o holder epoch ≡ none
unfolding owned_row
stale_owner none l holder epoch h k = refl
stale_owner (some row) l holder epoch h k = ground arith

-- A holder whose epoch has been passed cannot come back: once a lease of a later epoch has been
-- granted by a call, and after any calls that follow, a renewal with the earlier epoch returns no lease
-- and leaves the table as it is.
pub deposed_cannot_renew :
    (role holder : String) (t : Map LeaseRow) (c : Call) (l : Lease) (cs : List Call)
    (epoch ms now : ℕ)
    → (call role t c).0 ≡ some l
    → epoch < l.epoch
    → let t' = table_after role (call role t c).1 cs in
      renew role holder t' epoch ms now ≡ (none, t')
unfolding renew
deposed_cannot_renew role holder t c l cs epoch ms now g h =
    let t' = table_after role (call role t c).1 cs in
    let past =
      past_stays role (call role t c).1 cs l
        ((serve-Safe role t c.holder c.request c.now).1 l g).0 in
    rw (stale_owner (Map.get t' role) l holder epoch h past) (unfold returning in refl)
