-- ===== src/Leader/LeaseHolder/Lead.antt =====
-- When a holder leads, and what its listeners are told.
use railsentinel.Prelude.{
  ℕ, ◌≡◌, refl, ◌⊎◌, inl, inr, List, [], ◌∷◌, ◌++◌, Option, none, some, true, false, not, arith,
  if◌then◌else◌, Bool-cases, ◌||◌,
}
use railsentinel.Prelude.Map.{Map, is_some}
use railsentinel.Leader.Election.{LeaseRow, Lease}
use railsentinel.Leader.LeaseHolder.{
  Notice, LeaseHolder, Answer, answered, is_leader, set_epoch, receive_answer, begin_stop, end_stop,
  answered_epoch, same_epoch, start,
}

-- After an answer the holder leads exactly if the answer is a lease, and then with the epoch of that
-- lease; an answer without a lease and a failed query end the lead. The timer of a holder that runs is
-- set, to the interval of renewal for a leader and to that of retrial for another; that of a stopped
-- holder is not.
pub receive_answer-is_leader :
    (h : LeaseHolder) (a : Answer)
    → let h' = receive_answer h a in
      (h'.epoch ≡ answered_epoch a)
      × (is_leader h' ≡ is_some (answered_epoch a))
      × (h'.timer ≡ (
          if h.stopped
          then h.timer
          else some (if is_leader h' then h.renew_interval_ms else h.retry_interval_ms)))
unfolding receive_answer
receive_answer-is_leader h a = ground arith

-- The last that the listeners were told is how the holder stands.
abbrev LastNotice : List Notice → Option ℕ → Type 0
LastNotice [] e = ⊥
LastNotice (n ∷ []) e = (n.epoch ≡ e) × (n.is_leader ≡ is_some e)
LastNotice (n ∷ m ∷ ns) e = LastNotice (m ∷ ns) e

LastNotice-snoc :
    (ns : List Notice) (n : Notice) (e : Option ℕ)
    → n.epoch ≡ e
    → n.is_leader ≡ is_some e
    → LastNotice (ns ++ n ∷ []) e
LastNotice-snoc [] n e p q = (p, q)
LastNotice-snoc (m ∷ []) n e p q = (p, q)
LastNotice-snoc (m ∷ m' ∷ ns) n e p q = LastNotice-snoc (m' ∷ ns) n e p q

abbrev pub IsInformed : LeaseHolder → Type 0
IsInformed h = ((h.ever_notified ≡ false) × (h.epoch ≡ none)) ⊎ LastNotice h.notified h.epoch

same_epoch-eq : (a b : Option ℕ) → same_epoch a b ≡ true → a ≡ b
same_epoch-eq a b h = ground arith

set_epoch-informs :
    (h : LeaseHolder) (e : Option ℕ) → IsInformed h → LastNotice (set_epoch h e).notified e
unfolding set_epoch
set_epoch-informs h e i = elim (Bool-cases (not (same_epoch e h.epoch) || not h.ever_notified)) [
  | inl changed ↦
      rw changed
        (LastNotice-snoc h.notified (record { is_leader = is_some e; epoch = e }) e refl refl)
  | inr same ↦ rw same (unchanged i (same_epoch-eq e h.epoch (ground arith)) (ground arith))
]
  where
    unchanged : IsInformed h → e ≡ h.epoch → h.ever_notified ≡ true → LastNotice h.notified e
    unchanged (inl (n, _)) p q = absurd (ground arith)
    unchanged (inr l) p q = rw p l

-- What happens to a holder: it is started, an answer arrives, `stop` is called, `stop` is answered.
pub data Event : Type 0 where
  starts : Event
  answer_arrives : Answer → Event
  stop_called : Map LeaseRow → ℕ → Event
  stop_answered : Event

unfoldable pub act : LeaseHolder → Event → LeaseHolder
act h starts = start h
act h (answer_arrives a) = receive_answer h a
act h (stop_called table now) = (begin_stop h table now).0
act h stop_answered = end_stop h

unfoldable pub run : LeaseHolder → List Event → LeaseHolder
run h [] = h
run h (e ∷ es) = run (act h e) es

receive_answer_notes :
    (h : LeaseHolder) (a : Answer)
    → ((receive_answer h a).notified ≡ (set_epoch h (answered_epoch a)).notified)
      × ((receive_answer h a).epoch ≡ answered_epoch a)
unfolding receive_answer
receive_answer_notes h a = ground arith

act-IsInformed : (h : LeaseHolder) (e : Event) → IsInformed h → IsInformed (act h e)
unfolding act start begin_stop end_stop
act-IsInformed h starts i = i
act-IsInformed h (answer_arrives a) i =
    let (n, e) = receive_answer_notes h a in
    inr (rw (n, e) (set_epoch-informs h (answered_epoch a) i))
act-IsInformed h (stop_called table now) i = i
act-IsInformed h stop_answered i = inr (set_epoch-informs h none i)

-- Whatever happens to a holder, in whatever order, either its listeners have never been told anything
-- and it has no epoch, or the last that they were told is whether it leads and its epoch; this holds
-- after if it holds before, as it does for a new holder.
pub run-IsInformed : (h : LeaseHolder) (es : List Event) → IsInformed h → IsInformed (run h es)
unfolding run
run-IsInformed h [] i = i
run-IsInformed h (e ∷ es) i = run-IsInformed (act h e) es (act-IsInformed h e i)

-- The first answer is always announced, also when it is that another process leads.
pub first_answer_notifies :
    (h : LeaseHolder) (a : Answer)
    → h.ever_notified ≡ false
    → (receive_answer h a).notified
      ≡ h.notified
        ++ record { is_leader = is_some (answered_epoch a); epoch = answered_epoch a } ∷ []
unfolding receive_answer
first_answer_notifies h a e = ground arith

-- A holder that is stopped while its query for the lead is under way, and that then is granted the
-- lease, leads although it is stopped: `stop` leaves the table as it is, for there is no epoch to
-- release, and no timer is set that would renew the lease or end the lead.
pub stop_in_flight :
    (h : LeaseHolder) (table : Map LeaseRow) (now : ℕ) (l : Lease)
    → h.epoch ≡ none
    → let (h', table') = begin_stop h table now in
      let h'' = receive_answer h' (answered (some l)) in
      (table' ≡ table) × (is_leader h'' ≡ true) × (h''.stopped ≡ true) × (h''.timer ≡ none)
unfolding begin_stop receive_answer
stop_in_flight h table now l e = ground arith
