-- ===== src/Dashboard/Selectors/Pending/Items.antt =====
-- apps/cco-dashboard/src/state/selectors.ts: the three parts of the list of pending items.
use railsentinel.Prelude.Member.{Has, keep-eq, map-eq}
use railsentinel.Prelude.{
  none, some, false, str_eq, leb, keep, ap, ◌+◌, ◌≡◌, ◌↔◌, refl, List, [], ◌∷◌, ◌++◌, map, Bool,
  true, not, arith, length, length-append, count_if, Bool-cases, inl, inr,
}
use railsentinel.Prelude.Map.{is_some}
use railsentinel.Dashboard.State.{
  RestrictionState, TrainState, at_restriction, train_ahead, AlarmState, CcoState,
}
use railsentinel.Dashboard.Seeds.{EdgeNode}
use railsentinel.Dashboard.Selectors.{
  PendingItem, pending_alarm, pending_restriction, pending_edge, is_held_by, alarm_rank,
  insert_alarm, sort_alarms, sorted_alarms, active_restrictions, edge_summary, pending_items,
}

pub length-map : {A B : Type 0} (f : A → B) (xs : List A) → length (map f xs) ≡ length xs
length-map f [] = refl
length-map f (x ∷ xs) = omega (arith, length-map f xs)

pub length-three :
    {A B C D : Type 0} (f : A → D) (g : B → D) (h : C → D) (xs : List A) (ys : List B) (zs : List C)
    → length (map f xs ++ map g ys ++ map h zs) ≡ length xs + length ys + length zs
length-three f g h xs ys zs = omega (
  arith,
  length-append (map f xs ++ map g ys) (map h zs),
  length-append (map f xs) (map g ys),
  length-map f xs,
  length-map g ys,
  length-map h zs,
)

pub length-keep : {A : Type 0} (p : A → Bool) (xs : List A) → length (keep p xs) ≡ count_if p xs
length-keep p [] = refl
length-keep p (x ∷ xs) = ground (arith, length-keep p xs)

pub count_if-insert_alarm :
    (p : AlarmState → Bool) (a : AlarmState) (as' : List AlarmState)
    → count_if p (insert_alarm a as') ≡ count_if p (a ∷ as')
unfolding insert_alarm
count_if-insert_alarm p a [] = refl
count_if-insert_alarm p a (b ∷ bs) = ground (arith, count_if-insert_alarm p a bs)

pub count_if-sort_alarms :
    (p : AlarmState → Bool) (xs : List AlarmState) → count_if p (sort_alarms xs) ≡ count_if p xs
unfolding sort_alarms
count_if-sort_alarms p [] = refl
count_if-sort_alarms p (a ∷ xs) =
    ground (arith, count_if-insert_alarm p a (sort_alarms xs), count_if-sort_alarms p xs)

-- What an item stands for, and which trams a restriction holds
abbrev pub is_unacked : AlarmState → Bool
is_unacked a = elim a.ack [ none ↦ true | some _ ↦ false ]

abbrev pub is_in_force : RestrictionState → Bool
is_in_force r = elim r.cleared [ none ↦ true | some _ ↦ false ]

abbrev pub is_offline : EdgeNode → Bool
is_offline n = elim n.ok [ true ↦ false | false ↦ true ]

abbrev pub waits_at : RestrictionState → TrainState → Bool
waits_at r t = elim t.hold [
  | none ↦ false
  | some (at_restriction id section_id) ↦ str_eq id r.id
  | some (train_ahead id) ↦ false
]

pub Has-insert_alarm :
    (x a : AlarmState) (as' : List AlarmState) → Has x (insert_alarm a as') ↔ Has x (a ∷ as')
unfolding insert_alarm
Has-insert_alarm x a [] = (λ h. h, λ h. h)
Has-insert_alarm x a (b ∷ bs) =
    let (to, from) = Has-insert_alarm x a bs in
    elim (Bool-cases (leb (alarm_rank a) (alarm_rank b))) [
      | inl first ↦ rw first (λ h. h, λ h. h)
      | inr after ↦ rw after (
        λ h. elim h [
          | inl e ↦ inr (inl e)
          | inr r ↦ elim (to r) [ inl e ↦ inl e | inr m ↦ inr (inr m) ]
        ],
        λ h. elim h [
          | inl e ↦ inr (from (inl e))
          | inr r ↦ elim r [ inl e ↦ inl e | inr m ↦ inr (from (inr m)) ]
        ],
      )
    ]

pub Has-sort_alarms : (x : AlarmState) (as' : List AlarmState) → Has x (sort_alarms as') ↔ Has x as'
unfolding sort_alarms
Has-sort_alarms x [] = (λ h. h, λ h. h)
Has-sort_alarms x (a ∷ as') =
    let (to, from) = Has-sort_alarms x as' in
    let (to', from') = Has-insert_alarm x a (sort_alarms as') in
    (
      λ h. elim (to' h) [ inl e ↦ inl e | inr m ↦ inr (to m) ],
      λ h. elim h [ inl e ↦ from' (inl e) | inr m ↦ from' (inr (from m)) ],
    )

pub is_unacked-eq : (a : AlarmState) → not (is_some a.ack) ≡ is_unacked a
is_unacked-eq a = ground arith

pub is_in_force-eq : (r : RestrictionState) → not (is_some r.cleared) ≡ is_in_force r
is_in_force-eq r = ground arith

pub is_offline-eq : (n : EdgeNode) → not n.ok ≡ is_offline n
is_offline-eq n = ground arith

pub waits_at-eq : (r : RestrictionState) (t : TrainState) → is_held_by r t.hold ≡ waits_at r t
waits_at-eq r t = ground arith

-- The three parts of the list
abbrev pub alarm_items : CcoState → List PendingItem
alarm_items s = map pending_alarm (keep is_unacked (sort_alarms s.alarms))

abbrev pub held_item : CcoState → RestrictionState → PendingItem
held_item s r = pending_restriction r (keep (waits_at r) s.trains)

abbrev pub restriction_items : CcoState → List PendingItem
restriction_items s = map (held_item s) (keep is_in_force s.restrictions)

abbrev pub edge_items : List EdgeNode → List PendingItem
edge_items nodes = map pending_edge (keep is_offline nodes)

pub pending_items-eq :
    (nodes : List EdgeNode) (s : CcoState)
    → pending_items nodes s ≡ alarm_items s ++ restriction_items s ++ edge_items nodes
unfolding pending_items sorted_alarms active_restrictions edge_summary
pending_items-eq nodes s =
    rw
      (
        keep-eq (λ (a : AlarmState). not (is_some a.ack)) is_unacked (sort_alarms s.alarms)
            is_unacked-eq,
        keep-eq (λ (r : RestrictionState). not (is_some r.cleared)) is_in_force s.restrictions
            is_in_force-eq,
        keep-eq (λ (n : EdgeNode). not n.ok) is_offline nodes is_offline-eq,
        map-eq
            (λ (r : RestrictionState).
              pending_restriction r (keep (λ (t : TrainState). is_held_by r t.hold) s.trains))
            (held_item s) (keep is_in_force s.restrictions)
            (λ r. ap (pending_restriction r) (
              keep-eq (λ (t : TrainState). is_held_by r t.hold) (waits_at r) s.trains
                (waits_at-eq r))),
      )
      refl
