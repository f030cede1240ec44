-- ===== src/Dashboard/Selectors/Pending.antt =====
-- apps/cco-dashboard/src/state/selectors.ts: the state of the line against the list of what is pending.
pub mod Items
use mathlib.Core.Path.{subst}
use railsentinel.Prelude.Member.{Has, Has-append, Has-map-keep, keep-eq, map-eq}
use railsentinel.Prelude.{
  none, some, false, str_eq, leb, keep, ap, ◌⊎◌, ◌+◌, ◌<◌, ◌≡◌, ◌↔◌, refl, List, [], ◌∷◌, ◌++◌, map,
  Bool, true, not, arith, length, length-append, find, count_if, Bool-cases, inl, inr,
}
use railsentinel.Prelude.Map.{is_some}
use railsentinel.Dashboard.State.{
  RestrictionState, TrainState, at_restriction, train_ahead, AlarmState, CcoState,
}
use railsentinel.Dashboard.Seeds.{EdgeNode}
use railsentinel.Dashboard.Selectors.{
  PendingItem, pending_alarm, pending_restriction, pending_edge, is_held_by, alarm_rank,
  insert_alarm, sort_alarms, sorted_alarms, alarm_summary, active_restrictions, edge_summary,
  pending_items, LineStatus, is_urgent, line_status,
}
use railsentinel.Dashboard.Selectors.Pending.Items.{
  Has-sort_alarms, alarm_items, count_if-sort_alarms, edge_items, held_item, is_in_force,
  is_in_force-eq, is_offline, is_offline-eq, is_unacked, is_unacked-eq, length-keep, length-three,
  pending_items-eq, restriction_items, waits_at,
}

-- What stands on the list, and is held by it
pub record IsComplete (nodes : List EdgeNode) (s : CcoState) : Type 0 where
  pub alarms :
      (a : AlarmState)
      → Has (pending_alarm a) (pending_items nodes s) ↔ (Has a s.alarms × (is_unacked a ≡ true))
  pub restrictions :
      (r : RestrictionState) (held : List TrainState)
      → Has (pending_restriction r held) (pending_items nodes s)
        ↔ ((Has r s.restrictions × (is_in_force r ≡ true)) × (keep (waits_at r) s.trains ≡ held))
  pub edges :
      (n : EdgeNode)
      → Has (pending_edge n) (pending_items nodes s) ↔ (Has n nodes × (is_offline n ≡ true))

module _ (nodes : List EdgeNode) (s : CcoState) where
  -- An item stands in one of the parts.
  Has-pending_items :
      (x : PendingItem)
      → Has x (pending_items nodes s)
        ↔ ((Has x (alarm_items s) ⊎ Has x (restriction_items s)) ⊎ Has x (edge_items nodes))
  Has-pending_items x =
      let (to, from) = Has-append x (alarm_items s ++ restriction_items s) (edge_items nodes) in
      let (to', from') = Has-append x (alarm_items s) (restriction_items s) in
      rw (pending_items-eq nodes s) (
        λ h. elim (to h) [ inl m ↦ inl (to' m) | inr m ↦ inr m ],
        λ h. elim h [ inl m ↦ from (inl (from' m)) | inr m ↦ from (inr m) ],
      )

  -- What an item in each of the parts is
  in_alarms :
      (x : PendingItem)
      → Has x (alarm_items s) ↔ (
          (a : AlarmState) × (Has a (sort_alarms s.alarms) × (is_unacked a ≡ true))
          × (pending_alarm a ≡ x))
  in_alarms x = Has-map-keep pending_alarm is_unacked x (sort_alarms s.alarms)

  in_restrictions :
      (x : PendingItem)
      → Has x (restriction_items s) ↔ (
          (r : RestrictionState) × (Has r s.restrictions × (is_in_force r ≡ true))
          × (held_item s r ≡ x))
  in_restrictions x = Has-map-keep (held_item s) is_in_force x s.restrictions

  in_edges :
      (x : PendingItem)
      → Has x (edge_items nodes)
        ↔ ((n : EdgeNode) × (Has n nodes × (is_offline n ≡ true)) × (pending_edge n ≡ x))
  in_edges x = Has-map-keep pending_edge is_offline x nodes

  pending_items-IsComplete : IsComplete nodes s
  pending_items-IsComplete = record {
    alarms = λ a. (
      λ h. elim ((Has-pending_items (pending_alarm a)).0 h) [
        | inl (inl m) ↦
            let (b, (there, u), e) = (in_alarms (pending_alarm a)).0 m in
            let same : b ≡ a = ground (arith, e) in
            subst (λ z. Has z s.alarms × (is_unacked z ≡ true)) same
              ((Has-sort_alarms b s.alarms).0 there, u)
        | inl (inr m) ↦
            let (r, h, e) = (in_restrictions (pending_alarm a)).0 m in absurd (ground (arith, e))
        | inr m ↦ let (n, h, e) = (in_edges (pending_alarm a)).0 m in absurd (ground (arith, e))
      ],
      λ (m, u). (Has-pending_items (pending_alarm a)).1 (
          inl (
            inl
              ((in_alarms (pending_alarm a)).1 (a, ((Has-sort_alarms a s.alarms).1 m, u), refl)))),
    );
    restrictions = λ r held. (
      λ h. elim ((Has-pending_items (pending_restriction r held)).0 h) [
        | inl (inl m) ↦
            let (a, h, e) = (in_alarms (pending_restriction r held)).0 m in
            absurd (ground (arith, e))
        | inl (inr m) ↦
            let (q, there, e) = (in_restrictions (pending_restriction r held)).0 m in
            let same : q ≡ r = ground (arith, e) in
            let holds : keep (waits_at q) s.trains ≡ held = ground (arith, e) in
            subst
              (λ z.
                (Has z s.restrictions × (is_in_force z ≡ true))
                × (keep (waits_at z) s.trains ≡ held))
              same (there, holds)
        | inr m ↦
            let (n, h, e) = (in_edges (pending_restriction r held)).0 m in
            absurd (ground (arith, e))
      ],
      λ (m, e). (Has-pending_items (pending_restriction r held)).1 (
          inl (
            inr (
              (in_restrictions (pending_restriction r held)).1
                (r, m, ap (pending_restriction r) e)))),
    );
    edges = λ n. (
      λ h. elim ((Has-pending_items (pending_edge n)).0 h) [
        | inl (inl m) ↦
            let (a, h, e) = (in_alarms (pending_edge n)).0 m in absurd (ground (arith, e))
        | inl (inr m) ↦
            let (r, h, e) = (in_restrictions (pending_edge n)).0 m in absurd (ground (arith, e))
        | inr m ↦
            let (k, there, e) = (in_edges (pending_edge n)).0 m in
            let same : k ≡ n = ground (arith, e) in
            subst (λ z. Has z nodes × (is_offline z ≡ true)) same there
      ],
      λ m.
          (Has-pending_items (pending_edge n)).1 (inr ((in_edges (pending_edge n)).1 (n, m, refl))),
    );
  }

  length-pending_items :
      length (pending_items nodes s)
      ≡ count_if is_unacked s.alarms
        + count_if is_in_force s.restrictions
        + count_if is_offline nodes
  length-pending_items = rw (pending_items-eq nodes s) (
      let parts : length (alarm_items s ++ restriction_items s ++ edge_items nodes)
          ≡ length (keep is_unacked (sort_alarms s.alarms))
            + length (keep is_in_force s.restrictions)
            + length (keep is_offline nodes) =
        length-three _ _ _ (keep is_unacked (sort_alarms s.alarms))
          (keep is_in_force s.restrictions) (keep is_offline nodes) in
      omega (
        arith,
        parts,
        length-keep is_unacked (sort_alarms s.alarms),
        count_if-sort_alarms is_unacked s.alarms,
        length-keep is_in_force s.restrictions,
        length-keep is_offline nodes,
      ))

urgent_is_unacked :
    (xs : List AlarmState) → is_some (find is_urgent xs) ≡ true → 0 < count_if is_unacked xs
urgent_is_unacked [] h = ground arith
urgent_is_unacked (a ∷ xs) h = elim (Bool-cases (is_some a.ack)) [
  | inl e ↦ ground (arith, urgent_is_unacked xs)
  | inr e ↦ ground (arith, is_unacked-eq a)
]

count_if-eq :
    {A : Type 0} (p q : A → Bool) (xs : List A)
    → ((x : A) → p x ≡ q x)
    → count_if p xs ≡ count_if q xs
count_if-eq p q [] h = refl
count_if-eq p q (x ∷ xs) h = rw (h x, count_if-eq p q xs h) refl

-- The list of pending items holds an item of each alarm that is not acknowledged, of each restriction that
-- is not cleared, with the trams that are held by it, and of each edge node that is offline, and no other;
-- there are as many items as these together; and the line is reported as in order just when the list is
-- empty.
pub line_status_ok :
    (nodes : List EdgeNode) (s : CcoState)
    → IsComplete nodes s
      × (length (pending_items nodes s)
          ≡ count_if is_unacked s.alarms
            + count_if is_in_force s.restrictions
            + count_if is_offline nodes)
      × ((line_status nodes s ≡ LineStatus.ok) ↔ (length (pending_items nodes s) ≡ 0))
unfolding line_status alarm_summary active_restrictions edge_summary
line_status_ok nodes s =
    let size = length-pending_items nodes s in
    (
      pending_items-IsComplete nodes s,
      size,
      (let alarms =
            count_if-eq (λ (a : AlarmState). not (is_some a.ack)) is_unacked s.alarms
              is_unacked-eq in
          let restrictions =
            keep-eq (λ (r : RestrictionState). not (is_some r.cleared)) is_in_force s.restrictions
              is_in_force-eq in
          let edges = keep-eq (λ (n : EdgeNode). not n.ok) is_offline nodes is_offline-eq in
          rw (alarms, restrictions, edges)
            (ground (
              arith,
              size,
              urgent_is_unacked s.alarms,
              length-keep is_in_force s.restrictions,
              length-keep is_offline nodes,
            ))),
    )
