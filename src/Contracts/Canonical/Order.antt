-- ===== src/Contracts/Canonical/Order.antt =====
-- packages/contracts/src/canonical.ts: the text does not depend on the order of the fields.
use railsentinel.Prelude.{
  ℕ, ◌≡◌, ◌≢◌, refl, sym, ap, ◌∙◌, inl, inr, String, List, [], ◌∷◌, Option, none, some, Bool, true,
  false, arith, Bool-cases, if◌then◌else◌, ◌>>=◌,
}
use railsentinel.Prelude.Text.{◌+++◌}
use railsentinel.Contracts.Canonical.{
  Value, array, object, Items, nil, cons, Fields, end, field, units_le, insert_key, sort_keys, join,
  members, is_absent, canonicalize, canonicalize_items, canonicalize_fields,
}

units_le_total : (a b : List ℕ) → units_le a b ≡ false → units_le b a ≡ true
unfolding units_le
units_le_total [] b h = ground arith
units_le_total (x ∷ xs) [] h = refl
units_le_total (x ∷ xs) (y ∷ ys) h = ground (arith, units_le_total xs ys)

units_le_antisym : (a b : List ℕ) → units_le a b ≡ true → units_le b a ≡ true → a ≡ b
unfolding units_le
units_le_antisym [] [] h k = refl
units_le_antisym [] (y ∷ ys) h k = ground arith
units_le_antisym (x ∷ xs) [] h k = ground arith
units_le_antisym (x ∷ xs) (y ∷ ys) h k = ground (arith, units_le_antisym xs ys)

units_le_trans : (a b c : List ℕ) → units_le a b ≡ true → units_le b c ≡ true → units_le a c ≡ true
unfolding units_le
units_le_trans [] b c h k = refl
units_le_trans (x ∷ xs) [] c h k = ground arith
units_le_trans (x ∷ xs) (y ∷ ys) [] h k = ground arith
units_le_trans (x ∷ xs) (y ∷ ys) (z ∷ zs) h k = ground (arith, units_le_trans xs ys zs)

-- Of two keys one comes first.
units_le_flip : (a b : List ℕ) → a ≢ b → units_le a b ≡ true → units_le b a ≡ false
units_le_flip a b ne h = elim (Bool-cases (units_le b a)) [
  | inl k ↦ absurd (ne (units_le_antisym a b h k))
  | inr k ↦ k
]

-- with the smaller key first
insert_key_ordered :
    (p q : List ℕ × String) (l : List (List ℕ × String))
    → units_le p.0 q.0 ≡ true
    → units_le q.0 p.0 ≡ false
    → insert_key p (insert_key q l) ≡ insert_key q (insert_key p l)
unfolding insert_key
insert_key_ordered p q [] a b = rw (a, b) refl
insert_key_ordered p q (r ∷ l) a b = elim (Bool-cases (units_le q.0 r.0)) [
  | inl d ↦ rw (d, units_le_trans p.0 q.0 r.0 a d, a, b, insert_key) (rw (d, insert_key) refl)
  | inr d ↦ elim (Bool-cases (units_le p.0 r.0)) [
    | inl c ↦ rw (c, d, b, insert_key) (rw c refl)
    | inr c ↦ rw (c, d, insert_key) (rw c (ap (λ x. r ∷ x) (insert_key_ordered p q l a b)))
  ]
]

insert_key_swap :
    (p q : List ℕ × String) (l : List (List ℕ × String))
    → p.0 ≢ q.0
    → insert_key p (insert_key q l) ≡ insert_key q (insert_key p l)
insert_key_swap p q l ne = elim (Bool-cases (units_le p.0 q.0)) [
  | inl e ↦ insert_key_ordered p q l e (units_le_flip p.0 q.0 ne e)
  | inr e ↦ sym (insert_key_ordered q p l (units_le_total p.0 q.0 e) e)
]

mutual
  -- The same value, but for the order of the fields, at any depth
  pub data Reordered : Value → Value → Type 0 where
    same : {v : Value} → Reordered v v
    in_array : {xs ys : Items} → ReorderedItems xs ys → Reordered (array xs) (array ys)
    in_object : {fs gs : Fields} → ReorderedFields fs gs → Reordered (object fs) (object gs)

  pub data ReorderedItems : Items → Items → Type 0 where
    nil_nil : ReorderedItems nil nil
    cons_cons :
        {v w : Value} {xs ys : Items}
        → Reordered v w
        → ReorderedItems xs ys
        → ReorderedItems (cons v xs) (cons w ys)

  pub data ReorderedFields : Fields → Fields → Type 0 where
    end_end : ReorderedFields end end
    field_field :
        {v w : Value} {fs gs : Fields} (k : List ℕ)
        → Reordered v w
        → ReorderedFields fs gs
        → ReorderedFields (field k v fs) (field k w gs)
    swapped :
        (j k : List ℕ) (v w : Value) (fs : Fields)
        → j ≢ k
        → ReorderedFields (field j v (field k w fs)) (field k w (field j v fs))
    followed_by :
        {fs gs hs : Fields} → ReorderedFields fs gs → ReorderedFields gs hs → ReorderedFields fs hs

-- What `canonicalize` makes of the printed fields, up to their order
abbrev sorted : Option (List (List ℕ × String)) → Option (List (List ℕ × String))
sorted o = o >>= λ ps. some (sort_keys ps)

is_absent-Reordered : (v w : Value) → Reordered v w → is_absent v ≡ is_absent w
is_absent-Reordered v w same = refl
is_absent-Reordered v w (in_array r) = refl
is_absent-Reordered v w (in_object r) = refl

-- A field put among sorted ones, unless it is absent
abbrev field_sorted :
    List ℕ
    → Bool
    → Option String
    → Option (List (List ℕ × String))
    → Option (List (List ℕ × String))
field_sorted k gone printed others =
    if gone then others else printed >>= λ t. others >>= λ ps. some (insert_key (k, t) ps)

sorted-field_sorted :
    (k : List ℕ) (gone : Bool) (printed : Option String) (others : Option (List (List ℕ × String)))
    → sorted (if gone then others else printed >>= λ t. others >>= λ ps. some ((k, t) ∷ ps))
      ≡ field_sorted k gone printed (sorted others)
unfolding sort_keys
sorted-field_sorted k true printed others = refl
sorted-field_sorted k false none others = refl
sorted-field_sorted k false (some t) none = refl
sorted-field_sorted k false (some t) (some ps) = refl

field_sorted_swap :
    (j k : List ℕ) (b c : Bool) (s t : Option String) (others : Option (List (List ℕ × String)))
    → j ≢ k
    → field_sorted j b s (field_sorted k c t others)
      ≡ field_sorted k c t (field_sorted j b s others)
field_sorted_swap j k true c s t others ne = refl
field_sorted_swap j k false true s t others ne = refl
field_sorted_swap j k false false none none others ne = refl
field_sorted_swap j k false false none (some t) none ne = refl
field_sorted_swap j k false false none (some t) (some ps) ne = refl
field_sorted_swap j k false false (some s) none others ne = refl
field_sorted_swap j k false false (some s) (some t) none ne = refl
field_sorted_swap j k false false (some s) (some t) (some ps) ne =
    ap some (insert_key_swap (j, s) (k, t) ps ne)

module _ (quote : List ℕ → String) where
  sorted_field :
      (k : List ℕ) (v : Value) (fs : Fields)
      → sorted (canonicalize_fields quote (field k v fs))
        ≡ field_sorted k
            (is_absent v)
            (canonicalize quote v)
            (sorted (canonicalize_fields quote fs))
  unfolding canonicalize
  sorted_field k v fs =
      sorted-field_sorted k (is_absent v) (canonicalize quote v) (canonicalize_fields quote fs)

  -- the text of an object, from its sorted fields
  abbrev braced : Option (List (List ℕ × String)) → Option String
  braced o = o >>= λ ps. some ("{" +++ join (members quote ps) +++ "}")

  braced-sorted :
      (o : Option (List (List ℕ × String)))
      → (o >>= λ ps. some ("{" +++ join (members quote (sort_keys ps)) +++ "}")) ≡ braced (sorted o)
  braced-sorted none = refl
  braced-sorted (some ps) = refl

  abbrev bracketed : Option (List String) → Option String
  bracketed o = o >>= λ ps. some ("[" +++ join ps +++ "]")

  abbrev then_items : Option String → Option (List String) → Option (List String)
  then_items o rest = o >>= λ p. rest >>= λ ps. some (p ∷ ps)

  mutual
    unfolding canonicalize

    of_value : {v w : Value} → Reordered v w → canonicalize quote v ≡ canonicalize quote w
    of_value same = refl
    of_value (in_array r) = ap bracketed (of_items r)
    of_value (in_object {fs} {gs} r) =
        braced-sorted (canonicalize_fields quote fs)
        ∙ ap braced (of_fields r)
        ∙ sym (braced-sorted (canonicalize_fields quote gs))

    of_items :
        {xs ys : Items}
        → ReorderedItems xs ys
        → canonicalize_items quote xs ≡ canonicalize_items quote ys
    of_items nil_nil = refl
    of_items (cons_cons {v} {w} {xs} {ys} r rs) =
        ap (λ o. then_items o (canonicalize_items quote xs)) (of_value r)
        ∙ ap (then_items (canonicalize quote w)) (of_items rs)

    of_fields :
        {fs gs : Fields}
        → ReorderedFields fs gs
        → sorted (canonicalize_fields quote fs) ≡ sorted (canonicalize_fields quote gs)
    of_fields end_end = refl
    of_fields (field_field {v} {w} {fs} {gs} k r rs) =
        sorted_field k v fs
        ∙ ap (λ b. field_sorted k b (canonicalize quote v) (sorted (canonicalize_fields quote fs)))
            (is_absent-Reordered v w r)
        ∙ ap (λ o. field_sorted k (is_absent w) o (sorted (canonicalize_fields quote fs)))
            (of_value r)
        ∙ ap (field_sorted k (is_absent w) (canonicalize quote w)) (of_fields rs)
        ∙ sym (sorted_field k w gs)
    of_fields (swapped j k v w fs ne) =
        sorted_field j v (field k w fs)
        ∙ ap (field_sorted j (is_absent v) (canonicalize quote v)) (sorted_field k w fs)
        ∙ field_sorted_swap j k (is_absent v) (is_absent w) (canonicalize quote v)
            (canonicalize quote w) (sorted (canonicalize_fields quote fs)) ne
        ∙ ap (field_sorted k (is_absent w) (canonicalize quote w)) (sym (sorted_field j v fs))
        ∙ sym (sorted_field k w (field j v fs))
    of_fields (followed_by r s) = of_fields r ∙ of_fields s

  -- Two values that differ only in the order of fields of different names, at any depth, have the same
  -- canonical text, or both have none.
  pub canonicalize-Reordered :
      (v w : Value) → Reordered v w → canonicalize quote v ≡ canonicalize quote w
  canonicalize-Reordered v w r = of_value r
