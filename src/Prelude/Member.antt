-- ===== src/Prelude/Member.antt =====
-- Membership in a list, through the operations on lists.
use mathlib.Core.Path.{subst}
use railsentinel.Prelude.{
  ◌≡◌, refl, sym, ◌∙◌, ap, ◌⊎◌, inl, inr, ◌↔◌, List, [], ◌∷◌, ◌++◌, map, Bool, true, false, keep,
  Bool-cases, arith,
}

abbrev pub Has : {A : Type 0} → A → List A → Type 0
Has a [] = ⊥
Has a (x ∷ xs) = (x ≡ a) ⊎ Has a xs

pub Has-append : {A : Type 0} (a : A) (xs ys : List A) → Has a (xs ++ ys) ↔ (Has a xs ⊎ Has a ys)
Has-append a [] ys = (inr, λ h. elim h [ inl n ↦ absurd n | inr y ↦ y ])
Has-append a (x ∷ xs) ys =
    let (to, from) = Has-append a xs ys in
    (
      λ h. elim h [
        | inl e ↦ inl (inl e)
        | inr r ↦ elim (to r) [ inl m ↦ inl (inr m) | inr m ↦ inr m ]
      ],
      λ h. elim h [
        | inl m ↦ elim m [ inl e ↦ inl e | inr r ↦ inr (from (inl r)) ]
        | inr m ↦ inr (from (inr m))
      ],
    )

pub Has-keep :
    {A : Type 0} (p : A → Bool) (a : A) (xs : List A)
    → Has a (keep p xs) ↔ (Has a xs × (p a ≡ true))
Has-keep p a [] = (λ n. absurd n, λ h. absurd h.0)
Has-keep p a (x ∷ xs) =
    let (to, from) = Has-keep p a xs in
    elim (Bool-cases (p x)) [
      | inl kept ↦ rw kept (
        λ h. elim h [
          | inl e ↦ (inl e, subst (λ b. p b ≡ true) e kept)
          | inr r ↦ (inr (to r).0, (to r).1)
        ],
        λ h. elim h.0 [ inl e ↦ inl e | inr r ↦ inr (from (r, h.1)) ],
      )
      | inr out ↦ rw out (
        λ r. (inr (to r).0, (to r).1),
        λ h. elim h.0 [
          | inl e ↦ absurd (ground (arith, sym (subst (λ b. p b ≡ false) e out) ∙ h.1))
          | inr r ↦ from (r, h.1)
        ],
      )
    ]

pub Has-map :
    {A B : Type 0} (f : A → B) (b : B) (xs : List A)
    → Has b (map f xs) ↔ ((a : A) × Has a xs × (f a ≡ b))
Has-map f b [] = (λ n. absurd n, λ h. absurd h.1)
Has-map f b (x ∷ xs) =
    let (to, from) = Has-map f b xs in
    (
      λ h. elim h [ inl e ↦ (x, inl refl, e) | inr r ↦ let (a, m, e) = to r in (a, inr m, e) ],
      λ (a, m, e). elim m [ inl same ↦ inl (ap f same ∙ e) | inr r ↦ inr (from (a, r, e)) ],
    )

pub Has-map-keep :
    {A B : Type 0} (f : A → B) (p : A → Bool) (b : B) (xs : List A)
    → Has b (map f (keep p xs)) ↔ ((a : A) × (Has a xs × (p a ≡ true)) × (f a ≡ b))
Has-map-keep f p b xs =
    let (to, from) = Has-map f b (keep p xs) in
    (
      λ h. let (a, m, e) = to h in (a, (Has-keep p a xs).0 m, e),
      λ (a, m, e). from (a, (Has-keep p a xs).1 m, e),
    )

pub keep-eq :
    {A : Type 0} (p q : A → Bool) (xs : List A) → ((x : A) → p x ≡ q x) → keep p xs ≡ keep q xs
keep-eq p q [] h = refl
keep-eq p q (x ∷ xs) h = rw (h x, keep-eq p q xs h) refl

pub map-eq :
    {A B : Type 0} (f g : A → B) (xs : List A) → ((x : A) → f x ≡ g x) → map f xs ≡ map g xs
map-eq f g [] h = refl
map-eq f g (x ∷ xs) h = rw (h x, map-eq f g xs h) refl
