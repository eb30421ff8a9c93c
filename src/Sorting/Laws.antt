-- ===== src/Sorting/Laws.antt =====
-- Sorted lists and their items.
use at_message_forward.Prelude.{
  Bool, true, false, List, [], ◌∷◌, ◌≡◌, refl, sym, ap, ◌∙◌, ◌⊎◌, inl, inr, ◌↔◌, All, Bool-cases,
}
use mathlib.Core.Path.{subst, ap₂}
use at_message_forward.Sorting.{insert, sort}

module _ {A : Type 0} where
  -- An item stands in a list.
  abbrev pub In : A → List A → Type 0
  In a [] = ⊥
  In a (x ∷ xs) = (a ≡ x) ⊎ In a xs

module _ {A : Type 0} (less : A → A → Bool) where
  -- Each item comes before those behind it.
  abbrev pub IsAscending : List A → Type 0
  IsAscending [] = Unit
  IsAscending (x ∷ xs) = All (λ y. less x y ≡ true) xs × IsAscending xs

module _ {A : Type 0} (less : A → A → Bool) (irreflexive : (x : A) → less x x ≡ false)
    (transitive : (x y z : A) → less x y ≡ true → less y z ≡ true → less x z ≡ true) where
  not_below : (x : A) (xs : List A) → All (λ y. less x y ≡ true) xs → ¬ In x xs
  not_below x [] h found = absurd found
  not_below x (y ∷ ys) h (inl same) = absurd (cc (sym (irreflexive x) ∙ ap (less x) same ∙ h.0))
  not_below x (y ∷ ys) h (inr later) = not_below x ys h.1 later

  below : (x y : A) (ys : List A) → All (λ z. less x z ≡ true) ys → In y ys → less x y ≡ true
  below x y [] h found = absurd found
  below x y (z ∷ ys) h (inl same) = ap (less x) same ∙ h.0
  below x y (z ∷ ys) h (inr later) = below x y ys h.1 later

  -- The first items of two ascending lists with the same items are the same.
  heads :
      (x y : A) (xs ys : List A)
      → All (λ z. less x z ≡ true) xs
      → All (λ z. less y z ≡ true) ys
      → In x (y ∷ ys)
      → In y (x ∷ xs)
      → x ≡ y
  heads x y xs ys hx hy (inl same) found = same
  heads x y xs ys hx hy (inr later) (inl same) = sym same
  heads x y xs ys hx hy (inr later) (inr later') =
      absurd (
        cc
          (sym (irreflexive x) ∙ transitive x y x (below x y xs hx later') (below y x ys hy later)))

  tails :
      (x y : A) (xs ys : List A)
      → x ≡ y
      → All (λ z. less x z ≡ true) xs
      → ((a : A) → In a (x ∷ xs) → In a (y ∷ ys))
      → (a : A) → In a xs
      → In a ys
  tails x y xs ys same hx sub a found = elim (sub a (inr found)) [
    | inl at_head ↦ absurd (not_below x xs hx (subst (λ z. In z xs) (at_head ∙ sym same) found))
    | inr later ↦ later
  ]

  -- Two ascending lists with the same items are the same.
  pub IsAscending-unique :
      (xs ys : List A)
      → IsAscending less xs
      → IsAscending less ys
      → ((a : A) → In a xs → In a ys)
      → ((a : A) → In a ys → In a xs)
      → xs ≡ ys
  IsAscending-unique [] [] hx hy there back = refl
  IsAscending-unique [] (y ∷ ys) hx hy there back = absurd (back y (inl refl))
  IsAscending-unique (x ∷ xs) [] hx hy there back = absurd (there x (inl refl))
  IsAscending-unique (x ∷ xs) (y ∷ ys) hx hy there back =
      let same : x ≡ y = heads x y xs ys hx.0 hy.0 (there x (inl refl)) (back y (inl refl)) in
      ap₂ (◌∷◌) same (
        IsAscending-unique xs ys hx.1 hy.1 (tails x y xs ys same hx.0 there)
          (tails y x ys xs (sym same) hy.0 back))

module _ {A : Type 0} (less : A → A → Bool) where
  -- `less` tells the items of a list apart.
  abbrev pub TellsApart : List A → Type 0
  TellsApart [] = Unit
  TellsApart (x ∷ xs) = All (λ y. (less x y ≡ true) ⊎ (less y x ≡ true)) xs × TellsApart xs

  pub In-insert : (a x : A) (ys : List A) → In a (insert less x ys) ↔ In a (x ∷ ys)
  unfolding insert
  In-insert a x [] = (λ h. h, λ h. h)
  In-insert a x (y ∷ ys) = elim (Bool-cases (less y x)) [
    | inl before ↦ rw before (
      λ h. elim h [
        | inl same ↦ inr (inl same)
        | inr later ↦ elim ((In-insert a x ys).0 later) [
          | inl here ↦ inl here
          | inr there ↦ inr (inr there)
        ]
      ],
      λ h. elim h [
        | inl here ↦ inr ((In-insert a x ys).1 (inl here))
        | inr (inl same) ↦ inl same
        | inr (inr there) ↦ inr ((In-insert a x ys).1 (inr there))
      ],
    )
    | inr behind ↦ rw behind (λ h. h, λ h. h)
  ]

  pub In-sort : (a : A) (xs : List A) → In a (sort less xs) ↔ In a xs
  unfolding sort
  In-sort a [] = (λ h. h, λ h. h)
  In-sort a (x ∷ xs) = (
    λ h. elim ((In-insert a x (sort less xs)).0 h) [
      | inl here ↦ inl here
      | inr there ↦ inr ((In-sort a xs).0 there)
    ],
    λ h.
        (In-insert a x (sort less xs)).1
          (elim h [ inl here ↦ inl here | inr there ↦ inr ((In-sort a xs).1 there) ]),
  )

  All-insert {κ} :
      (P : A → Type κ) (x : A) (ys : List A) → P x → All P ys → All P (insert less x ys)
  unfolding insert
  All-insert P x [] hx hs = (hx, tt)
  All-insert P x (y ∷ ys) hx hs = elim (Bool-cases (less y x)) [
    | inl before ↦ rw before (hs.0, All-insert P x ys hx hs.1)
    | inr behind ↦ rw behind (hx, hs)
  ]

  All-sort {κ} : (P : A → Type κ) (xs : List A) → All P xs → All P (sort less xs)
  unfolding sort
  All-sort P [] hs = tt
  All-sort P (x ∷ xs) hs = All-insert P x (sort less xs) hs.0 (All-sort P xs hs.1)

  apart_before :
      (x y : A) → (less x y ≡ true) ⊎ (less y x ≡ true) → less y x ≡ false → less x y ≡ true
  apart_before x y (inl h) no_back = h
  apart_before x y (inr h) no_back = absurd (cc (sym no_back ∙ h))

  module _ (transitive : (x y z : A) → less x y ≡ true → less y z ≡ true → less x z ≡ true) where
    chain :
        (x y : A) (ys : List A)
        → less x y ≡ true
        → All (λ z. less y z ≡ true) ys
        → All (λ z. less x z ≡ true) ys
    chain x y [] h hs = tt
    chain x y (z ∷ ys) h hs = (transitive x y z h hs.0, chain x y ys h hs.1)

    insert-IsAscending :
        (x : A) (ys : List A)
        → All (λ y. (less x y ≡ true) ⊎ (less y x ≡ true)) ys
        → IsAscending less ys
        → IsAscending less (insert less x ys)
    unfolding insert
    insert-IsAscending x [] told h = (tt, tt)
    insert-IsAscending x (y ∷ ys) told h = elim (Bool-cases (less y x)) [
      | inl before ↦
          rw before
            (All-insert (λ z. less y z ≡ true) x ys before h.0, insert-IsAscending x ys told.1 h.1)
      | inr behind ↦
          let first : less x y ≡ true = apart_before x y told.0 behind in
          rw behind ((first, chain x y ys first h.0), h)
    ]

    pub sort-IsAscending : (xs : List A) → TellsApart xs → IsAscending less (sort less xs)
    unfolding sort
    sort-IsAscending [] told = tt
    sort-IsAscending (x ∷ xs) told =
        insert-IsAscending x (sort less xs)
          (All-sort (λ y. (less x y ≡ true) ⊎ (less y x ≡ true)) xs told.0)
          (sort-IsAscending xs told.1)
