-- ===== src/Base/Increasing.antt =====
-- Sorting by a strict order of elements that are all apart, and reading such a list in parts.
use mathlib.Core.Path.{◌≡◌, refl, ◌∙◌}
use mathlib.Core.Bool.{Bool, true, false, ◌||◌, ◌&&◌}
use mathlib.Core.Logic.{inl, inr}
use mathlib.Core.List.{List, [], ◌∷◌, ◌++◌}
use native.Mathlib.Omega.{arith}
use tego_next.Base.Tests.{if◌then◌else◌, Bool-cases}
use tego_next.Base.Lists.{All, All-map, All-filter, filter}
use tego_next.Base.Sort.{insert_by, sort_by, All-insert_by, All-sort_by}

pub filter-filter {ℓ} :
    {A : Type ℓ} (p q : A → Bool) (xs : List A)
    → filter (λ x. p x && q x) xs ≡ filter q (filter p xs)
filter-filter p q [] = refl
filter-filter p q (x ∷ xs) = ground (arith, filter-filter p q xs)

pub filter-and-true {ℓ} :
    {A : Type ℓ} (p : A → Bool) (xs : List A) → filter (λ x. p x && true) xs ≡ filter p xs
filter-and-true p [] = refl
filter-and-true p (x ∷ xs) = ground (arith, filter-and-true p xs)

module _ {ℓ} {A : Type ℓ} (gt : A → A → Bool) where
  abbrev pub are_apart : A → A → Bool
  are_apart x y = gt x y || gt y x

  abbrev pub IsApart : List A → Type 0
  IsApart [] = Unit
  IsApart (x ∷ xs) = All (λ y. are_apart x y ≡ true) xs × IsApart xs

  abbrev pub IsIncreasing : List A → Type 0
  IsIncreasing [] = Unit
  IsIncreasing (x ∷ xs) = All (λ y. gt y x ≡ true) xs × IsIncreasing xs

module _ {ℓ} {A : Type ℓ} (gt : A → A → Bool)
    (gt_trans : (x y z : A) → gt x y ≡ true → gt y z ≡ true → gt x z ≡ true)
    (gt_asym : (x y : A) → gt x y ≡ true → gt y x ≡ false) where
  insert-IsIncreasing :
      (x : A) (ys : List A)
      → All (λ y. are_apart gt x y ≡ true) ys
      → IsIncreasing gt ys
      → IsIncreasing gt (insert_by gt x ys)
  unfolding insert_by
  insert-IsIncreasing x [] a h = (tt, tt)
  insert-IsIncreasing x (y ∷ ys) (a, b) (h, hs) = elim (Bool-cases (gt x y)) [
    | inl e ↦ rw e (All-insert_by gt (λ z. gt z y ≡ true) x ys e h, insert-IsIncreasing x ys b hs)
    | inr e ↦
        let above : gt y x ≡ true = ground arith in
        rw e ((above, All-map _ _ ys (λ z k. gt_trans z y x k above) h), (h, hs))
  ]

  pub sort-IsIncreasing : (xs : List A) → IsApart gt xs → IsIncreasing gt (sort_by gt xs)
  unfolding sort_by
  sort-IsIncreasing [] h = tt
  sort-IsIncreasing (x ∷ xs) (a, h) =
      insert-IsIncreasing x (sort_by gt xs) (All-sort_by gt _ xs a) (sort-IsIncreasing xs h)

  insert_front : (x : A) (ys : List A) → All (λ y. gt x y ≡ false) ys → insert_by gt x ys ≡ x ∷ ys
  unfolding insert_by
  insert_front x [] h = refl
  insert_front x (y ∷ ys) h = rw h.0 refl

  filter-insert :
      (p : A → Bool) (x : A) (ys : List A)
      → All (λ y. are_apart gt x y ≡ true) ys
      → IsIncreasing gt ys
      → filter p (insert_by gt x ys) ≡ (if p x then insert_by gt x (filter p ys) else filter p ys)
  unfolding insert_by
  filter-insert p x [] a h = refl
  filter-insert p x (y ∷ ys) (a, b) (h, hs) = elim (Bool-cases (gt x y)) [
    | inl e ↦ let ih = filter-insert p x ys b hs in rw e (ground arith)
    | inr e ↦
        let above : gt y x ≡ true = ground arith in
        let front = insert_front x (filter p ys) (
          All-filter (λ z. gt x z ≡ false) p ys
            (All-map _ _ ys (λ z k. gt_asym z x (gt_trans z y x k above)) h)) in
        rw e (ground arith)
  ]

  -- Sorting and selecting commute.
  pub filter-sort :
      (p : A → Bool) (xs : List A)
      → IsApart gt xs
      → filter p (sort_by gt xs) ≡ sort_by gt (filter p xs)
  unfolding sort_by
  filter-sort p [] h = refl
  filter-sort p (x ∷ xs) (a, h) =
      let ih = filter-sort p xs h in
      filter-insert p x (sort_by gt xs) (All-sort_by gt _ xs a) (sort-IsIncreasing xs h)
      ∙ elim (Bool-cases (p x)) [ inl e ↦ rw (e, ih) refl | inr e ↦ rw (e, ih) refl ]

  pub IsApart-filter : (p : A → Bool) (xs : List A) → IsApart gt xs → IsApart gt (filter p xs)
  IsApart-filter p [] h = tt
  IsApart-filter p (x ∷ xs) (a, h) = elim (Bool-cases (p x)) [
    | inl e ↦ rw e (All-filter _ p xs a, IsApart-filter p xs h)
    | inr e ↦ rw e (IsApart-filter p xs h)
  ]

  filter-All : (p : A → Bool) (xs : List A) → All (λ x. p x ≡ true) xs → filter p xs ≡ xs
  filter-All p [] h = refl
  filter-All p (x ∷ xs) (a, h) = rw (a, filter-All p xs h) refl

  above_head :
      (l x : A) (xs ys : List A) → All (λ y. gt y x ≡ true) ((xs ++ l ∷ []) ++ ys) → gt l x ≡ true
  above_head l x [] ys h = h.0
  above_head l x (z ∷ xs) ys h = above_head l x xs ys h.1

  gt_self : (x : A) → gt x x ≡ false
  gt_self x = ground (arith, gt_asym x x)

  -- What comes after an element of an increasing list is what is greater than it.
  pub filter-after :
      (l : A) (xs ys : List A)
      → IsIncreasing gt ((xs ++ l ∷ []) ++ ys)
      → filter (λ e. gt e l) ((xs ++ l ∷ []) ++ ys) ≡ ys
  filter-after l [] ys (h, hs) = rw (gt_self l) (filter-All (λ e. gt e l) ys h)
  filter-after l (x ∷ xs) ys (h, hs) =
      rw (gt_asym l x (above_head l x xs ys h)) (filter-after l xs ys hs)
