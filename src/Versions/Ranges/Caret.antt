-- ===== src/Versions/Ranges/Caret.antt =====
-- What a comparator with `^` lets through.
use tego_next.Base.{
  ℕ, ◌+◌, Bool, true, false, ◌&&◌, ◌||◌, not, Text, List, [], ◌∷◌, ltb, nat_beq, if◌then◌else◌,
  Option, some, is_some, ◌≡◌, ◌↔◌, refl, sym, subst, ◌∙◌, arith, Bool-cases, inl, inr,
}
use tego_next.Contracts.Platform.{is_safe_integer}
use tego_next.Contracts.State.{Comparison, less, equal, greater}
use tego_next.Versions.{
  Version, RangeVersion, stable_version, compare_version, compare_numbers, compare_tags, or_next,
}
use tego_next.Versions.Parse.{parse_range_version}
use tego_next.Versions.Ranges.{
  caret, caret_upper_bound, comparator_parts, is_supported_comparator, satisfies_comparator, meets,
  is_below, is_bare, tight, Comparator, supported_parts, with_next, increment,
}

-- The numbers up to the first that is not 0 are those of the range's version; where the range
-- names fewer, up to the last that it names.
abbrev pub HasLeading : RangeVersion → Version → Type 0
HasLeading r v =
    if nat_beq r.precision 1 || ltb 0 r.version.major
    then v.major ≡ r.version.major
    else if nat_beq r.precision 2 || ltb 0 r.version.minor
    then (v.major ≡ 0) × (v.minor ≡ r.version.minor)
    else (v.major ≡ 0) × (v.minor ≡ 0) × (v.patch ≡ r.version.patch)

-- The three numbers are lower.
abbrev core_below : Version → Version → Bool
core_below v w =
    ltb v.major w.major
    || (nat_beq v.major w.major
        && (ltb v.minor w.minor || (nat_beq v.minor w.minor && ltb v.patch w.patch)))

tags_not_below : (ts : List Text) → is_below (compare_tags [] ts) ≡ false
unfolding compare_tags
tags_not_below [] = refl
tags_not_below (t ∷ ts) = refl

below_first : (x y : Comparison) → is_below y ≡ false → is_below (or_next x y) ≡ is_below x
below_first less y h = refl
below_first equal y h = h
below_first greater y h = refl

-- For a stable version the numbers decide.
below_core : (v w : Version) → v.prerelease ≡ [] → is_below (compare_version v w) ≡ core_below v w
unfolding compare_version compare_numbers
below_core v w h =
    rw h (below_first _ (compare_tags [] w.prerelease) (tags_not_below w.prerelease) ∙ ground arith)

abbrev leads_major : RangeVersion → Bool
leads_major r = nat_beq r.precision 1 || ltb 0 r.version.major

abbrev leads_minor : RangeVersion → Bool
leads_minor r = nat_beq r.precision 2 || ltb 0 r.version.minor

abbrev next_leading : RangeVersion → Version
next_leading r =
    if leads_major r
    then stable_version (r.version.major + 1) 0 0
    else if leads_minor r
    then stable_version 0 (r.version.minor + 1) 0
    else stable_version 0 0 (r.version.patch + 1)

next_of :
    (n : ℕ) (make : ℕ → Version)
    → is_some (with_next (increment n) make) ≡ true
    → with_next (increment n) make ≡ some (make (n + 1))
next_of n make h = elim (Bool-cases (is_safe_integer (n + 1))) [
  | inl s ↦ rw s refl
  | inr s ↦ let h' = rw s at h in cc
]

bound_next :
    (r : RangeVersion)
    → r.any_version ≡ false
    → is_some (caret_upper_bound r) ≡ true
    → caret_upper_bound r ≡ some (next_leading r)
unfolding caret_upper_bound
bound_next r a b = elim (Bool-cases (leads_major r)) [
  | inl x ↦
      let b' = rw (a, x) at b in rw (a, x) (next_of r.version.major (λ n. stable_version n 0 0) b')
  | inr x ↦ elim (Bool-cases (leads_minor r)) [
    | inl y ↦
        let b' = rw (a, x, y) at b in
        rw (a, x, y) (next_of r.version.minor (λ n. stable_version 0 n 0) b')
    | inr y ↦
        let b' = rw (a, x, y) at b in
        rw (a, x, y) (next_of r.version.patch (λ n. stable_version 0 0 n) b')
  ]
]

leading_iff :
    (v : Version) (r : RangeVersion)
    → ((not (core_below v r.version) && core_below v (next_leading r)) ≡ true)
      ↔ ((core_below v r.version ≡ false) × HasLeading r v)
leading_iff v r = elim (Bool-cases (leads_major r)) [
  | inl x ↦ rw x (ground arith)
  | inr x ↦ elim (Bool-cases (leads_minor r)) [
    | inl y ↦ let zero_major : r.version.major ≡ 0 = ground arith in rw (x, y) (ground arith)
    | inr y ↦
        let zero_major : r.version.major ≡ 0 = ground arith in
        let zero_minor : r.version.minor ≡ 0 = ground arith in rw (x, y) (ground arith)
  ]
]

meets_caret :
    (v : Version) (r : RangeVersion)
    → v.prerelease ≡ []
    → r.any_version ≡ false
    → is_some (caret_upper_bound r) ≡ true
    → meets v caret r ≡ (not (core_below v r.version) && core_below v (next_leading r))
unfolding meets
meets_caret v r h a b =
    rw (bound_next r a b, below_core v r.version h, below_core v (next_leading r) h) refl

else_of : (b : Bool) (x y : Bool) → b ≡ false → (if b then x else y) ≡ y
else_of b x y h = rw h refl

-- The parts of a supported comparator with `^`.
record IsCaret (r : RangeVersion) (parts : Option Comparator) : Type 0 where
  taken : parts ≡ some (caret, r)
  not_any : r.any_version ≡ false
  bounded : is_some (caret_upper_bound r) ≡ true

parts-IsCaret :
    (c : ℕ) (text : Text) (r : RangeVersion)
    → parse_range_version (c ∷ text) ≡ some r
    → supported_parts (comparator_parts (b'^' ∷ c ∷ text)) ≡ true
    → IsCaret r (comparator_parts (b'^' ∷ c ∷ text))
unfolding comparator_parts tight
parts-IsCaret c text r parsed supported =
    let s = rw parsed at supported in
    rw parsed (elim (Bool-cases (not r.any_version && not r.wildcard)) [
      | inl t ↦
          let not_any : r.any_version ≡ false = ground arith in
          let s' = rw t at s in
          rw t (record {
            taken = refl;
            not_any = not_any;
            bounded =
                sym (else_of r.any_version (is_bare caret) (is_some (caret_upper_bound r)) not_any)
                ∙ s';
          })
      | inr t ↦ let s' = rw t at s in cc
    ])

-- A stable version satisfies a supported comparator `^range` exactly when it is not below the
-- range's version and has the same leading numbers.
pub caret_iff :
    (v : Version) (c : ℕ) (text : Text) (r : RangeVersion)
    → v.prerelease ≡ []
    → parse_range_version (c ∷ text) ≡ some r
    → is_supported_comparator (b'^' ∷ c ∷ text) ≡ true
    → (satisfies_comparator v (b'^' ∷ c ∷ text) ≡ true)
      ↔ ((is_below (compare_version v r.version) ≡ false) × HasLeading r v)
unfolding is_supported_comparator satisfies_comparator
caret_iff v c text r h parsed supported =
    let parts = parts-IsCaret c text r parsed supported in
    let met =
      else_of r.any_version true (meets v caret r) parts.not_any
      ∙ meets_caret v r h parts.not_any parts.bounded in
    rw (parts.taken, below_core v r.version h)
      (subst (λ b. (b ≡ true) ↔ ((core_below v r.version ≡ false) × HasLeading r v)) (sym met)
        (leading_iff v r))
