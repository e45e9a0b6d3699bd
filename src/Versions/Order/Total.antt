-- ===== src/Versions/Order/Total.antt =====
-- The order of whole versions.
use tego_next.Base.{
  ℕ, true, false, Text, List, [], ◌∷◌, all, ◌≡◌, ◌↔◌, refl, ap₂, and_split, subst, ◌||◌, some, none,
  Option, ◌&&◌,
}
use tego_next.Base.Options.{>>=-holds, require-holds}
use tego_next.Contracts.State.{Comparison, less, equal, greater}
use tego_next.Versions.{
  Version, or_next, compare_numbers, compare_prerelease, compare_tags, compare_version,
}
use tego_next.Versions.Parse.{is_identifier, parse_version, take_number, skip_unit, tail_tags}
use tego_next.Contracts.Platform.{is_safe_integer}
use tego_next.Versions.Ranges.{is_above, is_below}
use tego_next.Versions.Order.{flip, IsOrder, both-IsOrder, agreeing-IsOrder, numbers-IsOrder}
use tego_next.Versions.Order.Identifiers.{AreTags, prerelease-IsOrder}

abbrev is_release : List Text → ℕ
is_release [] = 1
is_release (t ∷ ts) = 0

tags_agree :
    (l r : List Text)
    → compare_tags l r
      ≡ or_next (compare_numbers (is_release l) (is_release r)) (compare_prerelease l r)
unfolding compare_tags compare_numbers compare_prerelease
tags_agree [] [] = refl
tags_agree [] (r ∷ rs) = refl
tags_agree (l ∷ ls) [] = refl
tags_agree (l ∷ ls) (r ∷ rs) = refl

tags-IsOrder : IsOrder AreTags compare_tags
tags-IsOrder =
    agreeing-IsOrder AreTags _ compare_tags (λ l r p q. tags_agree l r)
      (both-IsOrder (λ _. Unit) AreTags AreTags is_release (λ t. t) compare_numbers
        compare_prerelease (λ t p. (tt, p)) (λ a b p q. q) numbers-IsOrder prerelease-IsOrder)

-- A version whose identifiers are canonical.
abbrev pub HasTags : Version → Type 0
HasTags v = AreTags v.prerelease

abbrev Core : Type 0
Core = ℕ × ℕ × ℕ

abbrev core : Version → Core
core v = (v.major, v.minor, v.patch)

abbrev rest_compare : Core → Core → Comparison
rest_compare a b = or_next (compare_numbers a.1 b.1) (compare_numbers a.2 b.2)

abbrev core_compare : Core → Core → Comparison
core_compare a b = or_next (compare_numbers a.0 b.0) (rest_compare a b)

-- The second and the third number.
abbrev rest : Core → ℕ × ℕ
rest a = (a.1, a.2)

rest-IsOrder :
    IsOrder
      (λ (p : ℕ × ℕ). Unit {0})
      (λ a b. or_next (compare_numbers a.0 b.0) (compare_numbers a.1 b.1))
rest-IsOrder =
    both-IsOrder (λ _. Unit) (λ _. Unit) (λ _. Unit) (λ a. a.0) (λ a. a.1) compare_numbers
      compare_numbers (λ t p. (tt, tt)) (λ a b p q. ap₂ (λ x y. (x, y)) p q) numbers-IsOrder
      numbers-IsOrder

core-IsOrder : IsOrder (λ (p : Core). Unit {0}) core_compare
core-IsOrder =
    both-IsOrder {B = ℕ × ℕ} (λ _. Unit) (λ _. Unit) (λ _. Unit) (λ a. a.0) rest compare_numbers _
      (λ t p. (tt, tt)) (λ a b p q. ap₂ (λ x (y : ℕ × ℕ). (x, y.0, y.1)) p q) numbers-IsOrder
      rest-IsOrder

version-IsOrder : IsOrder HasTags compare_version
unfolding compare_version
version-IsOrder =
    both-IsOrder {A = Core} (λ _. Unit) AreTags HasTags core (λ v. v.prerelease) core_compare
      compare_tags (λ v p. (tt, p))
      (λ a b p q.
        ap₂ (λ (x : Core) ts. record { major = x.0; minor = x.1; patch = x.2; prerelease = ts }) p
          q)
      core-IsOrder tags-IsOrder

all_tags : (ts : List Text) → all is_identifier ts ≡ true → AreTags ts
all_tags [] h = tt
all_tags (t ∷ ts) h =
    let (a, b) = and_split (is_identifier t) (all is_identifier ts) h in (a, all_tags ts b)

abbrev ResultHasTags : Option Version → Type 0
ResultHasTags none = Unit {0}
ResultHasTags (some v) = HasTags v

-- The identifiers of a parsed version are canonical.
parse_version-ResultHasTags : (s : Text) → ResultHasTags (parse_version s)
unfolding parse_version
parse_version-ResultHasTags s = >>=-holds ResultHasTags (take_number s) _ tt (λ a.
    >>=-holds ResultHasTags (skip_unit b'.' a.1) _ tt (λ t.
      >>=-holds ResultHasTags (take_number t) _ tt (λ c.
        >>=-holds ResultHasTags (skip_unit b'.' c.1) _ tt (λ u.
          >>=-holds ResultHasTags (take_number u) _ tt (λ e.
            >>=-holds ResultHasTags (tail_tags e.1) _ tt (λ tags.
              require-holds ResultHasTags
                (is_safe_integer a.0 && (is_safe_integer c.0 && is_safe_integer e.0)) _ tt
                (λ _.
                  require-holds ResultHasTags (all is_identifier tags) _ tt (all_tags tags))))))))

parse_version-HasTags : (s : Text) (v : Version) → parse_version s ≡ some v → HasTags v
parse_version-HasTags s v h = subst ResultHasTags h (parse_version-ResultHasTags s)

own_flip : (x : Comparison) → x ≡ flip x → x ≡ equal
own_flip less h = cc
own_flip equal h = refl
own_flip greater h = cc

-- Two versions read from text compare as 0 exactly when they are the same, and comparing them the
-- other way round gives the opposite sign.
pub compare_version_sign :
    (s t : Text) (l r : Version)
    → parse_version s ≡ some l
    → parse_version t ≡ some r
    → ((compare_version l r ≡ equal) ↔ (l ≡ r)) × (compare_version r l ≡ flip (compare_version l r))
compare_version_sign s t l r h k =
    let p = parse_version-HasTags s l h in
    let q = parse_version-HasTags t r k in
    let self = own_flip (compare_version l l) (version-IsOrder.flips l l p p) in
    (
      (version-IsOrder.same l r p q, λ e. subst (λ x. compare_version l x ≡ equal) e self),
      version-IsOrder.flips l r p q,
    )

-- Of three versions read from text, where the first is not above the second nor the second above
-- the third: the first is not above the third, and below it exactly where one of the two steps is
-- strict.
pub compare_version_trans :
    (s t u : Text) (a b c : Version)
    → parse_version s ≡ some a
    → parse_version t ≡ some b
    → parse_version u ≡ some c
    → is_above (compare_version a b) ≡ false
    → is_above (compare_version b c) ≡ false
    → (is_above (compare_version a c) ≡ false)
      × (is_below (compare_version a c)
          ≡ is_below (compare_version a b) || is_below (compare_version b c))
compare_version_trans s t u a b c h k m i j =
    let chain =
      version-IsOrder.chains a b c (parse_version-HasTags s a h) (parse_version-HasTags t b k)
        (parse_version-HasTags u c m) i j in
    rw chain (joined (compare_version a b) (compare_version b c) i j)
  where
    joined :
        (x y : Comparison)
        → is_above x ≡ false
        → is_above y ≡ false
        → (is_above (or_next x y) ≡ false) × (is_below (or_next x y) ≡ is_below x || is_below y)
    joined less y p q = (refl, refl)
    joined equal y p q = (q, refl)
    joined greater y p q = cc
