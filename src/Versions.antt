-- ===== src/Versions.antt =====
-- packages/runtime/src/capabilities/version.ts: versions and their order. A difference of numbers is
-- used by its sign only, which is a `Comparison`.
pub mod Parse
pub mod Ranges
pub mod Order
use tego_next.Base.{
  ℕ, Bool, true, false, ◌&&◌, not, Text, text_beq, List, [], ◌∷◌, length, all, before, ltb, nat_beq,
  if◌then◌else◌,
}
use tego_next.Contracts.Identity.{is_digit}
use tego_next.Contracts.State.{Comparison, less, equal, greater}

pub record Version : Type 0 where
  pub major : ℕ
  pub minor : ℕ
  pub patch : ℕ
  pub prerelease : List Text

pub record RangeVersion : Type 0 where
  pub any_version : Bool
  pub precision : ℕ
  pub version : Version
  pub wildcard : Bool

abbrev pub stable_version : ℕ → ℕ → ℕ → Version
stable_version major minor patch = record {
  major = major;
  minor = minor;
  patch = patch;
  prerelease = [];
}

-- `a || b` on differences.
abbrev pub or_next : Comparison → Comparison → Comparison
or_next less c = less
or_next equal c = c
or_next greater c = greater

-- The sign of `left - right`.
unfoldable pub compare_numbers : ℕ → ℕ → Comparison
compare_numbers l r = if ltb l r then less else if ltb r l then greater else equal

unfoldable pub compare_units : Text → Text → Comparison
compare_units l r = if before l r then less else if before r l then greater else equal

-- `replace(/^0+/u, "") || "0"`.
unfoldable pub strip_zeros : Text → Text
strip_zeros [] = []
strip_zeros (c ∷ t) = let rest = strip_zeros t in if nat_beq c b'0' then rest else c ∷ t

abbrev pub or_zero : Text → Text
or_zero [] = b'0' ∷ []
or_zero (c ∷ t) = c ∷ t

unfoldable pub compare_numeric_identifier : Text → Text → Comparison
compare_numeric_identifier left right =
    let l = or_zero (strip_zeros left) in
    let r = or_zero (strip_zeros right) in
    or_next (compare_numbers (length l) (length r)) (compare_units l r)

abbrev pub is_empty_text : Text → Bool
is_empty_text [] = true
is_empty_text (c ∷ t) = false

-- `/^\d+$/u`.
abbrev pub is_numeric : Text → Bool
is_numeric t = not (is_empty_text t) && all is_digit t

-- Two identifiers that differ.
unfoldable pub compare_identifier : Text → Text → Comparison
compare_identifier l r =
    if is_numeric l
    then if is_numeric r then compare_numeric_identifier l r else less
    else if is_numeric r
    then greater
    else if before l r
    then less
    else greater

-- The loop over the identifiers.
unfoldable pub compare_prerelease : List Text → List Text → Comparison
compare_prerelease [] [] = equal
compare_prerelease [] (r ∷ rs) = less
compare_prerelease (l ∷ ls) [] = greater
compare_prerelease (l ∷ ls) (r ∷ rs) =
    let rest = compare_prerelease ls rs in if text_beq l r then rest else compare_identifier l r

-- A version without identifiers comes after one with them.
unfoldable pub compare_tags : List Text → List Text → Comparison
compare_tags [] [] = equal
compare_tags [] (r ∷ rs) = greater
compare_tags (l ∷ ls) [] = less
compare_tags (l ∷ ls) (r ∷ rs) = compare_prerelease (l ∷ ls) (r ∷ rs)

unfoldable pub compare_version : Version → Version → Comparison
compare_version l r =
    or_next
      (or_next (compare_numbers l.major r.major)
        (or_next (compare_numbers l.minor r.minor) (compare_numbers l.patch r.patch)))
      (compare_tags l.prerelease r.prerelease)
