-- ===== src/Examples/Capabilities.antt =====
-- Runs of versions and ranges.
use tego_next.Base.{true, false, ◌||◌, ◌≡◌, ◌↔◌, refl, Text, [], ◌∷◌, text_beq, before}
use tego_next.Contracts.Identity.{decimal_pattern, decimal_value}
use tego_next.Contracts.State.{equal}
use tego_next.Versions.{
  Version, RangeVersion, stable_version, compare_version, compare_numbers, compare_tags,
  compare_prerelease, compare_identifier, compare_numeric_identifier, strip_zeros, compare_units,
}
use tego_next.Versions.Parse.{
  parse_version, parse_range_version, span_units, split_dots, range_numbers,
}
use tego_next.Versions.Ranges.{
  comparator_parts, caret_upper_bound, is_below, is_above, is_supported_comparator,
  satisfies_comparator,
}
use tego_next.Versions.Ranges.Caret.{HasLeading, caret_iff}
use tego_next.Versions.Order.{flip}
use tego_next.Versions.Order.Total.{compare_version_sign, compare_version_trans}

-- "1.4.0", "1.4.0-b.2" and "1.4.0-b.10".
abbrev whole_version : Text
whole_version = b'1' ∷ b'.' ∷ b'4' ∷ b'.' ∷ b'0' ∷ []

abbrev beta_2 : Text
beta_2 = b'1' ∷ b'.' ∷ b'4' ∷ b'.' ∷ b'0' ∷ b'-' ∷ b'b' ∷ b'.' ∷ b'2' ∷ []

abbrev beta_10 : Text
beta_10 = b'1' ∷ b'.' ∷ b'4' ∷ b'.' ∷ b'0' ∷ b'-' ∷ b'b' ∷ b'.' ∷ b'1' ∷ b'0' ∷ []

abbrev beta : Text → Version
beta n = record (stable_version 1 4 0) { prerelease = (b'b' ∷ []) ∷ n ∷ [] }

compare_version_sign_example :
    ((compare_version (stable_version 1 4 0) (beta (b'2' ∷ [])) ≡ equal)
      ↔ (stable_version 1 4 0 ≡ beta (b'2' ∷ [])))
    × (compare_version (beta (b'2' ∷ [])) (stable_version 1 4 0)
        ≡ flip (compare_version (stable_version 1 4 0) (beta (b'2' ∷ []))))
unfolding parse_version decimal_pattern span_units decimal_value split_dots
compare_version_sign_example =
    compare_version_sign whole_version beta_2 (stable_version 1 4 0) (beta (b'2' ∷ [])) refl refl

compare_version_trans_example :
    (is_above (compare_version (beta (b'2' ∷ [])) (stable_version 1 4 0)) ≡ false)
    × (is_below (compare_version (beta (b'2' ∷ [])) (stable_version 1 4 0))
        ≡ is_below (compare_version (beta (b'2' ∷ [])) (beta (b'1' ∷ b'0' ∷ [])))
          || is_below (compare_version (beta (b'1' ∷ b'0' ∷ [])) (stable_version 1 4 0)))
unfolding parse_version decimal_pattern span_units split_dots decimal_value compare_version
    compare_numbers compare_tags compare_prerelease text_beq compare_identifier
    compare_numeric_identifier strip_zeros compare_units before
compare_version_trans_example =
    compare_version_trans beta_2 beta_10 whole_version (beta (b'2' ∷ [])) (beta (b'1' ∷ b'0' ∷ []))
      (stable_version 1 4 0) refl refl refl refl refl

-- "^1.2".
abbrev one_two : RangeVersion
one_two = record {
  any_version = false;
  precision = 2;
  version = stable_version 1 2 0;
  wildcard = false;
}

caret_iff_example :
    (satisfies_comparator (stable_version 1 4 0) (b'^' ∷ b'1' ∷ b'.' ∷ b'2' ∷ []) ≡ true) ↔ (
      (is_below (compare_version (stable_version 1 4 0) (stable_version 1 2 0)) ≡ false)
      × HasLeading one_two (stable_version 1 4 0))
unfolding parse_version parse_range_version range_numbers decimal_pattern span_units split_dots
    decimal_value is_supported_comparator comparator_parts caret_upper_bound
caret_iff_example = caret_iff (stable_version 1 4 0) b'1' (b'.' ∷ b'2' ∷ []) one_two refl refl refl
