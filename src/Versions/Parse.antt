-- ===== src/Versions/Parse.antt =====
-- version.ts, the parsers of a version and of a version in a range.
use tego_next.Base.{
  ℕ, zero, suc, Bool, true, false, ◌&&◌, ◌||◌, not, Text, List, [], ◌∷◌, length, all, leb, ltb,
  nat_beq, if◌then◌else◌, Option, none, some,
}
use tego_next.Base.Options.{◌>>=◌, ◌>>◌, require}
use tego_next.Contracts.Identity.{is_digit, is_alphanumeric, decimal_pattern, decimal_value}
use tego_next.Contracts.Platform.{is_safe_integer}
use tego_next.Versions.{Version, RangeVersion, stable_version, is_empty_text, is_numeric}

abbrev add_unit : ℕ → List Text → List Text
add_unit c [] = (c ∷ []) ∷ []
add_unit c (p ∷ ps) = (c ∷ p) ∷ ps

-- `split(".")`.
unfoldable pub split_dots : Text → List Text
split_dots [] = [] ∷ []
split_dots (c ∷ t) =
    let rest = split_dots t in if nat_beq c b'.' then [] ∷ rest else add_unit c rest

abbrev push_unit : ℕ → Text × Text → Text × Text
push_unit c (taken, rest) = (c ∷ taken, rest)

-- The longest beginning whose units pass the test, and the rest.
unfoldable pub span_units : (ℕ → Bool) → Text → Text × Text
span_units test [] = ([], [])
span_units test (c ∷ t) =
    let rest = span_units test t in if test c then push_unit c rest else ([], c ∷ t)

abbrev pub skip_unit : ℕ → Text → Option Text
skip_unit c [] = none
skip_unit c (d ∷ t) = if nat_beq c d then some t else none

-- The units of identifiers and the dots between them.
abbrev pub is_tag_unit : ℕ → Bool
is_tag_unit c = is_alphanumeric c || (nat_beq c b'-' || nat_beq c b'.')

abbrev pub are_nonempty : List Text → Bool
are_nonempty ts = all (λ t. not (is_empty_text t)) ts

-- The part of VERSION_PATTERN from an optional `+` to the end.
abbrev build_matches : Text → Bool
build_matches [] = true
build_matches (c ∷ t) = nat_beq c b'+' && (all is_tag_unit t && are_nonempty (split_dots t))

-- Its part from an optional `-`: the identifiers, split.
pub tail_tags : Text → Option (List Text)
tail_tags [] = some []
tail_tags (c ∷ t) =
    if nat_beq c b'-'
    then (let (tags, rest) = span_units is_tag_unit t in
        do
          require (are_nonempty (split_dots tags))
          require (build_matches rest)
          some (split_dots tags))
    else if build_matches (c ∷ t)
    then some []
    else none

-- A number, and what follows it.
pub take_number : Text → Option (ℕ × Text)
take_number t =
    let (digits, rest) = span_units is_digit t in
    do require (decimal_pattern digits); some (decimal_value digits, rest)

-- Identifiers of digits only are canonical.
abbrev pub is_identifier : Text → Bool
is_identifier t = not (is_empty_text t) && (not (is_numeric t) || decimal_pattern t)

unfoldable pub parse_version : Text → Option Version
unfolding take_number tail_tags
parse_version t = do
  (major, t₁) ← take_number t
  t₂ ← skip_unit b'.' t₁
  (minor, t₃) ← take_number t₂
  t₄ ← skip_unit b'.' t₃
  (patch, t₅) ← take_number t₄
  tags ← tail_tags t₅
  require (is_safe_integer major && (is_safe_integer minor && is_safe_integer patch))
  require (all is_identifier tags)
  some (record { major = major; minor = minor; patch = patch; prerelease = tags })

-- `part === "*" || part.toLowerCase() === "x"`.
abbrev pub is_wildcard : Text → Bool
is_wildcard (c ∷ []) = nat_beq c b'*' || (nat_beq c b'x' || nat_beq c b'X')
is_wildcard _ = false

-- A part that is a number.
part_number : Text → Option ℕ
part_number t = do
  require (decimal_pattern t)
  require (is_safe_integer (decimal_value t))
  some (decimal_value t)

-- The loop over the parts: the numbers before the first wildcard. After it only wildcards may
-- come, and it is not the first part.
unfoldable pub range_numbers : List Text → Option (List ℕ)
unfolding part_number
range_numbers [] = some []
range_numbers (p ∷ ps) =
    if is_wildcard p
    then (do require (all is_wildcard ps); some [])
    else (do n ← part_number p; ns ← range_numbers ps; some (n ∷ ns))

abbrev pub number_at : ℕ → List ℕ → ℕ
number_at n [] = 0
number_at zero (x ∷ xs) = x
number_at (suc n) (x ∷ xs) = number_at n xs

abbrev of_numbers : ℕ → List ℕ → RangeVersion
of_numbers parts ns = record {
  any_version = false;
  precision = length ns;
  version = stable_version (number_at 0 ns) (number_at 1 ns) (number_at 2 ns);
  wildcard = ltb (length ns) parts;
}

-- A range's version that is not a whole version.
partial_version : Text → Option RangeVersion
partial_version t = do
  let parts = split_dots t
  require (ltb 0 (length parts) && leb (length parts) 3)
  ns ← range_numbers parts
  require (ltb 0 (length ns))
  some (of_numbers (length parts) ns)

abbrev exact_or : Option Version → Option RangeVersion → Option RangeVersion
exact_or none rest = rest
exact_or (some v) rest =
    some (record { any_version = false; precision = 3; version = v; wildcard = false })

unfoldable pub parse_range_version : Text → Option RangeVersion
unfolding partial_version
parse_range_version t =
    if is_wildcard t
    then some (record {
      any_version = true;
      precision = 0;
      version = stable_version 0 0 0;
      wildcard = true;
    })
    else exact_or (parse_version t) (partial_version t)
