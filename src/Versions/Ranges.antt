-- ===== src/Versions/Ranges.antt =====
-- version.ts, the comparators of a range and what satisfies them.
pub mod Caret
use tego_next.Base.{
  ℕ, zero, suc, ◌+◌, Bool, true, false, ◌&&◌, ◌||◌, not, Text, text_beq, List, [], ◌∷◌, length, all,
  any, leb, ltb, nat_beq, if◌then◌else◌, Option, none, some, is_some,
}
use tego_next.Base.Options.{◌>>=◌, ◌>>◌, require}
use tego_next.Contracts.Platform.{is_safe_integer}
use tego_next.Contracts.State.{Comparison, less, equal, greater}
use tego_next.Versions.{Version, RangeVersion, stable_version, is_empty_text, compare_version}
use tego_next.Versions.Parse.{parse_version, parse_range_version}

pub data Operator : Type 0 where
  caret tilde at_least at_most above below exactly no_operator : Operator

abbrev pub increment : ℕ → Option ℕ
increment n = if is_safe_integer (n + 1) then some (n + 1) else none

abbrev pub with_next : Option ℕ → (ℕ → Version) → Option Version
with_next none make = none
with_next (some n) make = some (make n)

unfoldable pub partial_upper_bound : RangeVersion → Option Version
partial_upper_bound t =
    if t.any_version
    then none
    else if leb t.precision 1
    then with_next (increment t.version.major) (λ n. stable_version n 0 0)
    else with_next (increment t.version.minor) (λ n. stable_version t.version.major n 0)

unfoldable pub caret_upper_bound : RangeVersion → Option Version
caret_upper_bound t =
    if t.any_version
    then none
    else if nat_beq t.precision 1 || ltb 0 t.version.major
    then with_next (increment t.version.major) (λ n. stable_version n 0 0)
    else if nat_beq t.precision 2 || ltb 0 t.version.minor
    then with_next (increment t.version.minor) (λ n. stable_version 0 n 0)
    else with_next (increment t.version.patch) (λ n. stable_version 0 0 n)

abbrev pub Comparator : Type 0
Comparator = Operator × RangeVersion

-- After `^` or `~` no wildcard may stand; after the others none but with no operator.
tight : Operator → Text → Option Comparator
tight o t = do
  target ← parse_range_version t
  require (not target.any_version && not target.wildcard)
  some (o, target)

loose : Operator → Text → Option Comparator
loose o t = do target ← parse_range_version t; require (not target.wildcard); some (o, target)

bare : Text → Option Comparator
bare t = do target ← parse_range_version t; some (no_operator, target)

-- Where nothing follows an operator, the pattern takes a shorter one or none; what then follows is no
-- version either, and the result is the same.
unfoldable pub comparator_parts : Text → Option Comparator
unfolding tight loose bare
comparator_parts [] = bare []
comparator_parts (c ∷ []) = bare (c ∷ [])
comparator_parts (c ∷ d ∷ t) =
    if nat_beq c b'^'
    then tight caret (d ∷ t)
    else if nat_beq c b'~'
    then tight tilde (d ∷ t)
    else if nat_beq c b'>'
    then if nat_beq d b'=' then loose at_least t else loose above (d ∷ t)
    else if nat_beq c b'<'
    then if nat_beq d b'=' then loose at_most t else loose below (d ∷ t)
    else if nat_beq c b'='
    then loose exactly (d ∷ t)
    else bare (c ∷ d ∷ t)

abbrev takes_part : RangeVersion → Bool
takes_part t = t.wildcard || ltb t.precision 3

-- The bound that the comparator needs is a version.
abbrev pub has_bound : Operator → RangeVersion → Bool
has_bound caret t = is_some (caret_upper_bound t)
has_bound tilde t = is_some (partial_upper_bound t)
has_bound exactly t = if takes_part t then is_some (partial_upper_bound t) else true
has_bound no_operator t = if takes_part t then is_some (partial_upper_bound t) else true
has_bound above t = if ltb t.precision 3 then is_some (partial_upper_bound t) else true
has_bound at_most t = if ltb t.precision 3 then is_some (partial_upper_bound t) else true
has_bound at_least t = true
has_bound below t = true

abbrev pub is_bare : Operator → Bool
is_bare no_operator = true
is_bare _ = false

abbrev supported_parts : Option Comparator → Bool
supported_parts none = false
supported_parts (some (o, t)) = if t.any_version then is_bare o else has_bound o t

unfoldable pub is_supported_comparator : Text → Bool
is_supported_comparator t = supported_parts (comparator_parts t)

abbrev pub is_below : Comparison → Bool
is_below less = true
is_below equal = false
is_below greater = false

abbrev pub is_above : Comparison → Bool
is_above less = false
is_above equal = false
is_above greater = true

-- `maximum !== undefined && test(maximum)`.
abbrev pub with_bound : Option Version → (Version → Bool) → Bool
with_bound none test = false
with_bound (some maximum) test = test maximum

-- `satisfiesComparator` after `target.any`.
unfoldable pub meets : Version → Operator → RangeVersion → Bool
meets v caret t =
    with_bound (caret_upper_bound t)
      (λ m. not (is_below (compare_version v t.version)) && is_below (compare_version v m))
meets v tilde t =
    with_bound (partial_upper_bound t)
      (λ m. not (is_below (compare_version v t.version)) && is_below (compare_version v m))
meets v above t =
    if nat_beq t.precision 3
    then is_above (compare_version v t.version)
    else with_bound (partial_upper_bound t) (λ m. not (is_below (compare_version v m)))
meets v at_least t = not (is_below (compare_version v t.version))
meets v below t = is_below (compare_version v t.version)
meets v at_most t =
    if nat_beq t.precision 3
    then not (is_above (compare_version v t.version))
    else with_bound (partial_upper_bound t) (λ m. is_below (compare_version v m))
meets v _ t =
    if nat_beq t.precision 3 && not t.wildcard
    then not (is_below (compare_version v t.version))
      && not (is_above (compare_version v t.version))
    else with_bound (partial_upper_bound t)
        (λ m. not (is_below (compare_version v t.version)) && is_below (compare_version v m))

abbrev pub satisfies_parts : Version → Option Comparator → Bool
satisfies_parts v none = false
satisfies_parts v (some (o, t)) = if t.any_version then true else meets v o t

unfoldable pub satisfies_comparator : Version → Text → Bool
satisfies_comparator v t = satisfies_parts v (comparator_parts t)

-- `\s`, which is also what `trim` removes.
abbrev pub is_space : ℕ → Bool
is_space c =
    (leb 9 c && leb c 13)
    || (any (nat_beq c) (32 ∷ 160 ∷ 5760 ∷ 8232 ∷ 8233 ∷ 8239 ∷ 8287 ∷ 12288 ∷ 65279 ∷ [])
        || (leb 8192 c && leb c 8202))

abbrev add_unit : ℕ → List Text → List Text
add_unit c [] = (c ∷ []) ∷ []
add_unit c (p ∷ ps) = (c ∷ p) ∷ ps

-- `split("||")`.
unfoldable pub split_bars : Text → List Text
split_bars [] = [] ∷ []
split_bars (c ∷ []) = (c ∷ []) ∷ []
split_bars (c ∷ d ∷ t) = elim (nat_beq c b'|' && nat_beq d b'|') [
  | true ↦ [] ∷ split_bars t
  | false ↦ add_unit c (split_bars (d ∷ t))
]

abbrev keep_word : Text → List Text → List Text
keep_word [] ws = ws
keep_word (c ∷ w) ws = (c ∷ w) ∷ ws

-- The words before the spaces and after them; the first may go on to the left.
words_from : Text → Text × List Text
words_from [] = ([], [])
words_from (c ∷ t) =
    let (w, ws) = words_from t in if is_space c then ([], keep_word w ws) else (c ∷ w, ws)

-- `trim()`, then `split(/\s+/u)`; nothing where the trimmed text is empty.
unfoldable pub words : Text → List Text
unfolding words_from
words t = let (w, ws) = words_from t in keep_word w ws

abbrev words_each : List Text → List (List Text)
words_each [] = []
words_each (t ∷ ts) = words t ∷ words_each ts

abbrev is_empty_list : List Text → Bool
is_empty_list [] = true
is_empty_list (t ∷ ts) = false

unfoldable pub comparator_sets : Text → Option (List (List Text))
comparator_sets range = do
  let sets = words_each (split_bars range)
  require (not (any is_empty_list sets))
  require (not (any (any (λ t. not (is_supported_comparator t))) sets))
  some sets

abbrev pub same_core : Version → Version → Bool
same_core v w = nat_beq v.major w.major && (nat_beq v.minor w.minor && nat_beq v.patch w.patch)

abbrev no_tags : List Text → Bool
no_tags [] = true
no_tags (t ∷ ts) = false

abbrev admits_tags : Version → Option Comparator → Bool
admits_tags v none = false
admits_tags v (some (o, t)) = not (no_tags t.version.prerelease) && same_core t.version v

unfoldable pub opts_into_prerelease : List Text → Version → Bool
opts_into_prerelease comparators v =
    no_tags v.prerelease || any (λ t. admits_tags v (comparator_parts t)) comparators

unfoldable pub is_valid_version : Text → Bool
is_valid_version t = is_some (parse_version t)

unfoldable pub is_valid_version_range : Text → Bool
is_valid_version_range range = is_some (comparator_sets range)

abbrev pub satisfies_sets : Option Version → Option (List (List Text)) → Bool
satisfies_sets (some v) (some sets) =
    any (λ cs. opts_into_prerelease cs v && all (satisfies_comparator v) cs) sets
satisfies_sets _ _ = false

unfoldable pub satisfies_version_range : Text → Text → Bool
satisfies_version_range value range = satisfies_sets (parse_version value) (comparator_sets range)
