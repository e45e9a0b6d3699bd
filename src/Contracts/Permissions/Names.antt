-- ===== src/Contracts/Permissions/Names.antt =====
-- packages/contracts/src/permission-grant.ts: the names, hosts, paths, methods and numbers of a
-- permission, each in its canonical form.
pub mod Rooted
use tego_next.Base.{
  ℕ, ◌+◌, ◌-◌, ◌≤◌, Text, text, Bool, true, false, ◌&&◌, ◌||◌, List, [], ◌∷◌, ◌++◌, leb, ltb,
  nat_beq, all, any, length, text_beq, text_eq, if◌then◌else◌, ok, err, guard, ◌>>=◌, ◌>>◌, Option,
  none, some, not,
}
use tego_next.Contracts.Json.{JsonValue}
use tego_next.Contracts.Json.JsonValue.{number}
use tego_next.Contracts.Identity.{
  identity_pattern, decimal_pattern, decimal_value, is_alphanumeric, is_identity_unit,
}
use tego_next.Contracts.Diagnostic.{Outcome}
use tego_next.Contracts.Permissions.Input.{Input, invalid, check, string_at}
use tego_next.Versions.Parse.{split_dots}

unfoldable pub portable_name : Input → Outcome Text
unfolding identity_pattern string_at
portable_name v = do t ← string_at v; check (identity_pattern t); ok t

-- ENVIRONMENT_NAME.
abbrev is_environment_unit : ℕ → Bool
is_environment_unit c = is_alphanumeric c || nat_beq c b'_'

abbrev starts_environment : ℕ → Bool
starts_environment c = is_environment_unit c && not (leb b'0' c && leb c b'9')

environment_pattern : Text → Bool
environment_pattern [] = false
environment_pattern (c ∷ rest) =
    starts_environment c && (all is_environment_unit rest && leb (length rest) 127)

unfoldable pub environment_name : Input → Outcome Text
unfolding environment_pattern string_at
environment_name v = do t ← string_at v; check (environment_pattern t); ok t

-- `value.slice(0, -1)`.
abbrev drop_last : Text → Text
drop_last [] = []
drop_last (c ∷ []) = []
drop_last (c ∷ d ∷ rest) = c ∷ drop_last (d ∷ rest)

ends_with : ℕ → Text → Bool
ends_with c [] = false
ends_with c (d ∷ []) = nat_beq d c
ends_with c (d ∷ e ∷ rest) = ends_with c (e ∷ rest)

has_unit : ℕ → Text → Bool
has_unit c t = any (nat_beq c) t

abbrev lower_unit : ℕ → ℕ
lower_unit c = if leb b'A' c && leb c b'Z' then c + 32 else c

-- `toLowerCase` of an ASCII string, as `domainToASCII` returns.
to_lower : Text → Text
to_lower [] = []
to_lower (c ∷ rest) = lower_unit c ∷ to_lower rest

abbrev is_host_unit : ℕ → Bool
is_host_unit c = (leb b'a' c && leb c b'z') || (leb b'0' c && leb c b'9')

is_host_label : Text → Bool
unfolding ends_with
is_host_label [] = false
is_host_label (c ∷ rest) =
    is_host_unit c
    && (all (λ d. is_host_unit d || nat_beq d b'-') rest
        && (not (ends_with b'-' rest) && leb (length rest) 62))

-- `domainToASCII` is node's.
unfoldable pub canonical_host : (domain_to_ascii : Text → Text) → Input → Outcome Text
unfolding ends_with has_unit is_host_label split_dots string_at to_lower
canonical_host domain_to_ascii v = do
  source ← string_at v
  check (not (has_unit b'*' source || (has_unit 0 source || nat_beq (length source) 0)))
  let without_dot = if ends_with b'.' source then drop_last source else source
  check (not (ends_with b'.' without_dot || nat_beq (length without_dot) 0))
  let ascii = to_lower (domain_to_ascii without_dot)
  check (not (nat_beq (length ascii) 0 || ltb 253 (length ascii)))
  check (all is_host_label (split_dots ascii))
  ok ascii

-- `"/".split`, and the segments of a path.
add_unit : ℕ → List Text → List Text
add_unit c [] = (c ∷ []) ∷ []
add_unit c (t ∷ ts) = (c ∷ t) ∷ ts

split_slashes : Text → List Text
unfolding add_unit
split_slashes [] = [] ∷ []
split_slashes (c ∷ t) =
    let rest = split_slashes t in if nat_beq c b'/' then [] ∷ rest else add_unit c rest

has_double_slash : Text → Bool
has_double_slash [] = false
has_double_slash (c ∷ []) = false
has_double_slash (c ∷ d ∷ rest) = (nat_beq c b'/' && nat_beq d b'/') || has_double_slash (d ∷ rest)

is_bad_segment : Text → Bool
unfolding text_beq
is_bad_segment t =
    text_beq t (b'.' ∷ [])
    || (text_beq t (b'.' ∷ b'.' ∷ []) || (nat_beq (length t) 0 || not (all is_identity_unit t)))

unfoldable pub starts_with_slash : Text → Bool
starts_with_slash [] = false
starts_with_slash (c ∷ t) = nat_beq c b'/'

is_root_path : Text → Bool
unfolding text_beq
is_root_path t = text_beq t (b'/' ∷ [])

abbrev after_first : List Text → List Text
after_first [] = []
after_first (t ∷ ts) = ts

-- An absolute POSIX logical path.
is_absolute : Text → Bool
unfolding has_double_slash has_unit starts_with_slash
is_absolute t =
    starts_with_slash t
    && (not (has_unit 0x5c t) && (not (has_unit 0 t) && not (has_double_slash t)))

has_good_segments : Text → Bool
unfolding is_bad_segment is_root_path split_slashes
has_good_segments t = not (any is_bad_segment (after_first (split_slashes t))) || is_root_path t

-- `source.length > 1 && source.endsWith("/")`.
drop_end_slash : Text → Text
unfolding ends_with
drop_end_slash t = if ltb 1 (length t) && ends_with b'/' t then drop_last t else t

unfoldable pub canonical_root : Input → Outcome Text
unfolding drop_end_slash has_good_segments is_absolute string_at
canonical_root v = do
  source ← string_at v
  check (is_absolute source)
  check (has_good_segments source)
  ok (drop_end_slash source)

-- HTTP_METHODS.
abbrev http_methods : List Text
http_methods =
    text "DELETE"
    ∷ text "GET"
    ∷ text "HEAD"
    ∷ text "OPTIONS"
    ∷ text "PATCH"
    ∷ text "POST"
    ∷ text "PUT"
    ∷ []

abbrev pub includes : List Text → Text → Bool
includes ts t = any (text_beq t) ts

-- The upper case of a unit. Beside a-z these are the units whose upper case is of letters A-Z that
-- an HTTP method has in sequence; every other unit leads outside the methods, as it does unchanged.
abbrev upper_unit : ℕ → Text
upper_unit c =
    if leb b'a' c && leb c b'z'
    then (c - 32) ∷ []
    else if nat_beq c 0x131
    then b'I' ∷ []
    else if nat_beq c 0x17f
    then b'S' ∷ []
    else if nat_beq c 0xfb05 || nat_beq c 0xfb06
    then b'S' ∷ b'T' ∷ []
    else c ∷ []

to_upper : Text → Text
to_upper [] = []
to_upper (c ∷ rest) = upper_unit c ++ to_upper rest

unfoldable pub canonical_method : Input → Outcome Text
unfolding text_beq string_at to_upper
canonical_method v = do
  source ← string_at v
  let method = to_upper source
  check (includes http_methods method)
  ok method

-- A number of a JSON text is a safe integer that is not negative.
safe_integer : Text → Bool
unfolding decimal_pattern decimal_value
safe_integer t = decimal_pattern t && leb (decimal_value t) 9007199254740991

unfoldable pub natural_at : Input → Outcome ℕ
unfolding decimal_value safe_integer
natural_at (some (number t)) = do check (safe_integer t); ok (decimal_value t)
natural_at _ = invalid

unfoldable pub port_at : Input → Outcome ℕ
unfolding natural_at
port_at v = do port ← natural_at v; check (leb 1 port && leb port 65535); ok port
