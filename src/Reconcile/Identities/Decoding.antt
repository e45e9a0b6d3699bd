-- ===== src/Reconcile/Identities/Decoding.antt =====
-- A stable name that was not cut determines its parts.
use tego_next.Base.{
  ℕ, ◌≤◌, Text, Bool, true, false, ◌≡◌, refl, ap, List, [], ◌∷◌, ◌++◌, arith, nat_beq, nat_beq_iff,
  length, map, if◌then◌else◌, leb, Bool-cases, inl, inr, ap₂, ◌∙◌, not, ◌&&◌,
}
use tego_next.Versions.Parse.{split_dots}
use tego_next.Reconcile.Identities.{escape, stable_candidate, portable_stable_id}

-- The reverse of `escape`.
unescape : Text → Text
unescape [] = []
unescape (c ∷ []) = c ∷ []
unescape (c ∷ d ∷ rest) =
    let after_pair = unescape rest in
    let after_one = unescape (d ∷ rest) in
    if nat_beq c b'_'
    then (if nat_beq d b'u' then b'_' ∷ after_pair else b'.' ∷ after_pair)
    else c ∷ after_one

-- What a unit becomes.
escape_unit : ℕ → Text
escape_unit c =
    if nat_beq c b'_' then b'_' ∷ b'u' ∷ [] else if nat_beq c b'.' then b'_' ∷ b'd' ∷ [] else c ∷ []

escape-cons : (c : ℕ) (t : Text) → escape (c ∷ t) ≡ escape_unit c ++ escape t
unfolding escape escape_unit
escape-cons c t = ground arith

unescape-cons : (c : ℕ) (t : Text) → nat_beq c b'_' ≡ false → unescape (c ∷ t) ≡ c ∷ unescape t
unfolding unescape
unescape-cons c [] h = refl
unescape-cons c (d ∷ t) h = rw h refl

unescape-escape_unit : (c : ℕ) (t : Text) → unescape (escape_unit c ++ t) ≡ c ∷ unescape t
unfolding unescape escape_unit
unescape-escape_unit c t = elim (Bool-cases (nat_beq c b'_')) [
  | inl e ↦ let same = (nat_beq_iff c b'_').0 e in rw (e, same) refl
  | inr e ↦ elim (Bool-cases (nat_beq c b'.')) [
    | inl f ↦ let same = (nat_beq_iff c b'.').0 f in rw (e, f, same) refl
    | inr f ↦ rw (e, f) (unescape-cons c t e)
  ]
]

unescape-escape : (t : Text) → unescape (escape t) ≡ t
unfolding escape unescape
unescape-escape [] = refl
unescape-escape (c ∷ t) =
    rw (escape-cons c t, unescape-escape_unit c (escape t), unescape-escape t) refl

has_no_dot : Text → Bool
has_no_dot [] = true
has_no_dot (c ∷ t) = not (nat_beq c b'.') && has_no_dot t

has_no_dot-escape_unit : (c : ℕ) (t : Text) → has_no_dot (escape_unit c ++ t) ≡ has_no_dot t
unfolding has_no_dot escape_unit
has_no_dot-escape_unit c t = ground arith

has_no_dot-escape : (t : Text) → has_no_dot (escape t) ≡ true
unfolding has_no_dot escape
has_no_dot-escape [] = refl
has_no_dot-escape (c ∷ t) =
    rw (escape-cons c t, has_no_dot-escape_unit c (escape t)) (has_no_dot-escape t)

split_dots-last : (t : Text) → has_no_dot t ≡ true → split_dots t ≡ t ∷ []
unfolding split_dots has_no_dot
split_dots-last [] h = refl
split_dots-last (c ∷ t) h = ground (arith, split_dots-last t)

split_dots-more :
    (t rest : Text) → has_no_dot t ≡ true → split_dots (t ++ b'.' ∷ rest) ≡ t ∷ split_dots rest
unfolding split_dots has_no_dot
split_dots-more [] rest h = refl
split_dots-more (c ∷ t) rest h = ground (arith, split_dots-more t rest)

split_dots-stable_candidate :
    (part : Text) (parts : List Text)
    → split_dots (stable_candidate (part ∷ parts)) ≡ map escape (part ∷ parts)
unfolding stable_candidate
split_dots-stable_candidate part [] = split_dots-last (escape part) (has_no_dot-escape part)
split_dots-stable_candidate part (next ∷ parts) =
    split_dots-more (escape part) (stable_candidate (next ∷ parts)) (has_no_dot-escape part)
    ∙ ap (λ ts. escape part ∷ ts) (split_dots-stable_candidate next parts)

map-unescape-escape : (parts : List Text) → map unescape (map escape parts) ≡ parts
map-unescape-escape [] = refl
map-unescape-escape (t ∷ ts) = ap₂ ◌∷◌ (unescape-escape t) (map-unescape-escape ts)

-- The parts that a stable name of at most 128 units stands for.
pub parts_of : Text → List Text
parts_of id = map unescape (split_dots id)

-- The parts of a stable name are read back from it when the escaped and joined parts are at most
-- 128 units long.
pub parts_of-portable_stable_id :
    (digest_of : List Text → Text) (part : Text) (parts : List Text)
    → length (stable_candidate (part ∷ parts)) ≤ 128
    → parts_of (portable_stable_id digest_of (part ∷ parts)) ≡ part ∷ parts
unfolding parts_of portable_stable_id
parts_of-portable_stable_id digest_of part parts h =
    let short : leb (length (stable_candidate (part ∷ parts))) 128 ≡ true = ground arith in
    rw (short, split_dots-stable_candidate part parts) (map-unescape-escape (part ∷ parts))
