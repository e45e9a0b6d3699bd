-- ===== src/Contracts/Strings/Utf16.antt =====
-- What a portable string is: the UTF-16 form of a text without NUL.
use tego_next.Base.{
  ℕ, ◌+◌, ◌-◌, ◌*◌, ◌/◌, ◌%◌, ◌<◌, Text, true, false, List, [], ◌∷◌, ltb, if◌then◌else◌, ◌≡◌, refl,
  ◌⊎◌, inl, inr, arith, All, Bool-cases, ◌∙◌, ◌↔◌, subst,
}
use tego_next.Contracts.Strings.{is_leading, is_trailing, is_portable_state_string}

abbrev pub IsUnit16 : ℕ → Type 0
IsUnit16 c = c < 65536

-- A Unicode scalar value other than NUL.
abbrev pub IsScalar : ℕ → Type 0
IsScalar c = (0 < c) × ((c < 0xd800) ⊎ ((0xdfff < c) × (c < 0x110000)))

abbrev encode_scalar : ℕ → Text → Text
encode_scalar c rest =
    if ltb c 0x10000
    then c ∷ rest
    else (0xd800 + (c - 0x10000) / 0x400) ∷ (0xdc00 + (c - 0x10000) % 0x400) ∷ rest

pub encode_utf16 : List ℕ → Text
encode_utf16 [] = []
encode_utf16 (c ∷ cs) = encode_scalar c (encode_utf16 cs)

portable_unit :
    (c : ℕ) (rest : Text)
    → 0 < c
    → is_leading c ≡ false
    → is_trailing c ≡ false
    → is_portable_state_string (c ∷ rest) ≡ is_portable_state_string rest
unfolding is_portable_state_string
portable_unit c [] h l t = ground arith
portable_unit c (d ∷ rest) h l t = ground arith

portable_pair :
    (c d : ℕ) (rest : Text)
    → is_leading c ≡ true
    → is_trailing d ≡ true
    → is_portable_state_string (c ∷ d ∷ rest) ≡ is_portable_state_string rest
unfolding is_portable_state_string
portable_pair c d rest l t = ground arith

portable_scalar :
    (c : ℕ) (rest : Text)
    → IsScalar c
    → is_portable_state_string (encode_scalar c rest) ≡ is_portable_state_string rest
portable_scalar c rest h = elim (Bool-cases (ltb c 0x10000)) [
  | inl e ↦ rw e (portable_unit c rest h.0 (ground arith) (ground arith))
  | inr e ↦ rw e (portable_pair _ _ rest (ground arith) (ground arith))
]

portable-encode :
    (cs : List ℕ) → All IsScalar cs → is_portable_state_string (encode_utf16 cs) ≡ true
unfolding encode_utf16 is_portable_state_string
portable-encode [] h = refl
portable-encode (c ∷ cs) h = portable_scalar c (encode_utf16 cs) h.0 ∙ portable-encode cs h.1

-- The scalar value of a surrogate pair.
abbrev pair_scalar : ℕ → ℕ → ℕ
pair_scalar c d = 0x10000 + ((c - 0xd800) * 0x400 + (d - 0xdc00))

abbrev Decoded : Text → Type 0
Decoded s = (cs : List ℕ) × All IsScalar cs × (encode_utf16 cs ≡ s)

Decoded-unit :
    (c : ℕ) (rest : Text)
    → 0 < c
    → c < 65536
    → is_leading c ≡ false
    → is_trailing c ≡ false
    → Decoded rest
    → Decoded (c ∷ rest)
unfolding encode_utf16
Decoded-unit c rest p u l t (cs, hs, e) = (c ∷ cs, ((p, ground arith), hs), rw e (ground arith))

encode_pair :
    (c d : ℕ) (rest : Text)
    → is_leading c ≡ true
    → is_trailing d ≡ true
    → encode_scalar (pair_scalar c d) rest ≡ c ∷ d ∷ rest
encode_pair c d rest l t = ground arith

Decoded-pair :
    (c d : ℕ) (rest : Text)
    → is_leading c ≡ true
    → is_trailing d ≡ true
    → Decoded rest
    → Decoded (c ∷ d ∷ rest)
unfolding encode_utf16
Decoded-pair c d rest l t (cs, hs, e) =
    (pair_scalar c d ∷ cs, ((omega arith, ground arith), hs), rw e (encode_pair c d rest l t))

portable-decode : (s : Text) → All IsUnit16 s → is_portable_state_string s ≡ true → Decoded s
unfolding is_portable_state_string encode_utf16
portable-decode [] u h = ([], tt, refl)
portable-decode (c ∷ []) u h =
    Decoded-unit c [] (ground arith) u.0 (ground arith) (ground arith) ([], tt, refl)
portable-decode (c ∷ d ∷ rest) u h = elim (Bool-cases (is_leading c)) [
  | inl l ↦ Decoded-pair c d rest l (ground arith) (portable-decode rest u.1.1 (ground arith))
  | inr l ↦
      Decoded-unit c (d ∷ rest) (ground arith) u.0 l (ground arith)
        (portable-decode (d ∷ rest) u.1 (ground arith))
]

-- A sequence of code units is accepted as a portable state string exactly when it is the UTF-16
-- form of a text of Unicode scalar values without NUL.
pub portable_iff :
    (s : Text)
    → All IsUnit16 s
    → (is_portable_state_string s ≡ true)
      ↔ ((cs : List ℕ) × All IsScalar cs × (encode_utf16 cs ≡ s))
portable_iff s u = (
  portable-decode s u,
  λ (cs, hs, e). subst (λ t. is_portable_state_string t ≡ true) e (portable-encode cs hs),
)
