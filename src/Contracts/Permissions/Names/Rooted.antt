-- ===== src/Contracts/Permissions/Names/Rooted.antt =====
-- Canonical paths begin at the root.
use tego_next.Base.{
  Text, true, ◌≡◌, ◌∷◌, [], ok, arith, >>=-eq-ok, guard->>-eq-ok, ok-injective, subst,
}
use tego_next.Contracts.Permissions.Input.{Input, string_at}
use tego_next.Contracts.Permissions.Names.{
  canonical_root, starts_with_slash, ends_with, is_absolute, has_good_segments, drop_end_slash,
}

drop_end_slash-slash :
    (t : Text) → starts_with_slash t ≡ true → starts_with_slash (drop_end_slash t) ≡ true
unfolding starts_with_slash ends_with drop_end_slash
drop_end_slash-slash [] h = cc
drop_end_slash-slash (c ∷ []) h = ground arith
drop_end_slash-slash (c ∷ d ∷ t) h = ground arith

is_absolute-slash : (t : Text) → is_absolute t ≡ true → starts_with_slash t ≡ true
unfolding is_absolute
is_absolute-slash t h = ground arith

pub canonical_root-slash :
    (v : Input) (p : Text) → canonical_root v ≡ ok p → starts_with_slash p ≡ true
unfolding canonical_root
canonical_root-slash v p h =
    let (source, s, h₁) = >>=-eq-ok (string_at v) _ h in
    let (absolute, h₂) = guard->>-eq-ok (is_absolute source) _ _ h₁ in
    let (_, h₃) = guard->>-eq-ok (has_good_segments source) _ _ h₂ in
    subst (λ q. starts_with_slash q ≡ true) (ok-injective h₃)
      (drop_end_slash-slash source (is_absolute-slash source absolute))
