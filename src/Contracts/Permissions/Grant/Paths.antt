-- ===== src/Contracts/Permissions/Grant/Paths.antt =====
-- `containsLogicalPath` is transitive among absolute paths.
use tego_next.Base.{
  Text, Bool, true, false, ◌≡◌, refl, [], ◌∷◌, ◌++◌, arith, text_beq, text_beq_iff, ◌||◌, subst,
  sym, inl, inr, ◌⊎◌,
}
use tego_next.Contracts.Permissions.Names.{starts_with_slash}
use tego_next.Contracts.Permissions.Grant.{begins_with, contains_logical_path}

begins_with_trans :
    (p q t : Text) → begins_with p q ≡ true → begins_with q t ≡ true → begins_with p t ≡ true
unfolding begins_with
begins_with_trans [] q t h k = refl
begins_with_trans (a ∷ p) [] t h k = cc
begins_with_trans (a ∷ p) (b ∷ q) [] h k = cc
begins_with_trans (a ∷ p) (b ∷ q) (c ∷ t) h k = ground (arith, begins_with_trans p q t)

begins_with-append : (p q r : Text) → begins_with p q ≡ true → begins_with p (q ++ r) ≡ true
unfolding begins_with
begins_with-append [] q r h = refl
begins_with-append (a ∷ p) [] r h = cc
begins_with-append (a ∷ p) (b ∷ q) r h = ground (arith, begins_with-append p q r)

-- What lies under a path with a slash after it.
IsBelow : Text → Text → Type 0
IsBelow root target = begins_with (root ++ b'/' ∷ []) target ≡ true

IsBelow-trans : (p q t : Text) → IsBelow p q → IsBelow q t → IsBelow p t
unfolding IsBelow
IsBelow-trans p q t h k =
    begins_with_trans (p ++ b'/' ∷ []) (q ++ b'/' ∷ []) t
      (begins_with-append (p ++ b'/' ∷ []) q (b'/' ∷ []) h) k

-- Only the empty path and the root itself contain the root.
IsBelow-root : (p t : Text) → IsBelow p (b'/' ∷ []) → starts_with_slash t ≡ true → IsBelow p t
unfolding IsBelow begins_with starts_with_slash
IsBelow-root [] [] h s = cc
IsBelow-root [] (c ∷ t) h s = ground arith
IsBelow-root (a ∷ []) t h s = ground arith
IsBelow-root (a ∷ b ∷ p) t h s = ground arith

or_true : (a b : Bool) → (a || b) ≡ true → (a ≡ true) ⊎ (b ≡ true)
or_true true b h = inl refl
or_true false b h = inr h

or_right : (a b : Bool) → b ≡ true → (a || b) ≡ true
or_right a b h = ground arith

contains-cases :
    (p t : Text) → contains_logical_path p t ≡ true → (p ≡ b'/' ∷ []) ⊎ ((t ≡ p) ⊎ IsBelow p t)
unfolding contains_logical_path IsBelow
contains-cases p t h = elim (or_true (text_beq p (b'/' ∷ [])) _ h) [
  | inl e ↦ inl ((text_beq_iff p (b'/' ∷ [])).0 e)
  | inr k ↦ elim (or_true (text_beq t p) _ k) [
    | inl e ↦ inr (inl ((text_beq_iff t p).0 e))
    | inr b ↦ inr (inr b)
  ]
]

contains-root : (t : Text) → contains_logical_path (b'/' ∷ []) t ≡ true
unfolding contains_logical_path text_beq
contains-root t = refl

contains-below : (p t : Text) → IsBelow p t → contains_logical_path p t ≡ true
unfolding contains_logical_path IsBelow
contains-below p t h = or_right (text_beq p (b'/' ∷ [])) _ (or_right (text_beq t p) _ h)

pub contains_logical_path_trans :
    (p q t : Text)
    → starts_with_slash t ≡ true
    → contains_logical_path p q ≡ true
    → contains_logical_path q t ≡ true
    → contains_logical_path p t ≡ true
contains_logical_path_trans p q t s h k = elim (contains-cases p q h) [
  | inl e ↦ subst (λ r. contains_logical_path r t ≡ true) (sym e) (contains-root t)
  | inr (inl e) ↦ subst (λ r. contains_logical_path r t ≡ true) e k
  | inr (inr b) ↦ elim (contains-cases q t k) [
    | inl e ↦ contains-below p t (IsBelow-root p t (subst (IsBelow p) e b) s)
    | inr (inl e) ↦ subst (λ r. contains_logical_path p r ≡ true) (sym e) h
    | inr (inr d) ↦ contains-below p t (IsBelow-trans p q t b d)
  ]
]
