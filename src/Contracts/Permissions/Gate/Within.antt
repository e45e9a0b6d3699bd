-- ===== src/Contracts/Permissions/Gate/Within.antt =====
-- A valid grant gives no call that the request does not give.
use tego_next.Base.{
  Text, text_eq, text_beq, text_beq_iff, Bool, true, ◌≡◌, refl, List, [], ◌∷◌, arith, all, any,
  ◌&&◌, subst, sym, and_split, some, Option-cases, inl, inr, Bool-cases, Map, get, nat_beq,
  nat_beq_iff, ◌∙◌,
}
use tego_next.Selection.{ExecutorKind, kind_beq, process, remote, thread}
use tego_next.Contracts.Permissions.{
  FilesystemAccess, read, write, same_access, CapabilityPermissionEntry, FilesystemRootPermission,
  Permission, capabilities, environments, executors, roots, networks, secrets, workers, kind_of,
  same_kind, PermissionKind, find_permission, PermissionCallAttempt, call_capability,
  call_environment, call_executor, call_filesystem, call_network, call_secret, call_worker,
  attempt_kind,
}
use tego_next.Contracts.Permissions.Names.{includes, starts_with_slash}
use tego_next.Contracts.Permissions.Grant.{
  contains_all, includes_port, includes_access, contains_logical_path, find_entry, entry_within,
  root_within, has_label, category_subset, is_within,
}
use tego_next.Contracts.Permissions.Grant.Paths.{contains_logical_path_trans}
use tego_next.Contracts.Permissions.Gate.{allows, gate_attempt}

module _ {A : Type 0} where
  -- An element that passes a test passes what all elements pass.
  any-all :
      (p q : A → Bool) (xs : List A)
      → all p xs ≡ true
      → any q xs ≡ true
      → (a : A) × (p a ≡ true) × (q a ≡ true)
  any-all p q [] h k = cc
  any-all p q (x ∷ xs) h k = elim (Bool-cases (q x)) [
    | inl e ↦ (x, (and_split _ _ h).0, e)
    | inr e ↦ any-all p q xs (and_split _ _ h).1 (ground arith)
  ]

  all_map :
      (p q : A → Bool) (xs : List A)
      → ((a : A) → p a ≡ true → q a ≡ true)
      → all p xs ≡ true
      → all q xs ≡ true
  all_map p q [] f h = refl
  all_map p q (x ∷ xs) f h = rw (f x (and_split _ _ h).0) (all_map p q xs f (and_split _ _ h).1)

  any_map :
      (p q : A → Bool) (xs : List A)
      → ((a : A) → p a ≡ true → q a ≡ true)
      → any p xs ≡ true
      → any q xs ≡ true
  any_map p q [] f h = cc
  any_map p q (x ∷ xs) f h = elim (Bool-cases (p x)) [
    | inl e ↦ rw (f x e) refl
    | inr e ↦ let rest = any_map p q xs f (ground arith) in ground arith
  ]

  -- Lists compared element by element, with an equality that is sound.
  module _ (same : A → A → Bool) (sound : (a b : A) → same a b ≡ true → a ≡ b) where
    includes-within :
        (maximum given : List A) (a : A)
        → all (λ b. any (same b) maximum) given ≡ true
        → any (same a) given ≡ true
        → any (same a) maximum ≡ true
    includes-within maximum given a h k =
        let (b, inside, s) = any-all (λ c. any (same c) maximum) (same a) given h k in
        subst (λ c. any (same c) maximum ≡ true) (sym (sound a b s)) inside

kind_beq_sound : (a b : ExecutorKind) → kind_beq a b ≡ true → a ≡ b
kind_beq_sound process process h = refl
kind_beq_sound remote remote h = refl
kind_beq_sound thread thread h = refl
kind_beq_sound _ _ h = cc

same_access_sound : (a b : FilesystemAccess) → same_access a b ≡ true → a ≡ b
same_access_sound read read h = refl
same_access_sound write write h = refl
same_access_sound _ _ h = cc

texts-within :
    (maximum names : List Text) (name : Text)
    → contains_all maximum names ≡ true
    → includes names name ≡ true
    → includes maximum name ≡ true
texts-within = includes-within text_beq (λ a b. (text_beq_iff a b).0)

-- One entry that allows a call lies within an entry of the request, which allows it too.
entry-within :
    (maximum : List CapabilityPermissionEntry) (name method : Text) (e : CapabilityPermissionEntry)
    → entry_within maximum e ≡ true
    → text_beq e.name name && includes e.methods method ≡ true
    → any (λ m. text_beq m.name name && includes m.methods method) maximum ≡ true
unfolding find_entry
entry-within [] name method e h k = cc
entry-within (m ∷ maximum) name method e h k = elim (Bool-cases (text_beq m.name e.name)) [
  | inl s ↦
      let within : contains_all m.methods e.methods ≡ true = ground arith in
      let (n, i) = and_split (text_beq e.name name) _ k in
      let inside = texts-within m.methods e.methods method within i in
      let named : text_beq m.name name ≡ true =
        (text_beq_iff m.name name).1
          ((text_beq_iff m.name e.name).0 s ∙ (text_beq_iff e.name name).0 n) in
      rw (named, inside) refl
  | inr s ↦ let rest = entry-within maximum name method e (ground arith) k in ground arith
]

root-within :
    (maximum : List FilesystemRootPermission) (path : Text) (mode : FilesystemAccess)
    (r : FilesystemRootPermission)
    → starts_with_slash path ≡ true
    → root_within maximum r ≡ true
    → contains_logical_path r.path path && includes_access r.access mode ≡ true
    → any (λ m. contains_logical_path m.path path && includes_access m.access mode) maximum ≡ true
root-within maximum path mode r s h k =
    let (c, i) = and_split (contains_logical_path r.path path) _ k in
    any_map _ _ maximum
      (λ m w.
        let (d, j) = and_split (contains_logical_path m.path r.path) _ w in
        rw
          (
            contains_logical_path_trans m.path r.path path s d c,
            includes-within same_access same_access_sound m.access r.access mode j i,
          )
          refl)
      h

-- A label found is among the labels.
all-get :
    (p : Text × Text → Bool) (name value : Text) (m : Map Text Text)
    → all p m ≡ true
    → get name m ≡ some value
    → p (name, value) ≡ true
unfolding get
all-get p name value [] h g = cc
all-get p name value ((j, v) ∷ m) h g = ground (arith, text_beq_iff j name, all-get p name value m)

has_label-get :
    (labels : Map Text Text) (name value : Text)
    → has_label labels (name, value) ≡ true
    → get name labels ≡ some value
has_label-get labels name value h = elim (Option-cases (get name labels)) [
  | inl e ↦ cc
  | inr (found, e) ↦ ground (arith, text_beq_iff found value)
]

label-within :
    (given attempt : Map Text Text) (l : Text × Text)
    → all (has_label attempt) given ≡ true
    → has_label given l ≡ true
    → has_label attempt l ≡ true
label-within given attempt (name, value) h k =
    all-get (has_label attempt) name value given h (has_label-get given name value k)

abbrev pub IsAbsolute : PermissionCallAttempt → Type 0
IsAbsolute (call_filesystem path access) = starts_with_slash path ≡ true
IsAbsolute _ = Unit

category-within :
    (maximum p : Permission) (attempt : PermissionCallAttempt)
    → IsAbsolute attempt
    → category_subset maximum p ≡ true
    → allows p attempt ≡ true
    → allows maximum attempt ≡ true
unfolding category_subset allows
category-within (capabilities m) (capabilities es) (call_capability name method) s h k =
    let (e, w, a) = any-all (entry_within m) _ es h k in entry-within m name method e w a
category-within (environments m) (environments ns) (call_environment n) s h k =
    texts-within m ns n h k
category-within (secrets m) (secrets ns) (call_secret n) s h k = texts-within m ns n h k
category-within (executors m) (executors ks) (call_executor kind) s h k =
    includes-within kind_beq kind_beq_sound m ks kind h k
category-within (roots m) (roots rs) (call_filesystem path mode) s h k =
    let (r, w, a) = any-all (root_within m) _ rs h k in root-within m path mode r s w a
category-within (networks a b c) (networks d e f) (call_network host port method) s h k =
    let (h₁, h₂) = and_split (contains_all a d) _ h in
    let (h₃, h₄) = and_split (all (includes_port b) e) _ h₂ in
    let (k₁, k₂) = and_split (includes d host) _ k in
    let (k₃, k₄) = and_split (includes_port e port) _ k₂ in
    rw
      (
        texts-within a d host h₁ k₁,
        includes-within nat_beq (λ x y. (nat_beq_iff x y).0) b e port h₃ k₃,
        texts-within c f method h₄ k₄,
      )
      refl
category-within (workers m c) (workers g d) (call_worker labels resources) s h k =
    let (h₁, h₂) = and_split (all (has_label g) m) _ h in
    let (k₁, k₂) = and_split (all (has_label labels) g) _ k in
    rw (all_map (has_label g) (has_label labels) m (λ l. label-within g labels l k₁) h₁)
      (ground arith)
category-within _ _ _ s h k = cc

allows_kind :
    (p : Permission) (attempt : PermissionCallAttempt)
    → allows p attempt ≡ true
    → kind_of p ≡ attempt_kind attempt
unfolding allows
allows_kind (capabilities es) (call_capability name method) h = refl
allows_kind (environments ns) (call_environment n) h = refl
allows_kind (secrets ns) (call_secret n) h = refl
allows_kind (executors ks) (call_executor kind) h = refl
allows_kind (roots rs) (call_filesystem path mode) h = refl
allows_kind (networks d e f) (call_network host port method) h = refl
allows_kind (workers g d) (call_worker labels resources) h = refl
allows_kind _ _ h = cc

find_permission-all :
    (q : Permission → Bool) (kind : PermissionKind) (ps : List Permission) (p : Permission)
    → all q ps ≡ true
    → find_permission kind ps ≡ some p
    → q p ≡ true
unfolding find_permission
find_permission-all q kind [] p h k = cc
find_permission-all q kind (r ∷ ps) p h k = elim (Bool-cases (same_kind (kind_of r) kind)) [
  | inl e ↦ ground arith
  | inr e ↦ find_permission-all q kind ps p (and_split _ _ h).1 (ground arith)
]

-- Some permission of the call's kind allows it, in the place where the gate looks.
abbrev AllowsIn : List Permission → PermissionCallAttempt → Type 0
AllowsIn ps attempt =
    (p : Permission) × (find_permission (attempt_kind attempt) ps ≡ some p)
    × (allows p attempt ≡ true)

gate_attempt-AllowsIn :
    (ps : List Permission) (attempt : PermissionCallAttempt)
    → (gate_attempt ps attempt).allowed ≡ true
    → AllowsIn ps attempt
unfolding gate_attempt
gate_attempt-AllowsIn ps attempt h =
    elim (Option-cases (find_permission (attempt_kind attempt) ps)) [
      | inl e ↦ cc
      | inr (p, e) ↦ (p, e, elim (Bool-cases (allows p attempt)) [ inl a ↦ a | inr a ↦ cc ])
    ]

AllowsIn-gate_attempt :
    (ps : List Permission) (attempt : PermissionCallAttempt)
    → AllowsIn ps attempt
    → (gate_attempt ps attempt).allowed ≡ true
unfolding gate_attempt
AllowsIn-gate_attempt ps attempt (p, e, a) = ground arith

pub within-gate_attempt :
    (requested granted : List Permission) (attempt : PermissionCallAttempt)
    → IsAbsolute attempt
    → all (is_within requested) granted ≡ true
    → (gate_attempt granted attempt).allowed ≡ true
    → (gate_attempt requested attempt).allowed ≡ true
unfolding is_within
within-gate_attempt requested granted attempt s h k =
    let (p, e, a) = gate_attempt-AllowsIn granted attempt k in
    let inside = find_permission-all (is_within requested) (attempt_kind attempt) granted p h e in
    AllowsIn-gate_attempt requested attempt
      (elim (Option-cases (find_permission (kind_of p) requested)) [
        | inl n ↦ cc
        | inr (m, f) ↦ (
          m,
          subst (λ kind. find_permission kind requested ≡ some m) (allows_kind p attempt a) f,
          category-within m p attempt s (ground arith) a,
        )
      ])
