-- ===== src/Selection/Choice.antt =====
-- Which executor is chosen.
use tego_next.Base.{
  ℕ, suc, ◌≤◌, ◌<◌, true, false, List, [], ◌∷◌, ◌++◌, Option, none, some, ok, err, filter,
  if◌then◌else◌, ◌≡◌, refl, ap, arith, All, All-map, All-of, All-split, All-zip, subst, Bool-cases,
  inl, inr,
}
use tego_next.Contracts.Diagnostic.{Outcome, executor_selection_unavailable}
use tego_next.Selection.{
  ExecutorKind, kind_beq, ExecutorSelectionCandidate, ExecutorSelectionRequest, is_eligible,
  preference_of, find_kind, found_or, choose, select_executor,
}

-- The place of a kind among the preferred ones; their number where it is not one of them.
abbrev pub rank : List ExecutorKind → ExecutorKind → ℕ
rank [] kind = 0
rank (k ∷ ks) kind = if kind_beq kind k then 0 else suc (rank ks kind)

-- The candidate comes first among those with the best place.
pub record IsBest (kinds : List ExecutorKind) (cs : List ExecutorSelectionCandidate)
    (c : ExecutorSelectionCandidate) : Type 0 where
  pub before_it : List ExecutorSelectionCandidate
  pub after_it : List ExecutorSelectionCandidate
  pub split : cs ≡ before_it ++ c ∷ after_it
  pub least : All (λ d. rank kinds c.kind ≤ rank kinds d.kind) cs
  pub first : All (λ d. rank kinds c.kind < rank kinds d.kind) before_it

abbrev pub IsChoice :
    List ExecutorKind
    → List ExecutorSelectionCandidate
    → Outcome ExecutorSelectionCandidate
    → Type 0
IsChoice kinds cs (ok c) = IsBest kinds cs c
IsChoice kinds cs (err e) = (e ≡ executor_selection_unavailable) × (cs ≡ [])

-- What a search for a kind finds.
abbrev Found :
    ExecutorKind → List ExecutorSelectionCandidate → Option ExecutorSelectionCandidate → Type 0
Found k cs none = All (λ d. kind_beq d.kind k ≡ false) cs
Found k cs (some c) =
    (xs : List ExecutorSelectionCandidate) × (ys : List ExecutorSelectionCandidate) × (cs
      ≡ xs ++ c ∷ ys)
    × (kind_beq c.kind k ≡ true)
    × All (λ d. kind_beq d.kind k ≡ false) xs

shifted :
    (k : ExecutorKind) (c : ExecutorSelectionCandidate) (cs : List ExecutorSelectionCandidate)
    (o : Option ExecutorSelectionCandidate)
    → kind_beq c.kind k ≡ false
    → Found k cs o
    → Found k (c ∷ cs) o
shifted k c cs none e h = (e, h)
shifted k c cs (some d) e (xs, ys, s, q, h) = (c ∷ xs, ys, ap (λ r. c ∷ r) s, q, (e, h))

find-Found : (k : ExecutorKind) (cs : List ExecutorSelectionCandidate) → Found k cs (find_kind k cs)
find-Found k [] = tt
find-Found k (c ∷ cs) = elim (Bool-cases (kind_beq c.kind k)) [
  | inl e ↦ rw e ([], cs, refl, e, tt)
  | inr e ↦ rw e (shifted k c cs (find_kind k cs) e (find-Found k cs))
]

-- With no candidate of the first kind, the other kinds decide.
passed_over :
    (k : ExecutorKind) (ks : List ExecutorKind) (cs : List ExecutorSelectionCandidate)
    (r : Outcome ExecutorSelectionCandidate)
    → All (λ d. kind_beq d.kind k ≡ false) cs
    → IsChoice ks cs r
    → IsChoice (k ∷ ks) cs r
passed_over k ks cs (err e) h i = i
passed_over k ks cs (ok c) h i =
    let (absent, at_c, _) =
      All-split _ i.before_it c i.after_it
        (subst (All (λ d. kind_beq d.kind k ≡ false)) i.split h) in
    record {
      before_it = i.before_it;
      after_it = i.after_it;
      split = i.split;
      least = All-zip _ _ _ cs (λ d s l. rw (s, at_c) (omega (arith, l))) h i.least;
      first = All-zip _ _ _ i.before_it (λ d s l. rw (s, at_c) (omega (arith, l))) absent i.first;
    }

choose-IsChoice :
    (ks : List ExecutorKind) (cs : List ExecutorSelectionCandidate) → IsChoice ks cs (choose ks cs)
unfolding choose
choose-IsChoice [] [] = (refl, refl)
choose-IsChoice [] (c ∷ cs) = record {
  before_it = [];
  after_it = cs;
  split = refl;
  least = (omega arith, All-of _ cs (λ d. omega arith));
  first = tt;
}
choose-IsChoice (k ∷ ks) cs = pick (find_kind k cs) (find-Found k cs) (choose-IsChoice ks cs)
  where
    pick :
        (o : Option ExecutorSelectionCandidate)
        → Found k cs o
        → IsChoice ks cs (choose ks cs)
        → IsChoice (k ∷ ks) cs (found_or o (choose ks cs))
    pick none h i = passed_over k ks cs (choose ks cs) h i
    pick (some c) (xs, ys, s, e, h) i = record {
      before_it = xs;
      after_it = ys;
      split = s;
      least = rw e (All-of _ cs (λ d. omega arith));
      first = All-map (λ d. kind_beq d.kind k ≡ false) _ xs (λ d n. rw (n, e) (omega arith)) h;
    }

-- Whatever is asked: the chosen executor is the first of the candidates whose kind is supported and
-- granted, that are healthy and available and have the resources, with the best place in the
-- preferred kinds; and the call throws its code only where there is no such candidate.
pub select_executor-IsChoice :
    (q : ExecutorSelectionRequest)
    → IsChoice
        (preference_of q.preference)
        (filter (is_eligible q) q.candidates)
        (select_executor q)
unfolding select_executor
select_executor-IsChoice q =
    choose-IsChoice (preference_of q.preference) (filter (is_eligible q) q.candidates)
