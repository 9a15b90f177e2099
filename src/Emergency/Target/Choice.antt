-- ===== src/Emergency/Target/Choice.antt =====
-- The process that is chosen is one that may be ended, and no other such process scores higher.
use runixo_agent.Prelude.{
  ◌≤◌, ◌<◌, ◌≡◌, ◌↔◌, ◌⊎◌, inl, inr, refl, Bool, true, false, Option, none, some, List, [], ◌∷◌,
  Text, All, Any, All-map, any_iff, text_eq, text_eq_iff, leb, ltb, leb→le, Bool-cases, arith,
}
use mathlib.Core.Path.{subst}
use runixo_agent.Emergency.Target.{
  Process, ProcessScore, protected_names, protected_pid_threshold, least_score,
  is_protected_process, score_of, scored, insert_score, sort_scores, choose, select_target,
}

-- The system's first processes and those with a protected name may not be ended.
abbrev pub IsEligible : Process → Type 0
IsEligible p = (2 < p.pid) × (¬ Any (λ name. p.name ≡ name) protected_names)

is_protected_process_iff :
    (name : Text) → (is_protected_process name ≡ true) ↔ Any (λ n. name ≡ n) protected_names
unfolding is_protected_process
is_protected_process_iff name = any_iff (text_eq name) (text_eq_iff name) protected_names

-- The head of a list has the highest score of those that it was made from.
abbrev Tops : List ProcessScore → List ProcessScore → Type 0
Tops xs [] = xs ≡ []
Tops xs (t ∷ r) = All (λ x. x.score ≤ t.score) xs × Any (λ x. t ≡ x) xs

insert_score-Tops :
    (x : ProcessScore) (xs ys : List ProcessScore) → Tops xs ys → Tops (x ∷ xs) (insert_score x ys)
unfolding insert_score
insert_score-Tops x xs [] e = rw e ((omega arith, tt), inl refl)
insert_score-Tops x xs (y ∷ ys) (high, among) = elim (Bool-cases (ltb x.score y.score)) [
  | inl less ↦ rw less ((ground arith, high), inr among)
  | inr more ↦ rw more ((omega arith, All-map xs (λ z h. ground arith) high), inl refl)
]

sort_scores-Tops : (xs : List ProcessScore) → Tops xs (sort_scores xs)
unfolding sort_scores
sort_scores-Tops [] = refl
sort_scores-Tops (x ∷ xs) = insert_score-Tops x xs (sort_scores xs) (sort_scores-Tops xs)

false_or_true : {b : Bool} → b ≡ false → b ≡ true → ⊥
false_or_true f t = ground arith

-- The loop takes a process up exactly when it may be ended.
scored-cases :
    (p : Process) (ps : List Process)
    → (IsEligible p × (scored (p ∷ ps) ≡ score_of p ∷ scored ps))
      ⊎ ((¬ IsEligible p) × (scored (p ∷ ps) ≡ scored ps))
unfolding scored
scored-cases p ps = elim (Bool-cases (leb p.pid protected_pid_threshold)) [
  | inl low ↦ inr (λ h. omega (arith, h.0, leb→le p.pid protected_pid_threshold low), rw low)
  | inr high ↦ elim (Bool-cases (is_protected_process p.name)) [
    | inl kept ↦ inr (λ h. h.1 ((is_protected_process_iff p.name).0 kept), rw (high, kept))
    | inr free ↦ inl (
      (ground arith, λ m. false_or_true free ((is_protected_process_iff p.name).1 m)),
      rw (high, free),
    )
  ]
]

All-scored :
    (P : ProcessScore → Type 0) (ps : List Process)
    → All P (scored ps)
    → All (λ p. IsEligible p → P (score_of p)) ps
All-scored P [] h = tt
All-scored P (p ∷ ps) h = elim (scored-cases p ps) [
  | inl (ok, e) ↦ let h' = subst (All P) e h in (λ _. h'.0, All-scored P ps h'.1)
  | inr (out, e) ↦ (λ ok. absurd (out ok), All-scored P ps (subst (All P) e h))
]

Any-scored :
    (P : ProcessScore → Type 0) (ps : List Process)
    → Any P (scored ps)
    → Any (λ p. IsEligible p × P (score_of p)) ps
unfolding scored
Any-scored P [] h = elim h [ ]
Any-scored P (p ∷ ps) h = elim (scored-cases p ps) [
  | inl (ok, e) ↦ first ok (subst (Any P) e h) (Any-scored P ps)
  | inr (out, e) ↦ inr (Any-scored P ps (subst (Any P) e h))
]
  where
    first :
        IsEligible p
        → P (score_of p) ⊎ Any P (scored ps)
        → (Any P (scored ps) → Any (λ q. IsEligible q × P (score_of q)) ps)
        → (IsEligible p × P (score_of p)) ⊎ Any (λ q. IsEligible q × P (score_of q)) ps
    first ok (inl q) later = inl (ok, q)
    first ok (inr q) later = inr (later q)

-- What a choice promises of the processes.
abbrev pub Chooses : List Process → Option ProcessScore → Type 0
Chooses ps none = All (λ p. IsEligible p → (score_of p).score < least_score) ps
Chooses ps (some t) =
    Any (λ p. IsEligible p × (t ≡ score_of p)) ps
    × All (λ p. IsEligible p → (score_of p).score ≤ t.score) ps
    × (least_score ≤ t.score)

choose-Chooses :
    (ps : List Process) (ys : List ProcessScore) → Tops (scored ps) ys → Chooses ps (choose ys)
unfolding choose
choose-Chooses ps [] e = All-scored (λ x. x.score < least_score) ps (rw e tt)
choose-Chooses ps (t ∷ r) (high, among) = elim (Bool-cases (ltb t.score least_score)) [
  | inl low ↦
      rw low (
        All-scored (λ x. x.score < least_score) ps (All-map (scored ps) (λ x h. ground arith) high))
  | inr enough ↦
      rw enough (
        Any-scored (λ x. t ≡ x) ps among,
        All-scored (λ x. x.score ≤ t.score) ps high,
        ground arith,
      )
]

-- The target is one of the processes, with a pid above 2 and no protected name, no other such
-- process has a higher score, and its score is at least 1.0. There is none exactly in the other
-- case: every such process scores below 1.0.
pub select_target-Chooses : (procs : List Process) → Chooses procs (select_target procs)
unfolding select_target
select_target-Chooses procs = choose-Chooses procs _ (sort_scores-Tops (scored procs))
