-- ===== src/Audit/Rotation.antt =====
-- Where each file of the audit log comes from after a rotation.
use runixo_agent.Prelude.{
  ℕ, zero, suc, ◌-◌, ◌≡◌, refl, ap, ◌∙◌, Bool, true, false, not, ◌&&◌, Option, none, some, is_some,
  Text, leb, ◌==◌, if◌then◌else◌, arith,
}
use runixo_agent.Audit.Files.{LogFile, current, backup, Files, remove, rename, shift, rotate_files}

at_number : (fs : Files) (j k : ℕ) → (k == j) ≡ true → fs (backup k) ≡ fs (backup j)
at_number fs j k h = ap (λ x. fs (backup x)) (same_number h)
  where
    same_number : (k == j) ≡ true → k ≡ j
    same_number h = ground arith

-- Renaming into a free place, whether or not there is a file to rename.
moved :
    (a k : ℕ) (fs : Files)
    → fs (backup (suc a)) ≡ none
    → rename (backup a) (backup (suc a)) fs (backup k)
      ≡ (if k == suc a then fs (backup a) else if k == a then none else fs (backup k))
unfolding rename
moved a k fs h = by_file (fs (backup a)) refl
  where
    by_file :
        (o : Option Text)
        → fs (backup a) ≡ o
        → (if not (is_some o)
            then fs (backup k)
            else if k == suc a
            then o
            else if k == a
            then none
            else fs (backup k))
          ≡ (if k == suc a then o else if k == a then none else fs (backup k))
    by_file (some s) e = refl
    by_file none e = by_tests (k == suc a) (k == a) refl refl
      where
        by_tests :
            (x y : Bool)
            → (k == suc a) ≡ x
            → (k == a) ≡ y
            → fs (backup k) ≡ (if x then none else if y then none else fs (backup k))
        by_tests true y f g = at_number fs (suc a) k f ∙ h
        by_tests false true f g = at_number fs a k g ∙ e
        by_tests false false f g = refl

shift-current : (n : ℕ) (fs : Files) → shift n fs current ≡ fs current
unfolding shift rename
shift-current zero fs = refl
shift-current (suc n) fs =
    shift-current n (rename (backup (suc n)) (backup (suc (suc n))) fs) ∙ ground arith

-- Where each backup comes from: from the place before, as far as the loop goes.
abbrev shifted : ℕ → Files → ℕ → Option Text
shifted n fs k =
    if leb 2 k && leb k (suc n) then fs (backup (k - 1)) else if k == 1 then none else fs (backup k)

place :
    (n k : ℕ) (fs gs : Files)
    → ((j : ℕ)
        → gs (backup j) ≡ (
            if j == suc (suc n)
            then fs (backup (suc n))
            else if j == suc n
            then none
            else fs (backup j)))
    → shifted n gs k ≡ shifted (suc n) fs k
place n k fs gs m = ground (arith, m k, m (k - 1), at_number fs (suc n) (k - 1))

shift-backup :
    (n k : ℕ) (fs : Files) → fs (backup (suc n)) ≡ none → shift n fs (backup k) ≡ shifted n fs k
unfolding shift
shift-backup zero k fs h = ground (arith, at_number fs 1 k)
shift-backup (suc n) k fs h = shift-backup n k gs free ∙ same_place
  where
    gs : Files
    gs = rename (backup (suc n)) (backup (suc (suc n))) fs

    free : gs (backup (suc n)) ≡ none
    free = moved (suc n) (suc n) fs h ∙ ground arith

    same_place : shifted n gs k ≡ shifted (suc n) fs k
    same_place = place n k fs gs (λ j. moved (suc n) j fs h)

-- What a rotation leaves at a place: each file comes from the place before it.
abbrev pub rotated : ℕ → Files → LogFile → Option Text
rotated n fs current = none
rotated n fs (backup k) =
    if k == 1
    then fs current
    else if leb 2 k && leb k (suc n)
    then fs (backup (k - 1))
    else fs (backup k)

last_step :
    (n k : ℕ) (fs gs hs : Files)
    → ((j : ℕ) → gs (backup j) ≡ (if j == suc n then none else fs (backup j)))
    → hs current ≡ fs current
    → hs (backup k) ≡ shifted n gs k
    → (if not (is_some (hs current))
        then hs (backup k)
        else if k == 1
        then hs current
        else hs (backup k))
      ≡ rotated n fs (backup k)
last_step n k fs gs hs g c b = by_file (fs current) refl
  where
    by_file :
        (o : Option Text)
        → fs current ≡ o
        → (if not (is_some (hs current))
            then hs (backup k)
            else if k == 1
            then hs current
            else hs (backup k))
          ≡ rotated n fs (backup k)
    by_file none e = ground (arith, c, e, b, g k, g (k - 1))
    by_file (some s) e = ground (arith, c, e, b, g k, g (k - 1))

-- With at least one backup, a rotation moves the log to the first backup and every backup to
-- the next place, so that the last one is dropped; a file that is missing leaves its next place
-- empty. No other file is touched.
pub rotate_files_lem :
    (n : ℕ) (fs : Files) (f : LogFile) → rotate_files (suc n) fs f ≡ rotated n fs f
unfolding rotate_files remove
rotate_files_lem n fs current =
    by_file (shift (suc n - 1) (remove (backup (suc n)) fs) current) refl
  where
    by_file :
        (o : Option Text)
        → shift (suc n - 1) (remove (backup (suc n)) fs) current ≡ o
        → (if not (is_some o) then o else none) ≡ none
    by_file none e = refl
    by_file (some s) e = refl
rotate_files_lem n fs (backup k) =
    last_step n k fs (remove (backup (suc n)) fs) (shift (suc n - 1) (remove (backup (suc n)) fs))
      (λ j. refl) (shift-current (suc n - 1) (remove (backup (suc n)) fs))
      (ap (λ i. shift i (remove (backup (suc n)) fs) (backup k)) pred
        ∙ shift-backup n k (remove (backup (suc n)) fs) (ground arith))
  where
    pred : suc n - 1 ≡ n
    pred = omega arith
