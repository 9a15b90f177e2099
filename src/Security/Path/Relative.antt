-- ===== src/Security/Path/Relative.antt =====
-- Cleaning a relative path leaves it relative.
use runixo_agent.Prelude.{
  ◌≡◌, refl, Bool, true, false, not, ◌&&◌, ◌||◌, List, [], ◌∷◌, Text, codes, text_eq, has_prefix,
  split, join, All, if◌then◌else◌, arith,
}
use runixo_agent.Security.Path.{is_abs, go_up, push_part, reverse_onto, or_dot, clean_parts, clean}
use runixo_agent.Security.Path.Rooted.{has_no_slash, split-slash}

-- A part that can begin a relative path.
abbrev is_start : Text → Bool
is_start part = not (text_eq part []) && has_no_slash part

AllStart : List Text → Type 0
AllStart = All (λ p. is_start p ≡ true)

go_up-AllStart : (stack : List Text) → AllStart stack → AllStart (go_up false stack)
unfolding AllStart go_up text_eq
go_up-AllStart [] a = (refl, tt)
go_up-AllStart (top ∷ stack) a = by_test (text_eq top (codes ".."))
  where
    by_test :
        (b : Bool) → All (λ p. is_start p ≡ true) (if b then codes ".." ∷ top ∷ stack else stack)
    by_test true = (refl, a)
    by_test false = a.1

push_part-AllStart :
    (part : Text) (stack : List Text)
    → has_no_slash part ≡ true
    → AllStart stack
    → AllStart (push_part false part stack)
unfolding AllStart push_part
push_part-AllStart part stack h a =
    by_tests (text_eq part []) (text_eq part (codes ".")) (text_eq part (codes "..")) refl
  where
    by_tests :
        (e d u : Bool)
        → text_eq part [] ≡ e
        → All
            (λ p. is_start p ≡ true)
            (if e || d then stack else if u then go_up false stack else part ∷ stack)
    by_tests true d u f = a
    by_tests false true u f = a
    by_tests false false true f = go_up-AllStart stack a
    by_tests false false false f = (ground arith, a)

reverse_onto-AllStart :
    (xs ys : List Text) → AllStart xs → AllStart ys → AllStart (reverse_onto xs ys)
unfolding AllStart
reverse_onto-AllStart [] ys a b = b
reverse_onto-AllStart (x ∷ xs) ys a b = reverse_onto-AllStart xs (x ∷ ys) a.1 (a.0, b)

clean_parts-AllStart :
    (parts stack : List Text)
    → All (λ part. has_no_slash part ≡ true) parts
    → AllStart stack
    → AllStart (clean_parts false parts stack)
unfolding clean_parts AllStart
clean_parts-AllStart [] stack h a = reverse_onto-AllStart stack [] a tt
clean_parts-AllStart (part ∷ parts) stack h a =
    clean_parts-AllStart parts (push_part false part stack) h.1
      (push_part-AllStart part stack h.0 a)

relative_join : (parts : List Text) → AllStart parts → is_abs (or_dot (join b'/' parts)) ≡ false
unfolding AllStart is_abs has_prefix join text_eq or_dot
relative_join [] a = refl
relative_join ([] ∷ parts) a = absurd (ground (arith, a.0))
relative_join ((c ∷ part) ∷ []) a = ground (arith, a.0)
relative_join ((c ∷ part) ∷ next ∷ parts) a = ground (arith, a.0)

-- Cleaning does not change whether a path is absolute.
pub is_abs-clean : (path : Text) → is_abs (clean path) ≡ is_abs path
unfolding clean has_prefix AllStart
is_abs-clean path = by_test (is_abs path) refl
  where
    by_test : (b : Bool) → is_abs path ≡ b → is_abs (clean path) ≡ is_abs path
    by_test true h = rw h (slash (join b'/' (clean_parts true (split b'/' path) [])))
      where
        slash : (s : Text) → is_abs (b'/' ∷ s) ≡ true
        slash s = ground arith
    by_test false h = rw h (
        relative_join (clean_parts false (split b'/' path) [])
          (clean_parts-AllStart (split b'/' path) [] (split-slash path) tt))
