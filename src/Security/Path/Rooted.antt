-- ===== src/Security/Path/Rooted.antt =====
-- Cleaning an absolute path: its form, and that once is enough.
use runixo_agent.Prelude.{
  ◌≡◌, refl, sym, ap, ◌∙◌, Bool, true, false, not, ◌&&◌, ◌||◌, List, [], ◌∷◌, ◌++◌, Text, codes,
  text_eq, has_prefix, split, prepend, join, all, All, ◌==◌, if◌then◌else◌, arith,
}
use runixo_agent.Security.Path.{is_abs, go_up, push_part, reverse_onto, clean_parts, clean}

abbrev pub has_no_slash : Text → Bool
has_no_slash part = all (λ c. not (c == b'/')) part

-- A name: not empty, neither `.` nor `..`, and without a slash.
abbrev pub is_plain : Text → Bool
is_plain part =
    not (text_eq part [])
    && (not (text_eq part (codes ".")) && (not (text_eq part (codes "..")) && has_no_slash part))

pub split-slash : (s : Text) → All (λ part. has_no_slash part ≡ true) (split b'/' s)
unfolding split
split-slash [] = (refl, tt)
split-slash (c ∷ s) = by_test (c == b'/') refl (split b'/' s) (split-slash s)
  where
    by_test :
        (b : Bool)
        → (c == b'/') ≡ b
        → (parts : List Text) → All (λ part. has_no_slash part ≡ true) parts
        → All (λ part. has_no_slash part ≡ true) (if b then [] ∷ parts else prepend c parts)
    by_test true e parts a = (refl, a)
    by_test false e [] a = (ground arith, tt)
    by_test false e (part ∷ parts) a = (ground (arith, a.0), a.1)

go_up-plain :
    (stack : List Text)
    → All (λ p. is_plain p ≡ true) stack
    → All (λ p. is_plain p ≡ true) (go_up true stack)
unfolding go_up
go_up-plain [] a = tt
go_up-plain (top ∷ stack) a = by_test (text_eq top (codes "..")) refl
  where
    by_test :
        (b : Bool)
        → text_eq top (codes "..") ≡ b
        → All (λ p. is_plain p ≡ true) (if b then codes ".." ∷ top ∷ stack else stack)
    by_test true e = absurd (ground (arith, a.0))
    by_test false e = a.1

push_part-plain :
    (part : Text) (stack : List Text)
    → has_no_slash part ≡ true
    → All (λ p. is_plain p ≡ true) stack
    → All (λ p. is_plain p ≡ true) (push_part true part stack)
unfolding push_part
push_part-plain part stack h a =
    by_tests (text_eq part []) (text_eq part (codes ".")) (text_eq part (codes "..")) refl refl refl
  where
    by_tests :
        (e d u : Bool)
        → text_eq part [] ≡ e
        → text_eq part (codes ".") ≡ d
        → text_eq part (codes "..") ≡ u
        → All
            (λ p. is_plain p ≡ true)
            (if e || d then stack else if u then go_up true stack else part ∷ stack)
    by_tests true d u f g k = a
    by_tests false true u f g k = a
    by_tests false false true f g k = go_up-plain stack a
    by_tests false false false f g k = (ground arith, a)

reverse_onto-All :
    (xs ys : List Text)
    → All (λ p. is_plain p ≡ true) xs
    → All (λ p. is_plain p ≡ true) ys
    → All (λ p. is_plain p ≡ true) (reverse_onto xs ys)
reverse_onto-All [] ys a b = b
reverse_onto-All (x ∷ xs) ys a b = reverse_onto-All xs (x ∷ ys) a.1 (a.0, b)

clean_parts-plain :
    (parts stack : List Text)
    → All (λ part. has_no_slash part ≡ true) parts
    → All (λ p. is_plain p ≡ true) stack
    → All (λ p. is_plain p ≡ true) (clean_parts true parts stack)
unfolding clean_parts
clean_parts-plain [] stack h a = reverse_onto-All stack [] a tt
clean_parts-plain (part ∷ parts) stack h a =
    clean_parts-plain parts (push_part true part stack) h.1 (push_part-plain part stack h.0 a)

-- Names are pushed as they are.
clean_parts-fixed :
    (parts stack : List Text)
    → All (λ p. is_plain p ≡ true) parts
    → clean_parts true parts stack ≡ reverse_onto stack parts
unfolding clean_parts push_part
clean_parts-fixed [] stack h = refl
clean_parts-fixed (part ∷ parts) stack h =
    ap (clean_parts true parts) pushed ∙ clean_parts-fixed parts (part ∷ stack) h.1
  where
    pushed : push_part true part stack ≡ part ∷ stack
    pushed = ground (arith, h.0)

-- Splitting takes a joined list of names apart again.
split-append :
    (part : Text) (s : Text)
    → has_no_slash part ≡ true
    → split b'/' (part ++ (b'/' ∷ s)) ≡ part ∷ split b'/' s
unfolding split
split-append [] s h = refl
split-append (c ∷ part) s h = ground (arith, split-append part s)

split-part : (part : Text) → has_no_slash part ≡ true → split b'/' part ≡ part ∷ []
unfolding split
split-part [] h = refl
split-part (c ∷ part) h = ground (arith, split-part part)

plain-slash : (part : Text) → is_plain part ≡ true → has_no_slash part ≡ true
plain-slash part h = ground arith

split-join :
    (part : Text) (parts : List Text)
    → All (λ p. is_plain p ≡ true) (part ∷ parts)
    → split b'/' (join b'/' (part ∷ parts)) ≡ part ∷ parts
unfolding join
split-join part [] h = split-part part (plain-slash part h.0)
split-join part (next ∷ parts) h =
    split-append part (join b'/' (next ∷ parts)) (plain-slash part h.0)
    ∙ ap (◌∷◌ part) (split-join next parts h.1)

again :
    (parts : List Text)
    → All (λ p. is_plain p ≡ true) parts
    → clean (b'/' ∷ join b'/' parts) ≡ b'/' ∷ join b'/' parts
unfolding clean is_abs has_prefix clean_parts push_part split join text_eq
again [] h = refl
again (part ∷ parts) h =
    ap (λ ps. b'/' ∷ join b'/' (clean_parts true ps [])) (split-join part parts h)
    ∙ ap (λ ps. b'/' ∷ join b'/' ps) (clean_parts-fixed (part ∷ parts) [] h)

-- Cleaned, an absolute path is a slash and names with a slash between them. No name is empty, `.`
-- or `..`, and none holds a slash. Cleaning it again changes nothing.
pub clean_rooted :
    (path : Text)
    → is_abs path ≡ true
    → (parts : List Text) × (clean path ≡ b'/' ∷ join b'/' parts)
      × All (λ part. is_plain part ≡ true) parts
      × (clean (clean path) ≡ clean path)
unfolding clean
clean_rooted path h = (parts, form, plain, ap clean form ∙ (again parts plain ∙ sym form))
  where
    parts : List Text
    parts = clean_parts true (split b'/' path) []

    plain : All (λ part. is_plain part ≡ true) parts
    plain = clean_parts-plain (split b'/' path) [] (split-slash path) tt

    form : clean path ≡ b'/' ∷ join b'/' parts
    form = rw h refl
