-- ===== src/Executor/Tail.antt =====
-- TailFile of internal/executor/executor.go: the last lines of a file, and how long it then waits.
use runixo_agent.Prelude.{
  ℕ, zero, suc, ◌-◌, ◌*◌, ◌/◌, ◌≤◌, ◌≡◌, refl, sym, ap, ◌∙◌, Bool, true, false, List, [], ◌∷◌, ◌++◌,
  Text, length, drop, ltb, if◌then◌else◌, arith, length-append, last_of, last_of-append,
  last_of_few, length-last_of-le, append_assoc, append_nil,
}

-- The loop over the lines: past the number asked for, the oldest is dropped.
unfoldable pub keep_lines : ℕ → List Text → List Text → List Text
keep_lines n buffer [] = buffer
keep_lines n buffer (line ∷ lines) =
    let buffer' = buffer ++ (line ∷ []) in
    keep_lines n (if ltb n (length buffer') then drop 1 buffer' else buffer') lines

unfoldable pub last_lines : ℕ → List Text → List Text
unfolding keep_lines
last_lines n lines = keep_lines n [] lines

-- Nanoseconds.
abbrev pub first_backoff : ℕ
first_backoff = 200_000_000

abbrev pub max_backoff : ℕ
max_backoff = 2_000_000_000

-- The wait after another scan without a new line.
unfoldable pub next_backoff : ℕ → ℕ
next_backoff backoff = if ltb backoff max_backoff then backoff * 3 / 2 else backoff

-- The waits while no line comes.
unfoldable pub backoff_after : ℕ → ℕ
backoff_after zero = first_backoff
backoff_after (suc n) = next_backoff (backoff_after n)

keep_one :
    (n : ℕ) (buffer : List Text)
    → length buffer ≤ suc n
    → (if ltb n (length buffer) then drop 1 buffer else buffer) ≡ last_of n buffer
keep_one n buffer h = by_test (ltb n (length buffer)) refl ∙ last_of_few n buffer
  where
    by_test :
        (b : Bool)
        → ltb n (length buffer) ≡ b
        → (if b then drop 1 buffer else buffer)
          ≡ (if ltb n (length buffer) then last_of n buffer else buffer)
    by_test true e = rw e (ap (λ k. drop k buffer) one)
      where
        one : 1 ≡ length buffer - n
        one = ground arith
    by_test false e = rw e refl

keep_lines_lem :
    (n : ℕ) (seen lines : List Text)
    → keep_lines n (last_of n seen) lines ≡ last_of n (seen ++ lines)
unfolding keep_lines
keep_lines_lem n seen [] = ap (last_of n) (sym (append_nil seen))
keep_lines_lem n seen (line ∷ lines) =
    ap (λ buffer. keep_lines n buffer lines)
      (keep_one n (last_of n seen ++ (line ∷ []))
          (omega (arith, length-append (last_of n seen) (line ∷ []), length-last_of-le n seen))
        ∙ last_of-append n seen (line ∷ []))
    ∙ (keep_lines_lem n (seen ++ (line ∷ [])) lines
        ∙ ap (last_of n) (append_assoc seen (line ∷ []) lines))

-- The loop over a file of any length, which holds a buffer of no more lines than are asked for,
-- gives exactly the last lines of the file, as many as were asked for or all of them.
last_lines_lem : (n : ℕ) (lines : List Text) → last_lines n lines ≡ last_of n lines
unfolding last_lines
last_lines_lem n lines = ap (λ b. keep_lines n b lines) (empty n) ∙ keep_lines_lem n [] lines
  where
    empty : (n : ℕ) → [] ≡ last_of {A = Text} n []
    empty n = ap (λ k. drop {A = Text} k []) none_left
      where
        none_left : 0 ≡ 0 - n
        none_left = omega arith
