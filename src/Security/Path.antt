-- ===== src/Security/Path.antt =====
-- What internal/security uses of Go's `path/filepath`, on Unix.
use runixo_agent.Prelude.{
  ℕ, Bool, true, false, not, ◌&&◌, ◌||◌, List, [], ◌∷◌, ◌++◌, Text, codes, text_eq, has_prefix,
  split, join, ◌==◌, if◌then◌else◌,
}
pub mod Rooted
pub mod Relative

-- `filepath.IsAbs`.
unfoldable pub is_abs : Text → Bool
is_abs path = has_prefix path (codes "/")

-- `..` takes the last name away; at the root it does nothing, and elsewhere it stays.
unfoldable pub go_up : Bool → List Text → List Text
go_up rooted [] = if rooted then [] else codes ".." ∷ []
go_up rooted (top ∷ stack) = if text_eq top (codes "..") then codes ".." ∷ top ∷ stack else stack

-- One part of the path, on the stack of the parts before it, the last of them on top.
unfoldable pub push_part : Bool → Text → List Text → List Text
unfolding go_up
push_part rooted part stack =
    if text_eq part [] || text_eq part (codes ".")
    then stack
    else if text_eq part (codes "..")
    then go_up rooted stack
    else part ∷ stack

abbrev pub reverse_onto : List Text → List Text → List Text
reverse_onto [] ys = ys
reverse_onto (x ∷ xs) ys = reverse_onto xs (x ∷ ys)

unfoldable pub clean_parts : Bool → List Text → List Text → List Text
unfolding push_part
clean_parts rooted [] stack = reverse_onto stack []
clean_parts rooted (part ∷ parts) stack = clean_parts rooted parts (push_part rooted part stack)

-- The empty path is `.`.
unfoldable pub or_dot : Text → Text
or_dot [] = codes "."
or_dot (c ∷ s) = c ∷ s

-- `filepath.Clean`.
unfoldable pub clean : Text → Text
unfolding clean_parts is_abs
clean path =
    let rooted = is_abs path in
    let parts = clean_parts rooted (split b'/' path) [] in
    if rooted then b'/' ∷ join b'/' parts else or_dot (join b'/' parts)

-- The last part that is not empty.
last_part : Text → List Text → Text
last_part last [] = last
last_part last (part ∷ parts) = last_part (if text_eq part [] then last else part) parts

-- `filepath.Base`.
unfoldable pub base : Text → Text
unfolding last_part
base [] = codes "."
base (c ∷ s) = last_part (codes "/") (split b'/' (c ∷ s))

-- `filepath.Join` of two.
unfoldable pub join_path : Text → Text → Text
join_path [] [] = []
join_path [] (c ∷ s) = clean (c ∷ s)
join_path (c ∷ s) t = clean ((c ∷ s) ++ (b'/' ∷ t))

-- `filepath.Abs` in the working directory `cwd`.
unfoldable pub abs_path : Text → Text → Text
abs_path cwd path = if is_abs path then clean path else join_path cwd path

-- A path up to its last slash, and with it.
up_to_slash : Text → Text
up_to_slash [] = []
up_to_slash (c ∷ s) =
    let rest = up_to_slash s in
    if not (text_eq rest []) then c ∷ rest else if c == b'/' then c ∷ [] else []

-- `filepath.Dir`.
unfoldable pub dir_path : Text → Text
unfolding up_to_slash
dir_path path = clean (up_to_slash path)
