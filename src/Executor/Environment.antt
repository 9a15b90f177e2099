-- ===== src/Executor/Environment.antt =====
-- Which variables a command is given.
use mathlib.Core.Path.{subst}
use runixo_agent.Prelude.{
  ℕ, ◌||◌, ◌≡◌, ◌≢◌, refl, sym, ap, ◌∙◌, Bool, true, false, not, Option, none, some, List, [], ◌∷◌,
  ◌++◌, Text, text_eq, text_eq_iff, text_eq_refl, any, all, if◌then◌else◌, Dict, lookup, IsUnique,
  or_else, Bool-cases, inl, inr, arith, some-injective,
}
use runixo_agent.Executor.{
  var_name, is_safe_name, filter_env_vars, is_valid_env_var, add_env, command_env, env_key,
  with_first, key_of, has_key, keeps_env, dedup_env, child_env, is_name_char,
}

-- The last variable with a name.
abbrev entry : Text → Text → Option Text
entry name kv = if has_key name (env_key kv) then some kv else none

unfoldable pub last_entry : Text → List Text → Option Text
last_entry name [] = none
last_entry name (kv ∷ kvs) = or_else (last_entry name kvs) (entry name kv)

-- The variable of the options with a name: the name has to be one.
unfoldable pub given : Text → Dict Text → Option Text
given name env =
    if is_valid_env_var name
    then elim (lookup name env) [ none ↦ none | some v ↦ some (name ++ (b'=' ∷ v)) ]
    else none

-- The variable of the agent with a name, if the name is not on the list of dangerous ones.
unfoldable pub inherited : Text → List Text → Option Text
inherited name environ = if is_safe_name (some name) then last_entry name environ else none

-- A name that does not begin with `=`.
abbrev pub IsName : Text → Type 0
IsName [] = ⊥
IsName (c ∷ name) = c ≢ b'='

or_else_assoc : (a b c : Option Text) → or_else (or_else a b) c ≡ or_else a (or_else b c)
or_else_assoc (some x) b c = refl
or_else_assoc none b c = refl

or_else-none : (a : Option Text) → or_else a none ≡ a
or_else-none (some x) = refl
or_else-none none = refl

last_entry-append :
    (name : Text) (xs ys : List Text)
    → last_entry name (xs ++ ys) ≡ or_else (last_entry name ys) (last_entry name xs)
unfolding last_entry
last_entry-append name [] ys = sym (or_else-none (last_entry name ys))
last_entry-append name (x ∷ xs) ys =
    ap (λ o. or_else o (entry name x)) (last_entry-append name xs ys)
    ∙ or_else_assoc (last_entry name ys) (last_entry name xs) (entry name x)

-- A later variable with the name is found.
any_last :
    (name : Text) (kvs : List Text)
    → any (λ e. has_key name (env_key e)) kvs ≡ true
    → (kv : Text) × (last_entry name kvs ≡ some kv)
unfolding last_entry
any_last name [] h = absurd cc
any_last name (kv ∷ kvs) h =
    by_tests (has_key name (env_key kv)) (last_entry name kvs) (λ g. any_last name kvs g) h
  where
    by_tests :
        (b : Bool) (later : Option Text)
        → (any (λ e. has_key name (env_key e)) kvs ≡ true → (x : Text) × (later ≡ some x))
        → (b || any (λ e. has_key name (env_key e)) kvs) ≡ true
        → (x : Text) × (or_else later (if b then some kv else none) ≡ some x)
    by_tests b (some x) ih g = (x, refl)
    by_tests true none ih g = (kv, refl)
    by_tests false none ih g = absurd (differs (ih g).1)
      where
        differs : {x : Text} → none ≡ some x → ⊥
        differs e = cc

not-false : {b : Bool} → not b ≡ false → b ≡ true
not-false {b} h = ground arith

last_entry-dedup_env :
    (name : Text) (kvs : List Text) → last_entry name (dedup_env kvs) ≡ last_entry name kvs
unfolding last_entry dedup_env
last_entry-dedup_env name [] = refl
last_entry-dedup_env name (kv ∷ kvs) =
    by_key (env_key kv) (keeps_env kv (env_key kv) kvs) refl refl (last_entry-dedup_env name kvs)
  where
    found :
        (b : Bool) (key x : Text)
        → (b ≡ true → key ≡ name)
        → last_entry key kvs ≡ some x
        → or_else (last_entry name kvs) (if b then some kv else none) ≡ last_entry name kvs
    found true key x same e = ap (λ o. or_else o (some kv)) now ∙ sym now
      where
        now : last_entry name kvs ≡ some x
        now = ap (λ k. last_entry k kvs) (sym (same refl)) ∙ e
    found false key x same e = or_else-none (last_entry name kvs)

    dropped :
        (o : Option Text)
        → keeps_env kv o kvs ≡ false
        → or_else (last_entry name kvs) (if has_key name o then some kv else none)
          ≡ last_entry name kvs
    dropped none h = or_else-none (last_entry name kvs)
    dropped (some key) h =
        let (x, e) = any_last key kvs (not-false h) in
        found (text_eq key name) key x (text_eq_iff key name).0 e

    by_key :
        (o : Option Text) (keep : Bool)
        → env_key kv ≡ o
        → keeps_env kv o kvs ≡ keep
        → last_entry name (dedup_env kvs) ≡ last_entry name kvs
        → last_entry name (if keep then kv ∷ dedup_env kvs else dedup_env kvs)
          ≡ or_else (last_entry name kvs) (entry name kv)
    by_key o true e h ih = ap (λ l. or_else l (entry name kv)) ih
    by_key o false e h ih =
        ih
        ∙ (sym (dropped o h)
            ∙ ap (λ k. or_else (last_entry name kvs) (if has_key name k then some kv else none))
                (sym e))

first_char : (c : ℕ) (s : Text) → var_name (c ∷ s) ≡ some [] → c ≡ b'='
unfolding var_name
first_char c s e = ground arith

env_key_name : (name kv : Text) → IsName name → env_key kv ≡ some name → var_name kv ≡ some name
unfolding env_key
env_key_name name kv n h = by_name kv (var_name kv) refl h
  where
    first : (m : Option Text) → with_first b'=' m ≡ some name → ⊥
    first none e = subst IsName (sym (some-injective e)) n
    first (some m) e = subst IsName (sym (some-injective e)) n refl

    by_name :
        (kv : Text) (o : Option Text) → var_name kv ≡ o → key_of kv o ≡ some name → o ≡ some name
    by_name kv none e g = absurd cc
    by_name kv (some (c ∷ m)) e g = g
    by_name [] (some []) e g = absurd cc
    by_name (c ∷ s) (some []) e g =
        absurd
          (first (var_name s) (ap (λ d. with_first d (var_name s)) (sym (first_char c s e)) ∙ g))

has_key_iff : (name : Text) (o : Option Text) → has_key name o ≡ true → o ≡ some name
has_key_iff name none h = absurd cc
has_key_iff name (some key) h = ap some ((text_eq_iff key name).0 h)

last_entry-if :
    (name : Text) (b : Bool) (kv : Text) (rest : List Text)
    → last_entry name (if b then kv ∷ rest else rest)
      ≡ (if b then or_else (last_entry name rest) (entry name kv) else last_entry name rest)
unfolding last_entry
last_entry-if name true kv rest = refl
last_entry-if name false kv rest = refl

last_entry-filter_env_vars :
    (name : Text) (environ : List Text)
    → IsName name
    → last_entry name (filter_env_vars environ) ≡ inherited name environ
unfolding last_entry filter_env_vars inherited
last_entry-filter_env_vars name [] n = by_safe (is_safe_name (some name))
  where
    by_safe : (b : Bool) → ◌≡◌ {A = Option Text} none (if b then none else none)
    by_safe true = refl
    by_safe false = refl
last_entry-filter_env_vars name (kv ∷ kvs) n =
    last_entry-if name (is_safe_name (var_name kv)) kv (filter_env_vars kvs)
    ∙ by_tests (is_safe_name (var_name kv)) (has_key name (env_key kv)) (is_safe_name (some name))
        (last_entry name (filter_env_vars kvs)) (last_entry name kvs) same_name
        (last_entry-filter_env_vars name kvs n)
  where
    same_name :
        has_key name (env_key kv) ≡ true → is_safe_name (var_name kv) ≡ is_safe_name (some name)
    same_name m = ap is_safe_name (env_key_name name kv n (has_key_iff name (env_key kv) m))

    by_tests :
        (b m safe : Bool) (rest all : Option Text)
        → (m ≡ true → b ≡ safe)
        → rest ≡ (if safe then all else none)
        → (if b then or_else rest (if m then some kv else none) else rest)
          ≡ (if safe then or_else all (if m then some kv else none) else none)
    by_tests true true true rest all same ih = ap (λ o. or_else o (some kv)) ih
    by_tests true true false rest all same ih = absurd (differs (same refl))
      where
        differs : true ≡ false → ⊥
        differs e = cc
    by_tests true false true rest all same ih = ap (λ o. or_else o none) ih
    by_tests true false false rest all same ih = or_else-none rest ∙ ih
    by_tests false true true rest all same ih = absurd (differs (same refl))
      where
        differs : false ≡ true → ⊥
        differs e = cc
    by_tests false true false rest all same ih = ih
    by_tests false false true rest all same ih = ih ∙ sym (or_else-none all)
    by_tests false false false rest all same ih = ih

var_name-given : (k v : Text) → all is_name_char k ≡ true → var_name (k ++ (b'=' ∷ v)) ≡ some k
unfolding var_name
var_name-given [] v h = refl
var_name-given (c ∷ k) v h = ground (arith, var_name-given k v)

-- The name of a variable of the options.
env_key-given : (k v : Text) → is_valid_env_var k ≡ true → env_key (k ++ (b'=' ∷ v)) ≡ some k
unfolding env_key is_valid_env_var
env_key-given [] v h = absurd cc
env_key-given (c ∷ k) v h =
    ap (key_of (c ∷ k ++ (b'=' ∷ v))) (var_name-given (c ∷ k) v (ground arith))

given_here :
    (k v : Text) (env : Dict Text)
    → given k ((k, v) ∷ env) ≡ (if is_valid_env_var k then some (k ++ (b'=' ∷ v)) else none)
unfolding given lookup
given_here k v env = rw (text_eq_refl k) refl

given_absent : (k : Text) (env : Dict Text) → lookup k env ≡ none → given k env ≡ none
unfolding given
given_absent k env h = rw h (by_valid (is_valid_env_var k))
  where
    by_valid : (b : Bool) → ◌≡◌ {A = Option Text} (if b then none else none) none
    by_valid true = refl
    by_valid false = refl

given_other :
    (name k v : Text) (env : Dict Text)
    → text_eq k name ≡ false
    → given name ((k, v) ∷ env) ≡ given name env
unfolding given lookup
given_other name k v env h = rw h refl

module _ (k v : Text) (env : Dict Text) (f : Option Text) where
  kv : Text
  kv = k ++ (b'=' ∷ v)

  entry-given :
      (name : Text) (m : Bool)
      → is_valid_env_var k ≡ true
      → text_eq k name ≡ m
      → entry name kv ≡ (if m then some kv else none)
  unfolding kv
  entry-given name m h e =
      ap (λ o. if has_key name o then some kv else none) (env_key-given k v h)
      ∙ ap (λ b. if b then some kv else none) e

  AddsOne : Text → Type 0
  AddsOne name =
      (if is_valid_env_var k then or_else f (entry name kv) else f) ≡ given name ((k, v) ∷ env)

  add_one_here : f ≡ none → AddsOne k
  unfolding AddsOne kv
  add_one_here e = by_valid (is_valid_env_var k) refl ∙ sym (given_here k v env)
    where
      by_valid :
          (b : Bool)
          → is_valid_env_var k ≡ b
          → (if b then or_else f (entry k kv) else f) ≡ (if b then some kv else none)
      by_valid true h = ap (λ o. or_else o (entry k kv)) e ∙ entry-given k true h (text_eq_refl k)
      by_valid false h = e

  add_one_other : (name : Text) → text_eq k name ≡ false → f ≡ given name env → AddsOne name
  unfolding AddsOne kv
  add_one_other name m e =
      by_valid (is_valid_env_var k) refl ∙ (e ∙ sym (given_other name k v env m))
    where
      by_valid :
          (b : Bool) → is_valid_env_var k ≡ b → (if b then or_else f (entry name kv) else f) ≡ f
      by_valid true h = ap (λ o. or_else f o) (entry-given name false h m) ∙ or_else-none f
      by_valid false h = refl

  add_one : (name : Text) → lookup k env ≡ none → f ≡ given name env → AddsOne name
  unfolding AddsOne
  add_one name u e = elim (Bool-cases (text_eq k name)) [
    | inl m ↦
        let same = (text_eq_iff k name).0 m in
        subst AddsOne same
          (add_one_here (e ∙ (ap (λ n. given n env) (sym same) ∙ given_absent k env u)))
    | inr m ↦ add_one_other name m e
  ]

last_entry-add_env :
    (name : Text) (env : Dict Text) → IsUnique env → last_entry name (add_env env) ≡ given name env
unfolding last_entry add_env AddsOne kv lookup
last_entry-add_env name [] u = sym (given_absent name [] refl)
last_entry-add_env name ((k, v) ∷ env) u =
    last_entry-if name (is_valid_env_var k) (k ++ (b'=' ∷ v)) (add_env env)
    ∙ add_one k v env (last_entry name (add_env env)) name u.0 (last_entry-add_env name env u.1)

last_entry-command_env :
    (name : Text) (environ : List Text) (env : Dict Text)
    → IsName name
    → IsUnique env
    → last_entry name (command_env environ env) ≡ or_else (given name env) (inherited name environ)
unfolding command_env
last_entry-command_env name environ env n u =
    last_entry-append name (filter_env_vars environ) (add_env env)
    ∙ (ap (λ o. or_else o (last_entry name (filter_env_vars environ)))
          (last_entry-add_env name env u)
        ∙ ap (or_else (given name env)) (last_entry-filter_env_vars name environ n))

-- If a variable is left or given, then the process finds under a name the variable that the
-- options give it, if the name consists of letters, digits and underscores and does not begin
-- with a digit, whether it is on the list of dangerous names or not; else what the agent has
-- under it last, unless it is on that list; and else none. The options are a map.
pub child_env_lem :
    (name : Text) (environ : List Text) (cwd dir : Text) (env : Dict Text)
    → IsName name
    → IsUnique env
    → command_env environ env ≢ []
    → last_entry name (child_env environ cwd dir (command_env environ env))
      ≡ or_else (given name env) (inherited name environ)
unfolding child_env
child_env_lem name environ cwd dir env n u some_left =
    by_env (command_env environ env) some_left ∙ last_entry-command_env name environ env n u
  where
    by_env :
        (l : List Text) → l ≢ [] → last_entry name (child_env environ cwd dir l) ≡ last_entry name l
    by_env [] ne = absurd (ne refl)
    by_env (x ∷ xs) ne = last_entry-dedup_env name (x ∷ xs)
