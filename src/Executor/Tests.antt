-- ===== src/Executor/Tests.antt =====
-- The theorems of the executor at concrete inputs, and runs of the code.
use runixo_agent.Prelude.{
  ℕ, ◌≡◌, refl, true, false, none, some, List, [], ◌∷◌, Text, codes, text_eq, Dict, or_else, lookup,
  ◌≢◌, contains, has_prefix, split, join, search_from,
}
use runixo_agent.Prelude.Int.{ℤ, pos}
use runixo_agent.Security.Path.{is_abs, clean}
use runixo_agent.Security.Paths.{
  sanitize_path, validate_path, validate_path_for_write, check_real, find_prefix,
}
use runixo_agent.Executor.{
  var_name, filter_env_vars, add_env, env_key, dedup_env, child_env, command_env, is_valid_env_var,
}
use runixo_agent.Executor.Environment.{last_entry, given, inherited, child_env_lem}
use runixo_agent.Executor.Files.{
  FileInfo, Stat, node, no_trees, FileSystem, write_file, write_clean, write_checked, write_at,
  file_mode,
}
use runixo_agent.Executor.Files.Writes.{IsWritten, write_file-IsWritten}
use runixo_agent.Executor.Tail.{keep_lines, last_lines, backoff_after, next_backoff}
use runixo_agent.Executor.Services.{service_action, contains_any}

abbrev preload : Text
preload = codes "LD_PRELOAD=x"

abbrev options : Dict Text
options = (codes "LD_PRELOAD", codes "x") ∷ []

abbrev agent_env : List Text
agent_env = codes "LD_PRELOAD=y" ∷ codes "PATH=/bin" ∷ []

nonempty : {x : Text} {xs : List Text} → x ∷ xs ≡ [] → ⊥
nonempty h = cc

-- The options can name a dangerous variable.
child_env_lem_example :
    last_entry
      (codes "LD_PRELOAD")
      (child_env agent_env (codes "/") [] (command_env agent_env options))
    ≡ or_else (given (codes "LD_PRELOAD") options) (inherited (codes "LD_PRELOAD") agent_env)
unfolding command_env filter_env_vars var_name text_eq add_env is_valid_env_var lookup
child_env_lem_example =
    child_env_lem (codes "LD_PRELOAD") agent_env (codes "/") [] options letter_first (refl, tt)
      (λ h. some_left h)
  where
    letter_first : ◌≢◌ {A = ℕ} b'L' b'='
    letter_first h = cc

    some_left : command_env agent_env options ≡ [] → ⊥
    some_left h = nonempty h

preload-given : given (codes "LD_PRELOAD") options ≡ some preload
unfolding given is_valid_env_var lookup text_eq
preload-given = refl

-- Where every variable of the agent is dangerous and none is given, all are inherited.
all_inherited :
    child_env (preload ∷ []) (codes "/") [] (command_env (preload ∷ []) []) ≡ preload ∷ []
unfolding child_env command_env filter_env_vars var_name add_env dedup_env env_key text_eq
all_inherited = refl

abbrev notes : Stat
notes = record { name = codes "n"; size = 2; mode = 420; mod_time = 0; is_dir = false }

abbrev disk : FileSystem
disk = record {
  eval_symlinks = λ path. some path;
  stat = λ path. some notes;
  read = λ path. some (codes "hi");
  makes_dirs = λ path. true;
  writes = λ path content mode. true;
  walk = λ path. node path notes no_trees;
  entries = λ path. some (notes ∷ []);
}

abbrev notes_info : FileInfo
notes_info = record {
  name = codes "n";
  path = codes "/tmp/n";
  size = 2;
  mode = 420;
  mod_time = 0;
  is_dir = false;
}

abbrev writing : Text × Text × ℕ
writing = (codes "/tmp/n", codes "hi", 420)

wide_mode : file_mode (pos 4_294_967_296) ≡ 420
wide_mode = refl

write_file-IsWritten_example :
    (clean_path : Text) × (writing ≡ (clean_path, codes "hi", file_mode (pos 0)))
    × IsWritten disk (codes "/tmp//n") (codes "hi") (pos 0) false clean_path
unfolding write_file write_clean write_checked write_at validate_path_for_write sanitize_path is_abs
    has_prefix clean contains search_from join split text_eq validate_path check_real find_prefix
write_file-IsWritten_example =
    write_file-IsWritten disk (codes "hi") (pos 0) writing (codes "/tmp//n") false refl

abbrev three : List Text
three = codes "a" ∷ codes "b" ∷ codes "c" ∷ []

two_lines : last_lines 2 three ≡ codes "b" ∷ codes "c" ∷ []
unfolding last_lines keep_lines
two_lines = refl

-- The wait goes past its maximum of two seconds, and stays there.
backoff_settles : backoff_after 6 ≡ 2_278_125_000
unfolding backoff_after next_backoff
backoff_settles = refl

abbrev terminated : ℤ × ℤ
terminated = (pos 300, pos 15)

-- A name with a semicolon, and a line of systemctl.
no_injection : service_action (codes "a;b") (codes "stop") ≡ none
unfolding service_action contains_any text_eq
no_injection = refl
