-- ===== src/Executor.antt =====
-- internal/executor/executor.go: a command that is run, with its checks and its environment.
use runixo_agent.Prelude.{
  ℕ, ◌+◌, ◌*◌, Bool, true, false, not, ◌&&◌, ◌||◌, Option, none, some, List, [], ◌∷◌, ◌++◌, Text,
  codes, utf8, text_eq, take, any, all, leb, ◌==◌, is_some, if◌then◌else◌, Dict,
}
use runixo_agent.Prelude.Int.{ℤ, pos, negsuc}
use runixo_agent.Security.Config.{SecurityConfig, default_security_config}
use runixo_agent.Security.Commands.{CommandError, validate_command}
use runixo_agent.Security.Path.{abs_path}
use runixo_agent.Security.Paths.{PathError, validate_path}
pub mod Environment
pub mod Files
pub mod Tail
pub mod Services
mod Tests

pub record Options : Type 0 where
  pub working_dir : Text
  pub env : Dict Text
  pub timeout : ℕ
  pub sudo : Bool

-- The output of a refused command names the check; that of a run is text.
pub data Output : Type 0 where
  text : Text → Output
  refused_command : CommandError → Output
  refused_dir : PathError → Output
  timed_out : Output

pub record Result : Type 0 where
  pub exit_code : ℤ
  pub stdout : Text
  pub stderr : Output

-- `env` is the environment of the process.
pub record Command : Type 0 where
  pub program : Text
  pub arguments : List Text
  pub dir : Text
  pub env : List Text
  pub timeout : ℕ

-- How `Wait` ends: well, with the code of an `ExitError`, with another error after the deadline,
-- or with another error.
pub data Wait : Type 0 where
  success deadline other_error : Wait
  exit_error : ℤ → Wait

-- What the operating system makes of a command: it cannot be started, or its output and error
-- output as they can be read, and whether a read failed.
pub data Run : Type 0 where
  not_started : Run
  ran : Text → Text → Bool → Wait → Run

pub record Outside : Type 0 where
  pub environ : List Text
  pub cwd : Text
  pub unicode_lower : Text → Text
  pub eval_symlinks : Text → Option Text
  pub run : Command → Run

abbrev pub max_output_size : ℕ
max_output_size = 10 * 1024 * 1024

abbrev pub dangerous_vars : List Text
dangerous_vars =
    codes "LD_PRELOAD"
    ∷ codes "LD_LIBRARY_PATH"
    ∷ codes "DYLD_INSERT_LIBRARIES"
    ∷ codes "BASH_ENV"
    ∷ codes "ENV"
    ∷ codes "PROMPT_COMMAND"
    ∷ codes "PYTHONPATH"
    ∷ codes "PERL5LIB"
    ∷ codes "PERLLIB"
    ∷ codes "NODE_PATH"
    ∷ codes "RUBYLIB"
    ∷ codes "CLASSPATH"
    ∷ codes "LUA_PATH"
    ∷ codes "LUA_CPATH"
    ∷ []

-- The part before the first `=`, if there is one.
unfoldable pub var_name : Text → Option Text
var_name [] = none
var_name (c ∷ s) = if c == b'=' then some [] else cons_name c (var_name s)
  where
    cons_name : ℕ → Option Text → Option Text
    cons_name c none = none
    cons_name c (some name) = some (c ∷ name)

abbrev pub is_safe_name : Option Text → Bool
is_safe_name none = false
is_safe_name (some name) = not (any (text_eq name) dangerous_vars)

unfoldable pub filter_env_vars : List Text → List Text
filter_env_vars [] = []
filter_env_vars (env ∷ envs) =
    let rest = filter_env_vars envs in if is_safe_name (var_name env) then env ∷ rest else rest

abbrev is_digit : ℕ → Bool
is_digit c = leb b'0' c && leb c b'9'

abbrev pub is_name_char : ℕ → Bool
is_name_char c = leb b'a' c && leb c b'z' || (leb b'A' c && leb c b'Z' || (is_digit c || c == b'_'))

unfoldable pub is_valid_env_var : Text → Bool
is_valid_env_var [] = false
is_valid_env_var (c ∷ s) = not (is_digit c) && all is_name_char (c ∷ s)

-- The loop over the variables of the options.
unfoldable pub add_env : Dict Text → List Text
add_env [] = []
add_env ((k, v) ∷ env) =
    let rest = add_env env in if is_valid_env_var k then (k ++ (b'=' ∷ v)) ∷ rest else rest

unfoldable pub command_env : List Text → Dict Text → List Text
command_env environ env = filter_env_vars environ ++ add_env env

abbrev pub with_first : ℕ → Option Text → Option Text
with_first c none = some []
with_first c (some name) = some (c ∷ name)

abbrev pub key_of : Text → Option Text → Option Text
key_of kv none = none
key_of kv (some (c ∷ name)) = some (c ∷ name)
key_of [] (some []) = none
key_of (c ∷ s) (some []) = with_first c (var_name s)

-- What os/exec takes for the name of a variable: a `=` in front belongs to it.
unfoldable pub env_key : Text → Option Text
env_key kv = key_of kv (var_name kv)

abbrev pub has_key : Text → Option Text → Bool
has_key name none = false
has_key name (some key) = text_eq key name

abbrev pub keeps_env : Text → Option Text → List Text → Bool
keeps_env kv none later = not (text_eq kv [])
keeps_env kv (some key) later = not (any (λ e. has_key key (env_key e)) later)

-- Of two variables with one name os/exec drops the earlier, and it drops empty texts.
unfoldable pub dedup_env : List Text → List Text
dedup_env [] = []
dedup_env (kv ∷ later) =
    let rest = dedup_env later in if keeps_env kv (env_key kv) later then kv ∷ rest else rest

abbrev pub pwd_of : Text → Text → List Text
pwd_of cwd [] = []
pwd_of cwd (c ∷ dir) = (codes "PWD=" ++ abs_path cwd (c ∷ dir)) ∷ []

-- The variables that the process gets. `Env` is nil where no variable is in it, and then os/exec
-- takes the environment of the agent, with the working directory.
unfoldable pub child_env : List Text → Text → Text → List Text → List Text
child_env environ cwd dir [] = dedup_env (environ ++ pwd_of cwd dir)
child_env environ cwd dir (kv ∷ env) = dedup_env (kv ∷ env)

unfoldable pub build_command : List Text → Text → Text → List Text → Options → Command
build_command environ cwd command args opts = record {
  program = if opts.sudo then codes "sudo" else command;
  arguments = if opts.sudo then command ∷ args else args;
  dir = opts.working_dir;
  env = child_env environ cwd opts.working_dir (command_env environ opts.env);
  timeout = opts.timeout;
}

unfoldable pub read_warning : Text
read_warning = utf8 "\n[警告] 读取输出时发生错误"

-- `none` is an error of the executor itself.
unfoldable pub result_of : Text → Text → Wait → Option Result
result_of out err success = some (record { exit_code = pos 0; stdout = out; stderr = text err })
result_of out err (exit_error code) =
    some (record { exit_code = code; stdout = out; stderr = text err })
result_of out err deadline =
    some (record { exit_code = negsuc 0; stdout = out; stderr = timed_out })
result_of out err other_error = none

unfoldable pub collect : Run → Option Result
collect not_started = none
collect (ran out err failed wait) =
    result_of (take max_output_size out)
      (if failed then take max_output_size err ++ read_warning else take max_output_size err) wait

abbrev refusal : Output → Option Result
refusal output = some (record { exit_code = negsuc 0; stdout = []; stderr = output })

unfoldable pub run_in_dir : Outside → Text → List Text → Options → Option PathError → Option Result
run_in_dir os command args opts none =
    collect (os.run (build_command os.environ os.cwd command args opts))
run_in_dir os command args opts (some e) = refusal (refused_dir e)

unfoldable pub check_dir : Outside → Text → Option PathError
check_dir os [] = none
check_dir os (c ∷ dir) = validate_path os.eval_symlinks default_security_config (c ∷ dir)

unfoldable pub run_checked :
    Outside → Text → List Text → Options → Option CommandError → Option Result
run_checked os command args opts none =
    run_in_dir os command args opts (check_dir os opts.working_dir)
run_checked os command args opts (some e) = refusal (refused_command e)

unfoldable pub execute : Outside → Text → List Text → Options → Option Result
execute os command args opts =
    run_checked os command args opts
      (validate_command os.unicode_lower default_security_config command args opts.sudo)
