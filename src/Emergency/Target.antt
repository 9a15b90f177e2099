-- ===== src/Emergency/Target.antt =====
-- Which process internal/emergency/emergency.go ends, and how.
-- Percentages are whole numbers of millionths, and a score is a whole number of ten-millionths, so
-- that the weights 0.6 and 0.4 are the factors 6 and 4.
use runixo_agent.Prelude.{
  ℕ, suc, ◌+◌, ◌*◌, Bool, true, false, not, Option, none, some, List, [], ◌∷◌, ◌++◌, Text, codes,
  any, leb, ltb, text_eq, if◌then◌else◌,
}
use runixo_agent.Emergency.Docker.{detect_docker_container}
pub mod Choice

abbrev pub protected_pid_threshold : ℕ
protected_pid_threshold = 2

-- A score of 1.0.
abbrev pub least_score : ℕ
least_score = 10_000_000

-- A running process as the system reports it; `cgroup` is what `cat` prints of its cgroup file.
pub record Process : Type 0 where
  pub pid : ℕ
  pub name : Text
  pub cmdline : Text
  pub cpu_percent : ℕ
  pub mem_percent : ℕ
  pub cgroup : Option Text

pub record ProcessScore : Type 0 where
  pub pid : ℕ
  pub name : Text
  pub cmdline : Text
  pub cpu_percent : ℕ
  pub mem_percent : ℕ
  pub score : ℕ
  pub container_id : Text

abbrev pub protected_names : List Text
protected_names =
    codes "init"
    ∷ codes "systemd"
    ∷ codes "sshd"
    ∷ codes "runixo-agent"
    ∷ codes "dockerd"
    ∷ codes "containerd"
    ∷ codes "kernel"
    ∷ codes "kthreadd"
    ∷ codes "ksoftirqd"
    ∷ codes "mysqld"
    ∷ codes "mysql"
    ∷ codes "mariadbd"
    ∷ codes "mariadb"
    ∷ codes "postgres"
    ∷ codes "postgresql"
    ∷ codes "mongod"
    ∷ codes "mongos"
    ∷ codes "redis-server"
    ∷ codes "redis-sentinel"
    ∷ []

unfoldable pub is_protected_process : Text → Bool
is_protected_process name = any (text_eq name) protected_names

unfoldable pub score_of : Process → ProcessScore
score_of p = record {
  pid = p.pid;
  name = p.name;
  cmdline = p.cmdline;
  cpu_percent = p.cpu_percent;
  mem_percent = p.mem_percent;
  score = p.cpu_percent * 6 + p.mem_percent * 4;
  container_id = detect_docker_container p.cgroup;
}

-- The loop over the processes.
unfoldable pub scored : List Process → List ProcessScore
scored [] = []
scored (p ∷ ps) =
    let rest = scored ps in
    if leb p.pid protected_pid_threshold
    then rest
    else if is_protected_process p.name
    then rest
    else score_of p ∷ rest

-- `sort.Slice` by falling score. It is not stable; nothing below depends on the order of equals.
unfoldable pub insert_score : ProcessScore → List ProcessScore → List ProcessScore
insert_score x [] = x ∷ []
insert_score x (y ∷ ys) = if ltb x.score y.score then y ∷ insert_score x ys else x ∷ y ∷ ys

unfoldable pub sort_scores : List ProcessScore → List ProcessScore
unfolding insert_score
sort_scores [] = []
sort_scores (x ∷ xs) = insert_score x (sort_scores xs)

-- The head of the sorted list, if its score is at least 1.0.
unfoldable pub choose : List ProcessScore → Option ProcessScore
choose [] = none
choose (target ∷ rest) = if ltb target.score least_score then none else some target

unfoldable pub select_target : List Process → Option ProcessScore
select_target procs = choose (sort_scores (scored procs))

-- What is done to the system.
pub data Action : Type 0 where
  docker_update_no_restart docker_stop docker_kill systemctl_stop : Text → Action
  terminate kill : ℕ → Action

-- What the system answers: whether `docker stop` succeeds, whether the process can be opened, and
-- whether it still runs three seconds after SIGTERM.
pub record System : Type 0 where
  pub stop_succeeds : Text → Bool
  pub opens : ℕ → Bool
  pub still_running : ℕ → Bool

-- A failure of `docker update` is logged only.
unfoldable pub kill_docker_container : System → Text → List Action
kill_docker_container sys container_id =
    docker_update_no_restart container_id
    ∷ docker_stop container_id
    ∷ (if sys.stop_succeeds container_id then [] else docker_kill container_id ∷ [])

unfoldable pub kill_regular_process : System → ℕ → Text → List Action
kill_regular_process sys pid name =
    if not (sys.opens pid)
    then []
    else terminate pid
      ∷ ((if sys.still_running pid then kill pid ∷ [] else [])
          ++ (systemctl_stop (name ++ codes ".service") ∷ []))

pub data Reason : Type 0 where
  container_over : Text → Reason
  process_over : Text → ℕ → ℕ → ℕ → Reason

pub record KillRecord : Type 0 where
  pub pid : ℕ
  pub name : Text
  pub reason : Reason
  pub cpu : ℕ
  pub memory : ℕ
  pub is_docker : Bool
  pub timestamp : ℕ

unfoldable pub is_container : ProcessScore → Bool
is_container target = not (text_eq target.container_id [])

unfoldable pub kill_record : ℕ → ProcessScore → KillRecord
kill_record now target = record {
  pid = target.pid;
  name = target.name;
  reason =
      if is_container target
      then container_over target.container_id
      else process_over target.name target.pid target.cpu_percent target.mem_percent;
  cpu = target.cpu_percent;
  memory = target.mem_percent;
  is_docker = is_container target;
  timestamp = now;
}

unfoldable pub kill_target : System → ProcessScore → List Action
kill_target sys target =
    if is_container target
    then kill_docker_container sys target.container_id
    else kill_regular_process sys target.pid target.name

-- `none` for the list of processes is a failure to read it.
unfoldable pub kill_top_process :
    System → ℕ → Option (List Process) → List KillRecord → List KillRecord × List Action
kill_top_process sys now none history = (history, [])
kill_top_process sys now (some procs) history = elim (select_target procs) [
  | none ↦ (history, [])
  | some target ↦ (history ++ (kill_record now target ∷ []), kill_target sys target)
]
