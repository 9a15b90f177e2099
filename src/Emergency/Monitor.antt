-- ===== src/Emergency/Monitor.antt =====
-- The manager of internal/emergency/emergency.go: its switch, its samples and its loops.
use runixo_agent.Prelude.{
  ℕ, suc, ◌+◌, ◌-◌, Bool, true, false, not, ◌||◌, Option, none, some, List, [], ◌∷◌, ◌++◌, length,
  drop, leb, ltb, ◌==◌, any, if◌then◌else◌, ◌≡◌,
}
use runixo_agent.Emergency.Target.{Process, KillRecord, Action, System, kill_top_process}
pub mod Samples
pub mod Loops

-- 95.0 percent.
abbrev pub default_threshold : ℕ
default_threshold = 95_000_000

-- Three minutes of samples, one in twenty seconds.
abbrev pub samples_required : ℕ
samples_required = 9

pub record Config : Type 0 where
  pub cpu_threshold : ℕ
  pub mem_threshold : ℕ

-- A monitor loop has not read its first context yet, waits on the context that it read last, or is
-- inside `checkAndAct`.
pub data Loop : Type 0 where
  starting : Loop
  waiting : ℕ → Loop
  acting : Loop

-- Contexts are numbered as they are made; `cancelled` holds those whose `cancel` was called.
pub record Manager : Type 0 where
  pub enabled : Bool
  pub config : Config
  pub ctx : ℕ
  pub cancelled : List ℕ
  pub loops : List Loop
  pub consecutive_high : ℕ
  pub kill_history : List KillRecord

unfoldable pub new_manager : Manager
new_manager = record {
  enabled = false;
  config = record { cpu_threshold = default_threshold; mem_threshold = default_threshold };
  ctx = 0;
  cancelled = [];
  loops = [];
  consecutive_high = 0;
  kill_history = [];
}

-- A new context, and a loop that starts.
unfoldable pub enable : Manager → Manager
enable m = if m.enabled then m else record m {
  enabled = true;
  consecutive_high = 0;
  ctx = suc m.ctx;
  loops = starting ∷ m.loops;
}

unfoldable pub disable : Manager → Manager
disable m =
    if not m.enabled
    then m
    else record m { enabled = false; cancelled = m.ctx ∷ m.cancelled; consecutive_high = 0 }

unfoldable pub set_config : Config → Manager → Manager
set_config cfg m = record m {
  config = record {
    cpu_threshold = if ltb 0 cfg.cpu_threshold then cfg.cpu_threshold else m.config.cpu_threshold;
    mem_threshold = if ltb 0 cfg.mem_threshold then cfg.mem_threshold else m.config.mem_threshold;
  };
}

-- The switch, the count and the last twenty records.
unfoldable pub get_status : Manager → Bool × ℕ × List KillRecord
get_status m =
    let h = m.kill_history in
    (m.enabled, m.consecutive_high, if ltb 20 (length h) then drop (length h - 20) h else h)

-- What one sample reads: nothing, if the CPU or the memory could not be read; or the two usages,
-- with the processes and the answers of the system that a kill would see.
pub data Sample : Type 0 where
  unread : Sample
  usage : ℕ → ℕ → System → ℕ → Option (List Process) → Sample

unfoldable pub overloaded : Config → ℕ → ℕ → Bool
overloaded c cpu mem = leb c.cpu_threshold cpu || leb c.mem_threshold mem

-- The counter after the sample, and whether it reached the required number.
unfoldable pub counted : Config → ℕ → ℕ → ℕ → ℕ × Bool
counted c cpu mem high =
    let high' = if overloaded c cpu mem then suc high else 0 in (high', leb samples_required high')

-- The manager after a sample, and what was done to the system.
unfoldable pub check_and_act : Sample → Manager → Manager × List Action
check_and_act unread m = (m, [])
check_and_act (usage cpu mem sys now procs) m =
    let (high, should_kill) = counted m.config cpu mem m.consecutive_high in
    let (history, actions) = kill_top_process sys now procs m.kill_history in
    if should_kill
    then (record m { consecutive_high = 0; kill_history = history }, actions)
    else (record m { consecutive_high = high }, [])
