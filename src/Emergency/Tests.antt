-- ===== src/Emergency/Tests.antt =====
-- The theorems of the emergency manager at concrete inputs, and runs of the code.
use runixo_agent.Prelude.{
  split, contains, ℕ, ◌+◌, ◌%◌, ◌≡◌, ◌⊎◌, ◌++◌, refl, Bool, true, false, ◌&&◌, Option, none, some,
  List, [], ◌∷◌, Text, codes, arith, length, ◌==◌, text_eq, if◌then◌else◌, All,
}
use runixo_agent.Emergency.Docker.{detect_docker_container, is_hex, find_id, find_in_lines}
use runixo_agent.Emergency.Target.{
  Process, System, terminate, systemctl_stop, kill_top_process, select_target, scored, sort_scores,
  choose, score_of, is_protected_process, is_container, kill_target, kill_regular_process,
}
use runixo_agent.Emergency.Target.Choice.{Chooses, select_target-Chooses}
use runixo_agent.Emergency.Monitor.{
  Manager, new_manager, enable, disable, waiting, Sample, unread, usage, check_and_act, overloaded,
  counted,
}
use runixo_agent.Emergency.Monitor.Samples.{watched, run_length, kills_every_ninth}
use runixo_agent.Emergency.Monitor.Loops.{
  here, next, enables, begins, disables, CanEnd, off_loops_end,
}

abbrev worker : Process
worker = record {
  pid = 300;
  name = codes "worker";
  cmdline = codes "worker -j8";
  cpu_percent = 90_000_000;
  mem_percent = 10_000_000;
  cgroup = none;
}

abbrev database : Process
database = record worker { pid = 200; name = codes "mysqld"; cpu_percent = 99_000_000 }

abbrev calm : System
calm = record { stop_succeeds = λ id. true; opens = λ pid. true; still_running = λ pid. false }

abbrev busy : Sample
busy = usage 99_000_000 0 calm 5 (some (database ∷ worker ∷ []))

abbrev eight : List Sample
eight = busy ∷ busy ∷ busy ∷ unread ∷ busy ∷ busy ∷ busy ∷ busy ∷ busy ∷ []

ninth_kills_worker :
    (check_and_act busy (watched eight new_manager)).1
    ≡ terminate 300 ∷ systemctl_stop (codes "worker.service") ∷ []
unfolding check_and_act counted overloaded watched new_manager kill_top_process select_target scored
    sort_scores choose score_of is_protected_process is_container kill_target kill_regular_process
    text_eq detect_docker_container
ninth_kills_worker = refl

select_target-Chooses_example :
    Chooses (database ∷ worker ∷ []) (select_target (database ∷ worker ∷ []))
select_target-Chooses_example = select_target-Chooses (database ∷ worker ∷ [])

short_id :
    detect_docker_container (
      some (
        codes
          "0::/system.slice/docker/0123456789abcdef0123456789abcdef0123456789abcdef0123456789abcdef"))
    ≡ codes "0123456789ab"
unfolding detect_docker_container find_in_lines find_id is_hex split contains
    runixo_agent.Prelude.search_from text_eq
short_id = refl

kills_every_ninth_example :
    let before = watched eight new_manager in
    let (after, actions) = check_and_act busy before in
    (after.kill_history, actions) ≡ (
      if overloaded new_manager.config 99_000_000 0
        && run_length new_manager.config (busy ∷ eight) % 9 == 0
      then kill_top_process calm 5 (some (database ∷ worker ∷ [])) before.kill_history
      else (before.kill_history, []))
unfolding new_manager
kills_every_ninth_example =
    kills_every_ninth new_manager eight 99_000_000 0 calm 5 (some (database ∷ worker ∷ [])) refl

abbrev off_again : Manager
off_again = disable (record (enable new_manager) { loops = waiting 1 ∷ [] })

off_loops_end_example : All (CanEnd off_again) off_again.loops
unfolding new_manager enable disable
off_loops_end_example =
    off_loops_end {m = off_again} (next (next (next here enables) (begins [] [] refl)) disables)
      refl
