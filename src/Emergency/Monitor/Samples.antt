-- ===== src/Emergency/Monitor/Samples.antt =====
-- When a run of samples leads to a kill.
use runixo_agent.Prelude.{
  ℕ, suc, ◌%◌, ◌≡◌, refl, ap, ◌∙◌, ◌&&◌, Option, List, [], ◌∷◌, ◌==◌, if◌then◌else◌, arith,
}
use runixo_agent.Emergency.Target.{Process, System, kill_top_process}
use runixo_agent.Emergency.Monitor.{
  Manager, Config, Sample, unread, usage, overloaded, counted, check_and_act,
}

-- The manager after some samples, the newest first.
unfoldable pub watched : List Sample → Manager → Manager
watched [] m = m
watched (s ∷ older) m = (check_and_act s (watched older m)).0

-- How many samples in a row, up to the newest, were overloaded; those that could not be read do not
-- count either way.
abbrev pub run_length : Config → List Sample → ℕ
run_length c [] = 0
run_length c (unread ∷ older) = run_length c older
run_length c (usage cpu mem sys now procs ∷ older) =
    let n = run_length c older in if overloaded c cpu mem then suc n else 0

config-check_and_act : (s : Sample) (m : Manager) → (check_and_act s m).0.config ≡ m.config
unfolding check_and_act
config-check_and_act unread m = refl
config-check_and_act (usage cpu mem sys now procs) m = ground arith

config-watched : (ss : List Sample) (m : Manager) → (watched ss m).config ≡ m.config
unfolding watched
config-watched [] m = refl
config-watched (s ∷ older) m = config-check_and_act s (watched older m) ∙ config-watched older m

module _ (c : Config) (cpu mem : ℕ) (sys : System) (now : ℕ) (procs : Option (List Process))
    (m : Manager) (n : ℕ) (same : m.config ≡ c) (h : m.consecutive_high ≡ n % 9) where
  high-step :
      (check_and_act (usage cpu mem sys now procs) m).0.consecutive_high
      ≡ (if overloaded c cpu mem then suc n else 0) % 9
  unfolding check_and_act counted
  high-step = ground (arith, ap (λ k. overloaded k cpu mem) same)

  kill-step :
      let (after, actions) = check_and_act (usage cpu mem sys now procs) m in
      (after.kill_history, actions) ≡ (
        if overloaded c cpu mem && (if overloaded c cpu mem then suc n else 0) % 9 == 0
        then kill_top_process sys now procs m.kill_history
        else (m.kill_history, []))
  unfolding check_and_act counted
  kill-step = ground (arith, ap (λ k. overloaded k cpu mem) same)

unread-step : (m : Manager) → (check_and_act unread m).0 ≡ m
unfolding check_and_act
unread-step m = refl

consecutive_high-watched :
    (ss : List Sample) (m : Manager)
    → m.consecutive_high ≡ 0
    → (watched ss m).consecutive_high ≡ run_length m.config ss % 9
unfolding watched
consecutive_high-watched [] m z = z
consecutive_high-watched (unread ∷ older) m z =
    ap (λ k. k.consecutive_high) (unread-step (watched older m))
    ∙ consecutive_high-watched older m z
consecutive_high-watched (usage cpu mem sys now procs ∷ older) m z =
    high-step m.config cpu mem sys now procs (watched older m) (run_length m.config older)
      (config-watched older m) (consecutive_high-watched older m z)

-- From a manager whose counter is at 0, a sample leads to a kill exactly when it is overloaded
-- and the overloaded samples in a row up to it are a multiple of nine; otherwise nothing is done
-- and the history of kills stays.
pub kills_every_ninth :
    (m : Manager) (older : List Sample) (cpu mem : ℕ) (sys : System) (now : ℕ)
    (procs : Option (List Process))
    → m.consecutive_high ≡ 0
    → let s = usage cpu mem sys now procs in
      let before = watched older m in
      let (after, actions) = check_and_act s before in
      (after.kill_history, actions) ≡ (
        if overloaded m.config cpu mem && run_length m.config (s ∷ older) % 9 == 0
        then kill_top_process sys now procs before.kill_history
        else (before.kill_history, []))
kills_every_ninth m older cpu mem sys now procs z =
    kill-step m.config cpu mem sys now procs (watched older m) (run_length m.config older)
      (config-watched older m) (consecutive_high-watched older m z)
