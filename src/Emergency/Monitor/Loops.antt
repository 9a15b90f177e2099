-- ===== src/Emergency/Monitor/Loops.antt =====
-- The monitor loops beside the switch: what the steps of the goroutines can lead to.
use runixo_agent.Prelude.{
  ℕ, suc, ◌≤◌, ◌<◌, ◌≡◌, ◌⊎◌, inl, inr, refl, sym, ap, ◌∙◌, Bool, true, false, List, [], ◌∷◌, ◌++◌,
  ◌==◌, any, All, All-map, All-append, Bool-cases, if◌then◌else◌, arith,
}
use mathlib.Core.Path.{subst}
use runixo_agent.Emergency.Target.{KillRecord, kill_top_process}
use runixo_agent.Emergency.Monitor.{
  Manager, Config, Loop, starting, waiting, acting, Sample, unread, usage, new_manager, enable,
  disable, set_config, counted, check_and_act,
}

-- The context was cancelled.
unfoldable pub is_done : ℕ → List ℕ → Bool
is_done c cancelled = any (λ d. d == c) cancelled

-- The steps, in any order: a call of the manager, or a step of one loop. A loop that starts
-- reads the context that the manager has by then. One that waits takes a
-- tick, or ends if its context is done; one that acts takes its sample and waits again, on the
-- context that the manager has by then.
pub data Step (m : Manager) : Manager → Type 0 where
  enables : Step m (enable m)
  disables : Step m (disable m)
  configures : (cfg : Config) → Step m (set_config cfg m)
  begins :
      (before after : List Loop)
      → m.loops ≡ before ++ (starting ∷ after)
      → Step m (record m { loops = before ++ (waiting m.ctx ∷ after) })
  ticks :
      (before after : List Loop) (c : ℕ)
      → m.loops ≡ before ++ (waiting c ∷ after)
      → Step m (record m { loops = before ++ (acting ∷ after) })
  ends :
      (before after : List Loop) (c : ℕ)
      → m.loops ≡ before ++ (waiting c ∷ after)
      → is_done c m.cancelled ≡ true
      → Step m (record m { loops = before ++ after })
  acts :
      (before after : List Loop) (s : Sample)
      → m.loops ≡ before ++ (acting ∷ after)
      → Step m (record (check_and_act s m).0 { loops = before ++ (waiting m.ctx ∷ after) })

pub data Reach (m : Manager) : Manager → Type 0 where
  here : Reach m m
  next : {k l : Manager} → Reach m k → Step k l → Reach m l

-- A waiting loop waits on a context that is done, or on the present one.
abbrev pub IsTracked : List ℕ → ℕ → Bool → Loop → Type 0
IsTracked cancelled ctx enabled (waiting c) =
    (is_done c cancelled ≡ true) ⊎ ((c ≡ ctx) × (enabled ≡ true))
IsTracked cancelled ctx enabled acting = Unit {0}
IsTracked cancelled ctx enabled starting = Unit {0}

abbrev AreTracked : Manager → List Loop → Type 0
AreTracked m = All (IsTracked m.cancelled m.ctx m.enabled)

record IsSound (m : Manager) : Type 0 where
  tracked : AreTracked m m.loops
  started : (m.loops ≡ []) ⊎ (0 < m.ctx)
  on_started : m.enabled ≡ true → 0 < m.ctx
  off_is_done : m.enabled ≡ false → 0 < m.ctx → is_done m.ctx m.cancelled ≡ true
  past : All (λ d. d ≤ m.ctx) m.cancelled

new-IsSound : IsSound new_manager
unfolding new_manager
new-IsSound = record {
  tracked = tt;
  started = inl refl;
  on_started = λ e. absurd (ground arith);
  off_is_done = λ e h. absurd (omega arith);
  past = tt;
}

enable-IsSound : (m : Manager) → IsSound m → IsSound (enable m)
unfolding enable
enable-IsSound m s = elim (Bool-cases m.enabled) [
  | inl on ↦ simp on s
  | inr off ↦ simp off (record {
    tracked = (tt, All-map m.loops (old off) s.tracked);
    started = inr (omega arith);
    on_started = λ e. omega arith;
    off_is_done = λ e h. absurd (ground arith);
    past = All-map m.cancelled (λ d h. omega arith) s.past;
  })
]
  where
    old :
        m.enabled ≡ false
        → (l : Loop) → IsTracked m.cancelled m.ctx m.enabled l
        → IsTracked m.cancelled (suc m.ctx) true l
    old off (waiting c) (inl d) = inl d
    old off (waiting c) (inr (e, on)) = absurd (ground arith)
    old off acting h = tt
    old off starting h = tt

disable-IsSound : (m : Manager) → IsSound m → IsSound (disable m)
unfolding disable is_done
disable-IsSound m s = elim (Bool-cases m.enabled) [
  | inr off ↦ simp off s
  | inl on ↦ simp on (record {
    tracked = All-map m.loops old s.tracked;
    started = s.started;
    on_started = λ e. absurd (ground arith);
    off_is_done = λ e h. ground arith;
    past = (omega arith, s.past);
  })
]
  where
    old :
        (l : Loop)
        → IsTracked m.cancelled m.ctx m.enabled l
        → IsTracked (m.ctx ∷ m.cancelled) m.ctx false l
    old (waiting c) (inl d) = inl (ground arith)
    old (waiting c) (inr (e, on)) = inl (ground arith)
    old acting h = tt
    old starting h = tt

-- Replacing a loop in the list by tracked ones keeps it tracked.
module _ (P : Loop → Type 0) (before after : List Loop) (old : Loop) where
  replaced :
      (new : List Loop)
      → All P new
      → All P (before ++ (old ∷ after))
      → All P (before ++ (new ++ after))
  replaced new h all =
      let (b, rest) = (All-append P before (old ∷ after)).0 all in
      (All-append P before (new ++ after)).1 (b, (All-append P new after).1 (h, rest.1))

nonempty : (before after : List Loop) (l : Loop) → (before ++ (l ∷ after)) ≡ [] → ⊥
nonempty [] after l e = absurd (cc)
nonempty (x ∷ before) after l e = absurd (cc)

module _ (m : Manager) (s : IsSound m) (before after : List Loop) (old : Loop)
    (e : m.loops ≡ before ++ (old ∷ after)) where
  running : 0 < m.ctx
  running = elim s.started [
    | inl none_yet ↦ absurd (nonempty before after old (sym e ∙ none_yet))
    | inr h ↦ h
  ]

  -- One loop's step, whatever it does to the counter and the history of kills.
  replace-IsSound :
      (new : List Loop) (high : ℕ) (history : List KillRecord)
      → AreTracked m new
      → IsSound (record m {
        loops = before ++ (new ++ after);
        consecutive_high = high;
        kill_history = history;
      })
  replace-IsSound new high history h = record {
    tracked =
        replaced (IsTracked m.cancelled m.ctx m.enabled) before after old new h
          (subst (AreTracked m) e s.tracked);
    started = inr running;
    on_started = s.on_started;
    off_is_done = s.off_is_done;
    past = s.past;
  }

  now-IsTracked : IsTracked m.cancelled m.ctx m.enabled (waiting m.ctx)
  now-IsTracked = elim (Bool-cases m.enabled) [
    | inl on ↦ inr (refl, on)
    | inr off ↦ inl (s.off_is_done off running)
  ]

check_and_act_shape :
    (s : Sample) (m : Manager)
    → (high : ℕ) × (history : List KillRecord) × ((check_and_act s m).0
        ≡ record m { consecutive_high = high; kill_history = history })
unfolding check_and_act
check_and_act_shape unread m = (m.consecutive_high, m.kill_history, refl)
check_and_act_shape (usage cpu mem sys now procs) m =
    elim (Bool-cases (counted m.config cpu mem m.consecutive_high).1) [
      | inl should ↦ (0, (kill_top_process sys now procs m.kill_history).0, rw should)
      | inr not_yet ↦ ((counted m.config cpu mem m.consecutive_high).0, m.kill_history, rw not_yet)
    ]

set_config-IsSound : (cfg : Config) (m : Manager) → IsSound m → IsSound (set_config cfg m)
unfolding set_config
set_config-IsSound cfg m s = record {
  tracked = s.tracked;
  started = s.started;
  on_started = s.on_started;
  off_is_done = s.off_is_done;
  past = s.past;
}

Step-IsSound : {m k : Manager} → Step m k → IsSound m → IsSound k
Step-IsSound {m} enables s = enable-IsSound m s
Step-IsSound {m} disables s = disable-IsSound m s
Step-IsSound {m} (configures cfg) s = set_config-IsSound cfg m s
Step-IsSound {m} (begins before after e) s =
    replace-IsSound m s before after starting e (waiting m.ctx ∷ []) m.consecutive_high
      m.kill_history (now-IsTracked m s before after starting e, tt)
Step-IsSound {m} (ticks before after c e) s =
    replace-IsSound m s before after (waiting c) e (acting ∷ []) m.consecutive_high m.kill_history
      (tt, tt)
Step-IsSound {m} (ends before after c e d) s =
    replace-IsSound m s before after (waiting c) e [] m.consecutive_high m.kill_history tt
Step-IsSound {m} (acts before after sample e) s =
    let (high, history, shape) = check_and_act_shape sample m in
    subst (λ (k : Manager). IsSound (record k { loops = before ++ (waiting m.ctx ∷ after) }))
      (sym shape)
      (replace-IsSound m s before after acting e (waiting m.ctx ∷ []) high history
        (now-IsTracked m s before after acting e, tt))

Reach-IsSound : {m k : Manager} → IsSound m → Reach m k → IsSound k
Reach-IsSound s here = s
Reach-IsSound s (next r st) = Step-IsSound st (Reach-IsSound s r)

-- The context that the loop waits on is done, if it waits.
abbrev pub CanEnd : Manager → Loop → Type 0
CanEnd m (waiting c) = is_done c m.cancelled ≡ true
CanEnd m acting = Unit {0}
CanEnd m starting = Unit {0}

-- Whatever the calls and the loops did since the start, once the manager is off every loop that
-- waits can end; none is left to wait for ever.
pub off_loops_end : {m : Manager} → Reach new_manager m → m.enabled ≡ false → All (CanEnd m) m.loops
off_loops_end {m} r off = All-map m.loops ended (Reach-IsSound new-IsSound r).tracked
  where
    ended : (l : Loop) → IsTracked m.cancelled m.ctx m.enabled l → CanEnd m l
    ended (waiting c) (inl d) = d
    ended (waiting c) (inr (e, on)) = absurd (ground arith)
    ended acting h = tt
    ended starting h = tt

-- The loops that wait on a context that is not done: each of them will go on taking samples.
abbrev pub live_loops : List ℕ → List Loop → ℕ
live_loops cancelled [] = 0
live_loops cancelled (starting ∷ ls) = live_loops cancelled ls
live_loops cancelled (acting ∷ ls) = live_loops cancelled ls
live_loops cancelled (waiting c ∷ ls) =
    let n = live_loops cancelled ls in if is_done c cancelled then n else suc n

not_done : (c ctx : ℕ) (ds : List ℕ) → All (λ d. d ≤ ctx) ds → ctx < c → is_done c ds ≡ false
unfolding is_done
not_done c ctx [] h lt = refl
not_done c ctx (d ∷ ds) h lt = ground (arith, not_done c ctx ds h.1 lt)

-- What switching off and on leaves of a manager that is on.
abbrev restarted : Manager → Manager
restarted m = record m {
  enabled = true;
  ctx = suc m.ctx;
  cancelled = m.ctx ∷ m.cancelled;
  loops = starting ∷ m.loops;
  consecutive_high = 0;
}

-- The new loop has read its context.
abbrev begun : Manager → Manager
begun m = record (restarted m) { loops = waiting (suc m.ctx) ∷ m.loops }

begun-Step : (m : Manager) → Step (restarted m) (begun m)
begun-Step m = begins [] m.loops refl

restarted_lem : (m : Manager) → m.enabled ≡ true → enable (disable m) ≡ restarted m
unfolding enable disable
restarted_lem m on = simp on

-- The loop of before has read its sample, and waits on the new context.
abbrev doubled : Manager → Manager
doubled m = record (restarted m) { loops = waiting (suc m.ctx) ∷ waiting (suc m.ctx) ∷ [] }

doubled-Step : (m : Manager) → m.loops ≡ acting ∷ [] → Step (begun m) (doubled m)
unfolding check_and_act
doubled-Step m only =
    acts (waiting (suc m.ctx) ∷ []) [] unread (ap (◌∷◌ (waiting (suc m.ctx))) only)

-- If the manager is switched off and on again while its only loop acts, that loop does not end:
-- from each such state, one is reached where two loops take samples beside one another.
restart_doubles_loops :
    {m : Manager}
    → Reach new_manager m
    → m.enabled ≡ true
    → m.loops ≡ acting ∷ []
    → (k : Manager) × Reach m k × (k.enabled ≡ true) × (live_loops k.cancelled k.loops ≡ 2)
restart_doubles_loops {m} r on only =
    let fresh =
      not_done (suc m.ctx) m.ctx (m.ctx ∷ m.cancelled)
        (omega arith, (Reach-IsSound new-IsSound r).past) (omega arith) in
    (
      doubled m,
      next
          (next (subst (Reach m) (restarted_lem m on) (next (next here disables) enables))
            (begun-Step m))
          (doubled-Step m only),
      refl,
      rw fresh,
    )
