-- ===== src/Plugin/Instances/Scheduled.antt =====
-- ScheduledTask of internal/plugin/instances.go: its switch, and the goroutines that it starts.
use runixo_agent.Prelude.{
  ℕ, suc, ◌≡◌, ◌↔◌, refl, Bool, true, false, not, List, [], ◌∷◌, Option, none, some, if◌then◌else◌,
  arith,
}

-- `closed` is the state of the channel `stopChan`, and `loops` counts the goroutines that were
-- started.
pub record ScheduledTask : Type 0 where
  pub running : Bool
  pub closed : Bool
  pub loops : ℕ

unfoldable pub new_scheduled_task : ScheduledTask
new_scheduled_task = record { running = false; closed = false; loops = 0 }

unfoldable pub start_task : ScheduledTask → ScheduledTask
start_task t = if t.running then t else record t { running = true; loops = suc t.loops }

-- Closing a channel twice panics: that is `none`.
unfoldable pub stop_task : ScheduledTask → Option ScheduledTask
stop_task t =
    if not t.running
    then some t
    else if t.closed
    then none
    else some (record t { closed = true; running = false })

unfoldable pub is_running : ScheduledTask → Bool
is_running t = t.running

pub data Command : Type 0 where
  starts stops : Command

abbrev pub same_command : Command → Command → Bool
same_command starts starts = true
same_command stops stops = true
same_command _ _ = false

unfoldable pub obey : Command → ScheduledTask → Option ScheduledTask
obey starts t = some (start_task t)
obey stops t = stop_task t

abbrev obey_then :
    (ScheduledTask → Option ScheduledTask) → Option ScheduledTask → Option ScheduledTask
obey_then k none = none
obey_then k (some t) = k t

unfoldable pub obey_all : List Command → ScheduledTask → Option ScheduledTask
obey_all [] t = some t
obey_all (c ∷ cs) t = obey_then (obey_all cs) (obey c t)

-- The first list is what is left of the second when some commands are taken out.
unfoldable pub is_subsequence : List Command → List Command → Bool
is_subsequence [] cs = true
is_subsequence (p ∷ ps) [] = false
is_subsequence (p ∷ ps) (c ∷ cs) =
    if same_command p c then is_subsequence ps cs else is_subsequence (p ∷ ps) cs

restarted :
    (loops : ℕ) (cs : List Command)
    → (obey_all cs (record { running = true; closed = true; loops = loops }) ≡ none)
      ↔ (is_subsequence (stops ∷ []) cs ≡ true)
unfolding obey_all is_subsequence obey start_task stop_task
restarted loops [] = ground arith
restarted loops (starts ∷ cs) = restarted loops cs
restarted loops (stops ∷ cs) = (λ e. refl, λ e. refl)

stopped :
    (loops : ℕ) (cs : List Command)
    → (obey_all cs (record { running = false; closed = true; loops = loops }) ≡ none)
      ↔ (is_subsequence (starts ∷ stops ∷ []) cs ≡ true)
unfolding obey_all is_subsequence obey start_task stop_task
stopped loops [] = ground arith
stopped loops (starts ∷ cs) = restarted (suc loops) cs
stopped loops (stops ∷ cs) = stopped loops cs

started :
    (loops : ℕ) (cs : List Command)
    → (obey_all cs (record { running = true; closed = false; loops = loops }) ≡ none)
      ↔ (is_subsequence (stops ∷ starts ∷ stops ∷ []) cs ≡ true)
unfolding obey_all is_subsequence obey start_task stop_task
started loops [] = ground arith
started loops (starts ∷ cs) = started loops cs
started loops (stops ∷ cs) = stopped loops cs

-- A new task panics under a list of starts and stops exactly when the list has a start, a stop, a
-- start and a stop in this order, with any commands between them: it cannot be used again.
restart_panics :
    (cs : List Command)
    → (obey_all cs new_scheduled_task ≡ none)
      ↔ (is_subsequence (starts ∷ stops ∷ starts ∷ stops ∷ []) cs ≡ true)
unfolding obey_all is_subsequence obey start_task stop_task new_scheduled_task
restart_panics [] = ground arith
restart_panics (starts ∷ cs) = started 1 cs
restart_panics (stops ∷ cs) = restart_panics cs
