-- ===== src/Executor/Services/Signals.antt =====
-- Which processes may be sent which signals.
use runixo_agent.Prelude.{
  ℕ, ◌≡◌, ◌↔◌, refl, sym, ap, Bool, true, false, not, none, some, any, Any, any_iff, if◌then◌else◌,
  arith,
}
use runixo_agent.Prelude.Int.{ℤ, pos, ◌<ℤ◌, leb_ℤ, eq_ℤ, eq_ℤ_iff, leb_ℤ_iff}
use runixo_agent.Executor.Services.{allowed_signals, signal_of, kill_process}

-- A process other than 0 and 1 and the groups of processes, which negative numbers stand for, is
-- sent the signal that is asked for, or SIGTERM where none is, and this is SIGTERM, SIGKILL, SIGINT
-- or SIGHUP; all else is refused.
kill_process_iff :
    (pid signal : ℤ) (target : ℤ × ℤ)
    → (kill_process pid signal ≡ some target) ↔ (
        (pos 1 <ℤ pid)
        × Any (λ n. signal_of signal ≡ pos n) allowed_signals
        × (target ≡ (pid, signal_of signal)))
unfolding kill_process
kill_process_iff pid signal target =
    by_tests (leb_ℤ pid (pos 1)) (any is_signal allowed_signals) refl refl
  where
    s : ℤ
    s = signal_of signal

    is_signal : ℕ → Bool
    is_signal n = eq_ℤ s (pos n)

    allowed : (any is_signal allowed_signals ≡ true) ↔ Any (λ n. s ≡ pos n) allowed_signals
    allowed = any_iff is_signal (λ n. eq_ℤ_iff s (pos n)) allowed_signals

    differ : {b : Bool} → b ≡ false → b ≡ true → ⊥
    differ e f = cc

    by_tests :
        (l a : Bool)
        → leb_ℤ pid (pos 1) ≡ l
        → any is_signal allowed_signals ≡ a
        → ((if l then none else if not a then none else some (pid, s)) ≡ some target)
          ↔ ((pos 1 <ℤ pid) × Any (λ n. s ≡ pos n) allowed_signals × (target ≡ (pid, s)))
    by_tests true a e f =
        (λ h. absurd cc, λ (big, m, t). absurd (ground (arith, leb_ℤ_iff pid (pos 1))))
    by_tests false false e f = (λ h. absurd cc, λ (big, m, t). absurd (differ f (allowed.1 m)))
    by_tests false true e f = (
      λ h. (ground (arith, leb_ℤ_iff pid (pos 1)), allowed.0 f, cc),
      λ (big, m, t). ap some (sym t),
    )
