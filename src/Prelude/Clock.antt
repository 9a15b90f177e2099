-- ===== src/Prelude/Clock.antt =====
-- The clock as seconds since 1970.
use Prim.Native.Nat.{ℕ, ◌-◌, ◌/◌}
use runixo_agent.Prelude.Tests.{leb, if◌then◌else◌}
use runixo_agent.Prelude.Int.{ℤ, pos, negsuc}

-- Go's `time.Unix`, of a time as nanoseconds since the zero time of Go, the first of January of the
-- year 1.
abbrev pub unix_seconds : ℕ → ℤ
unix_seconds time =
    let seconds = time / 1_000_000_000 in
    if leb 62_135_596_800 seconds
    then pos (seconds - 62_135_596_800)
    else negsuc (62_135_596_800 - seconds - 1)
