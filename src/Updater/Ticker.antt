-- ===== src/Updater/Ticker.antt =====
-- Start, Stop and SetConfig of internal/updater/updater.go: the ticker and the goroutine that waits
-- on it.
use runixo_agent.Prelude.{
  ℕ, suc, ◌≡◌, Bool, true, false, not, Option, none, some, List, [], ◌∷◌, ◌++◌, if◌then◌else◌,
}
use runixo_agent.Updater.{Config}
pub mod Silence

-- The goroutine of `Start`: not started, in `checkAndUpdate`, in its `select` on the channel of a
-- ticker, or at its end.
pub data Loop : Type 0 where
  absent checking ended : Loop
  waiting : ℕ → Loop

-- Tickers are numbered as they are made, the next one `made`. `current` is the field `checkTicker`
-- and `ticking` says that it was not stopped; the others all were. `full` are the tickers with a
-- tick in their channel that nobody has received.
pub record Ticking : Type 0 where
  pub config : Config
  pub saved_config : Option Config
  pub made : ℕ
  pub current : Option ℕ
  pub ticking : Bool
  pub full : List ℕ
  pub loop : Loop
  pub cancelled : Bool

unfoldable pub new_ticking : Config → Ticking
new_ticking config = record {
  config = config;
  saved_config = none;
  made = 0;
  current = none;
  ticking = false;
  full = [];
  loop = absent;
  cancelled = false;
}

-- The goroutine begins with a check.
unfoldable pub start : Ticking → Ticking
start t =
    if not t.config.auto_update
    then t
    else record t { made = suc t.made; current = some t.made; ticking = true; loop = checking }

unfoldable pub stop : Ticking → Ticking
stop t = record t { cancelled = true; ticking = false }

-- The old ticker is stopped, and a new one made if updates are automatic; the file is
-- written, if it can be, as `saves` says. A tick that is in a channel stays there.
unfoldable pub set_config : Bool → Config → Ticking → Ticking
set_config saves config t =
    if config.auto_update
    then record t {
      config = config;
      saved_config = if saves then some config else t.saved_config;
      made = suc t.made;
      current = some t.made;
      ticking = true;
    }
    else record t {
      config = config;
      saved_config = if saves then some config else t.saved_config;
      ticking = false;
    }

-- What happens after `Start`, in any order: a call of SetConfig or Stop, a tick of the ticker that
-- runs, the end of a check, after which the goroutine reads `checkTicker` for its `select`, and a
-- `select` that receives a tick or the end of the context.
pub data Step (t : Ticking) : Ticking → Type 0 where
  configures : (saves : Bool) (config : Config) → Step t (set_config saves config t)
  stops : Step t (stop t)
  ticks : (k : ℕ) → t.current ≡ some k → t.ticking ≡ true → Step t (record t { full = k ∷ t.full })
  checked :
      (k : ℕ) → t.loop ≡ checking → t.current ≡ some k → Step t (record t { loop = waiting k })
  receives :
      (k : ℕ) (before after : List ℕ)
      → t.loop ≡ waiting k
      → t.full ≡ before ++ (k ∷ after)
      → Step t (record t { full = before ++ after; loop = checking })
  ends : (k : ℕ) → t.loop ≡ waiting k → t.cancelled ≡ true → Step t (record t { loop = ended })

pub data Reach (t : Ticking) : Ticking → Type 0 where
  here : Reach t t
  next : {u v : Ticking} → Reach t u → Step u v → Reach t v
