-- ===== src/Cloudflare/Threat.antt =====
-- The threats that internal/cloudflare/detector.go reports and the rest of the package reads.
use runixo_agent.Prelude.{ℕ, Text}
use runixo_agent.Prelude.Int.{ℤ}

-- The type of a threat is a string of the source's, such as "brute_force"; times are nanoseconds.
pub record Threat : Type 0 where
  pub id : Text
  pub ip : Text
  pub threat_type : Text
  pub score : ℤ
  pub description : Text
  pub source : Text
  pub line : Text
  pub timestamp : ℕ
  pub count : ℤ
