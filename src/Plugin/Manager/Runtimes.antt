-- ===== src/Plugin/Manager/Runtimes.antt =====
-- The running plugins, and what stopping all of them leaves.
use runixo_agent.Prelude.{Bool, false, [], ◌∷◌, Text, ◌||◌, text_eq, Dict}
use runixo_agent.Plugin.Manager.{PluginRuntime, Manager}

abbrev has_key : Text → Dict PluginRuntime → Bool
has_key j [] = false
has_key j ((id, r) ∷ rs) = text_eq id j || has_key j rs
