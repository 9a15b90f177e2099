-- ===== src/Updater/Ticker/Silence.antt =====
-- SetConfig of internal/updater/updater.go while the goroutine waits: it waits on a ticker that is
-- stopped.
use mathlib.Core.Path.{subst}
use runixo_agent.Prelude.{
  ℕ, ◌<◌, ◌≡◌, ◌≢◌, ◌⊎◌, inl, inr, refl, sym, ◌∙◌, Bool, true, false, some, List, ◌∷◌, ◌++◌, All,
  All-append, Bool-cases, some-injective, arith,
}
use runixo_agent.Updater.{Config}
use runixo_agent.Updater.Ticker.{
  Loop, checking, waiting, ended, Ticking, new_ticking, start, stop, set_config, Step, configures,
  stops, ticks, checked, receives, ends, Reach, here, next,
}

-- The numbers of tickers are those of tickers that were made.
record IsNumbered (t : Ticking) : Type 0 where
  of_current : (k : ℕ) → t.current ≡ some k → k < t.made
  of_loop : (k : ℕ) → t.loop ≡ waiting k → k < t.made

-- The goroutine waits on an empty channel of a ticker that does not tick any more, or has ended.
record IsSilent (k : ℕ) (t : Ticking) : Type 0 where
  waits : (t.loop ≡ waiting k) ⊎ (t.loop ≡ ended)
  older : k < t.made
  unread : All (λ j. j ≢ k) t.full
  replaced : (t.ticking ≡ false) ⊎ ((j : ℕ) → t.current ≡ some j → j ≢ k)

waiting-injective : {k j : ℕ} → waiting k ≡ waiting j → k ≡ j
waiting-injective h = cc

off_on : {b : Bool} → b ≡ false → b ≡ true → ⊥
off_on off on = cc

not_checking : {l : Loop} {k : ℕ} → l ≡ checking → (l ≡ waiting k) ⊎ (l ≡ ended) → ⊥
not_checking c (inl w) = cc
not_checking c (inr e) = cc

set_config-IsNumbered :
    (b : Bool) (c : Config) (t : Ticking) → IsNumbered t → IsNumbered (set_config b c t)
unfolding set_config
set_config-IsNumbered b c t h = elim (Bool-cases c.auto_update) [
  | inl e ↦ rw e (record {
    of_current = λ k same. ground (arith, some-injective same);
    of_loop = λ k w. ground (arith, h.of_loop k w);
  })
  | inr e ↦ rw e (record { of_current = h.of_current; of_loop = h.of_loop })
]

Step-IsNumbered : {t u : Ticking} → Step t u → IsNumbered t → IsNumbered u
unfolding stop
Step-IsNumbered {t} (configures b c) h = set_config-IsNumbered b c t h
Step-IsNumbered stops h = record { of_current = h.of_current; of_loop = h.of_loop }
Step-IsNumbered (ticks k c on) h = record { of_current = h.of_current; of_loop = h.of_loop }
Step-IsNumbered {t} (checked k l c) h = record {
  of_current = h.of_current;
  of_loop = λ j w. subst (λ i. i < t.made) (waiting-injective w) (h.of_current k c);
}
Step-IsNumbered (receives k before after l f) h = record {
  of_current = h.of_current;
  of_loop = λ j w. absurd cc;
}
Step-IsNumbered (ends k l c) h = record { of_current = h.of_current; of_loop = λ j w. absurd cc }

Reach-IsNumbered : {t u : Ticking} → Reach t u → IsNumbered t → IsNumbered u
Reach-IsNumbered here h = h
Reach-IsNumbered (next r s) h = Step-IsNumbered s (Reach-IsNumbered r h)

start-IsNumbered : (c : Config) → IsNumbered (start (new_ticking c))
unfolding start new_ticking
start-IsNumbered c = elim (Bool-cases c.auto_update) [
  | inl e ↦ rw e (record {
    of_current = λ k same. ground (arith, some-injective same);
    of_loop = λ k w. absurd cc;
  })
  | inr e ↦ rw e (record { of_current = λ k same. absurd cc; of_loop = λ k w. absurd cc })
]

set_config-IsSilent :
    (b : Bool) (c : Config) (t : Ticking) (k : ℕ)
    → (t.loop ≡ waiting k) ⊎ (t.loop ≡ ended)
    → k < t.made
    → All (λ j. j ≢ k) t.full
    → IsSilent k (set_config b c t)
unfolding set_config
set_config-IsSilent b c t k w o u = elim (Bool-cases c.auto_update) [
  | inl e ↦ rw e (record {
    waits = w;
    older = omega arith;
    unread = u;
    replaced = inr (λ j same h. ground (arith, some-injective same));
  })
  | inr e ↦ rw e (record { waits = w; older = o; unread = u; replaced = inl refl })
]

nothing_to_read :
    {t : Ticking} (k j : ℕ) (before after : List ℕ)
    → IsSilent k t
    → t.loop ≡ waiting j
    → t.full ≡ before ++ (j ∷ after)
    → ⊥
nothing_to_read k j before after h l f = elim h.waits [
  | inl w ↦ others.1.0 (waiting-injective (sym l ∙ w))
  | inr e ↦ not_waiting (sym l ∙ e)
]
  where
    others : All (λ i. i ≢ k) before × All (λ i. i ≢ k) (j ∷ after)
    others = (All-append (λ i. i ≢ k) before (j ∷ after)).0 (subst (All (λ i. i ≢ k)) f h.unread)

    not_waiting : waiting j ≡ ended → ⊥
    not_waiting h = cc

Step-IsSilent : {t u : Ticking} (k : ℕ) → Step t u → IsSilent k t → IsSilent k u
unfolding stop
Step-IsSilent {t} k (configures b c) h = set_config-IsSilent b c t k h.waits h.older h.unread
Step-IsSilent k stops h = record {
  waits = h.waits;
  older = h.older;
  unread = h.unread;
  replaced = inl refl;
}
Step-IsSilent k (ticks j c on) h = record {
  waits = h.waits;
  older = h.older;
  unread = (elim h.replaced [ inl off ↦ absurd (off_on off on) | inr ne ↦ ne j c ], h.unread);
  replaced = h.replaced;
}
Step-IsSilent k (checked j l c) h = absurd (not_checking l h.waits)
Step-IsSilent k (receives j before after l f) h = absurd (nothing_to_read k j before after h l f)
Step-IsSilent k (ends j l c) h = record {
  waits = inr refl;
  older = h.older;
  unread = h.unread;
  replaced = h.replaced;
}

Reach-IsSilent : {t u : Ticking} (k : ℕ) → Reach t u → IsSilent k t → IsSilent k u
Reach-IsSilent k here h = h
Reach-IsSilent k (next r s) h = Step-IsSilent k s (Reach-IsSilent k r h)

-- Whatever has happened since the start, if a configuration is set while the goroutine waits and no
-- tick is in the channel it waits on, it never checks again: whatever is set after that and however
-- the tickers tick, it goes on to wait on the stopped ticker, until its end.
pub set_config_ends_checks :
    (first config : Config) (saves : Bool) {t u : Ticking} (k : ℕ)
    → Reach (start (new_ticking first)) t
    → t.loop ≡ waiting k
    → All (λ j. j ≢ k) t.full
    → Reach (set_config saves config t) u
    → (u.loop ≡ waiting k) ⊎ (u.loop ≡ ended)
set_config_ends_checks first config saves {t} k r w empty later =
    (Reach-IsSilent k later (
      set_config-IsSilent saves config t k (inl w)
        ((Reach-IsNumbered r (start-IsNumbered first)).of_loop k w) empty)).waits
