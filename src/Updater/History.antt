-- ===== src/Updater/History.antt =====
-- The history of updates keeps the last fifty records.
use mathlib.Core.Path.{subst}
use runixo_agent.Prelude.{
  ℕ, ◌≤◌, ◌≡◌, ◌⊎◌, inl, inr, Bool, true, false, if◌then◌else◌, refl, sym, ap, ◌∙◌, Option, List,
  [], ◌∷◌, ◌++◌, Text, length, last_of, last_of-append, last_of_few, length-last_of-le,
  append_assoc, append_nil,
}
use runixo_agent.Prelude.Clock.{unix_seconds}
use runixo_agent.Updater.{UpdateError, UpdateRecord, Updater, keep_last, World, record_update}

-- An update that was recorded: when, which version, and how it ended.
abbrev pub Update : Type 0
Update = ℕ × Text × Option UpdateError

abbrev pub record_of : Text → Update → UpdateRecord
record_of from (now, version, error) = record {
  version = version;
  from_version = from;
  timestamp = unix_seconds now;
  error = error;
}

unfoldable pub records_of : Text → List Update → List UpdateRecord
records_of from [] = []
records_of from (u ∷ us) = record_of from u ∷ records_of from us

unfoldable pub record_all : World → List Update → Updater → Updater
record_all w [] u = u
record_all w ((now, version, error) ∷ us) u = record_all w us (record_update w now version error u)

keep_last_lem : (h : List UpdateRecord) → keep_last h ≡ last_of 50 h
unfolding keep_last
keep_last_lem h = last_of_few 50 h

record_all_from :
    (w : World) (us : List Update) (u : Updater) (h : List UpdateRecord)
    → u.history ≡ last_of 50 h
    → (record_all w us u).history ≡ last_of 50 (h ++ records_of u.current_version us)
unfolding record_all records_of record_update
record_all_from w [] u h e = e ∙ ap (last_of 50) (sym (append_nil h))
record_all_from w ((now, version, error) ∷ us) u h e =
    record_all_from w us (record_update w now version error u)
      (h ++ (record_of u.current_version (now, version, error) ∷ [])) step
    ∙ ap (last_of 50) (
        append_assoc h (record_of u.current_version (now, version, error) ∷ [])
          (records_of u.current_version us))
  where
    last : List UpdateRecord
    last = record_of u.current_version (now, version, error) ∷ []

    step : keep_last (u.history ++ last) ≡ last_of 50 (h ++ last)
    step =
        keep_last_lem (u.history ++ last)
        ∙ (ap (λ l. last_of 50 (l ++ last)) e ∙ last_of-append 50 h last)

-- After any updates, the first of them whatever the history was, the history is the last fifty
-- records of the earlier history followed by one record for each update in their order, it has
-- fifty records at most, and the file holds the same unless it could not be written then.
pub record_all_lem :
    (w : World) (first : Update) (us : List Update) (u : Updater)
    → let u' = record_all w (first ∷ us) u in
      (u'.history ≡ last_of 50 (u.history ++ records_of u.current_version (first ∷ us)))
      × (length u'.history ≤ 50)
      × ((u'.saved_history ≡ u'.history) ⊎ (w.saves_history u'.history ≡ false))
unfolding record_all records_of record_update
record_all_lem w (now, version, error) us u = (
  kept,
  bound,
  saved us (record_update w now version error u)
      (saved_once (w.saves_history _) _ u.saved_history refl),
)
  where
    last : List UpdateRecord
    last = record_of u.current_version (now, version, error) ∷ []

    u' : Updater
    u' = record_all w us (record_update w now version error u)

    kept :
        u'.history
        ≡ last_of 50 (
            u.history
            ++ (record_of u.current_version (now, version, error)
                ∷ records_of u.current_version us))
    kept =
        record_all_from w us (record_update w now version error u) (u.history ++ last)
          (keep_last_lem (u.history ++ last))
        ∙ ap (last_of 50) (append_assoc u.history last (records_of u.current_version us))

    bound : length u'.history ≤ 50
    bound =
        subst (λ h. length h ≤ 50) (sym kept)
          (length-last_of-le 50 (
            u.history
            ++ (record_of u.current_version (now, version, error)
                ∷ records_of u.current_version us)))

    Saved : Updater → Type 0
    Saved v = (v.saved_history ≡ v.history) ⊎ (w.saves_history v.history ≡ false)

    saved_once :
        (b : Bool) (h before : List UpdateRecord)
        → w.saves_history h ≡ b
        → ((if b then h else before) ≡ h) ⊎ (w.saves_history h ≡ false)
    saved_once true h before e = inl refl
    saved_once false h before e = inr e

    saved : (us : List Update) (v : Updater) → Saved v → Saved (record_all w us v)
    saved [] v e = e
    saved ((now, version, error) ∷ us) v e =
        saved us (record_update w now version error v)
          (saved_once (w.saves_history _) _ v.saved_history refl)
