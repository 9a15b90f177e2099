-- ===== src/Auth/Session.antt =====
-- The session manager of internal/auth/auth.go.
use runixo_agent.Prelude.{
  ℕ, Option, none, some, Text, Dict, lookup, insert, delete, length, [], ◌≡◌, ◌≢◌, refl,
  lookup-insert_ne, text_eq_ne, lookup-insert_self, lookup-delete, text_eq_refl,
}

pub record SessionInfo : Type 0 where
  pub token : Text
  pub client_ip : Text
  pub created_at : ℕ
  pub last_used : ℕ

pub record SessionManager : Type 0 where
  pub sessions : Dict SessionInfo

unfoldable pub new_session_manager : SessionManager
new_session_manager = record { sessions = [] }

unfoldable pub create_session : ℕ → Text → Text → SessionManager → SessionManager × SessionInfo
create_session now token client_ip sm =
    let session : SessionInfo = record {
      token = token;
      client_ip = client_ip;
      created_at = now;
      last_used = now;
    } in
    (record { sessions = insert token session sm.sessions }, session)

-- The session's time of use is written through the map's pointer.
unfoldable pub validate_session : ℕ → Text → SessionManager → SessionManager × Option SessionInfo
validate_session now token sm = elim (lookup token sm.sessions) [
  | none ↦ (sm, none)
  | some session ↦
      let used = record session { last_used = now } in
      (record { sessions = insert token used sm.sessions }, some used)
]

unfoldable pub revoke_session : Text → SessionManager → SessionManager
revoke_session token sm = record { sessions = delete token sm.sessions }

unfoldable pub revoke_all_sessions : SessionManager → SessionManager
revoke_all_sessions sm = record { sessions = [] }

unfoldable pub get_active_sessions : SessionManager → ℕ
get_active_sessions sm = length sm.sessions

unfoldable pub get_session_info : Text → SessionManager → Option SessionInfo
get_session_info token sm = lookup token sm.sessions

validate_known :
    (now : ℕ) (token : Text) (sm : SessionManager) (session : SessionInfo)
    → lookup token sm.sessions ≡ some session
    → validate_session now token sm ≡ (
      record { sessions = insert token (record session { last_used = now }) sm.sessions },
      some (record session { last_used = now }),
    )
unfolding validate_session
validate_known now token sm session e = rw (e, validate_session)

validate_unknown :
    (now : ℕ) (token : Text) (sm : SessionManager)
    → lookup token sm.sessions ≡ none
    → (validate_session now token sm).1 ≡ none
unfolding validate_session
validate_unknown now token sm e = rw (e, validate_session)

-- A created session validates, with its time of use set to the time of the check; a revoked one no
-- longer does. Neither touches another token's session, and revoking all leaves none.
session_lifecycle :
    (now later : ℕ) (token client_ip other : Text) (sm : SessionManager)
    → token ≢ other
    → let (created, session) = create_session now token client_ip sm in
      let (used, found) = validate_session later token created in
      (found ≡ some (record session { last_used = later }))
      × ((validate_session later token (revoke_session token used)).1 ≡ none)
      × (get_session_info other (revoke_session token used) ≡ get_session_info other sm)
      × ((validate_session later other (revoke_all_sessions used)).1 ≡ none)
unfolding create_session revoke_session revoke_all_sessions get_session_info
session_lifecycle now later token client_ip other sm ne =
    let session : SessionInfo = record {
      token = token;
      client_ip = client_ip;
      created_at = now;
      last_used = now;
    } in
    rw
      (validate_known later token (record { sessions = insert token session sm.sessions }) session
        (lookup-insert_self token session sm.sessions))
      (
        refl,
        validate_unknown later token _ (rw (lookup-delete, text_eq_refl)),
        rw (lookup-delete, text_eq_ne token other ne)
            (rw (lookup-insert_ne token other _ _ ne) (lookup-insert_ne token other _ _ ne)),
        validate_unknown later other _ (unfold lookup in refl),
      )
