-- ===== src/Auth/Sessions.antt =====
-- internal/auth/sessions.go: the sessions of an account, listed and revoked.
mod Own
use sudostream.Prelude.{
  none, ◌&&◌, done, [], some, if◌then◌else◌, map, not, first, fail, sort_by, leb, keep, Fallible,
  Option, List, Bool, ℕ,
}
use sudostream.Auth.Admin.{OnAccounts, checked}
use sudostream.Auth.Store.{
  Accounts, AuthError, Session, delete_all_sessions, forbidden, session_missing,
}
use sudostream.Text.{is_empty, bytes_eq, Bytes}

-- SessionView
pub record SessionView : Type 0 where
  pub id : Bytes
  pub ip : Bytes
  pub user_agent : Bytes
  pub created_at : ℕ
  pub expires_at : ℕ
  pub current : Bool

-- Store.ListSessionsByUserID
abbrev pub of_user : Bytes → Session → Bool
of_user user_id session = bytes_eq session.user_id user_id

abbrev newer : Session → Session → Bool
newer a b = leb b.created_at a.created_at

unfoldable pub list_sessions_by_user_id : Bytes → Accounts → List Session
list_sessions_by_user_id user_id db = sort_by newer (keep (of_user user_id) db.sessions)

-- Store.GetSessionByID
abbrev pub session_has_id : Bytes → Session → Bool
session_has_id id session = bytes_eq session.id id

abbrev or_session_missing : Option Session → Fallible AuthError Session
or_session_missing none = fail session_missing
or_session_missing (some session) = done session

unfoldable pub get_session_by_id : Bytes → Accounts → Fallible AuthError Session
get_session_by_id id db = or_session_missing (first (session_has_id id) db.sessions)

-- Store.DeleteSessionByID
unfoldable pub delete_session_by_id : Bytes → Accounts → Accounts
delete_session_by_id id db = record db {
  sessions = keep (λ session. not (session_has_id id session)) db.sessions;
}

-- ListUserSessions
abbrev is_current : Bytes → Session → Bool
is_current current session = not (is_empty current) && bytes_eq session.id current

abbrev view : Bytes → Session → SessionView
view current session = record {
  id = session.id;
  ip = session.ip;
  user_agent = session.user_agent;
  created_at = session.created_at;
  expires_at = session.expires_at;
  current = is_current current session;
}

abbrev pub is_live : ℕ → Session → Bool
is_live now session = leb now session.expires_at

unfoldable pub list_user_sessions : ℕ → Bytes → Bytes → Accounts → List SessionView
unfolding list_sessions_by_user_id
list_user_sessions now user_id current db =
    map (view current) (keep (is_live now) (list_sessions_by_user_id user_id db))

-- AdminListUserSessions
unfoldable pub admin_list_user_sessions : ℕ → Bytes → Accounts → List SessionView
unfolding list_sessions_by_user_id
admin_list_user_sessions now user_id db =
    map (view []) (keep (is_live now) (list_sessions_by_user_id user_id db))

-- RevokeUserSession
unfoldable pub revoke_user_session : Bytes → Bytes → Bytes → Accounts → OnAccounts Bool
revoke_user_session user_id session_id current db =
    checked (get_session_by_id session_id db) db λ session.
      if not (of_user user_id session)
      then (fail forbidden, db)
      else (done (is_current current session), delete_session_by_id session_id db)

-- AdminRevokeSession
unfoldable pub admin_revoke_session : Bytes → Accounts → Accounts
admin_revoke_session session_id db = delete_session_by_id session_id db

-- RevokeAllUserSessions and AdminRevokeAllSessions
unfoldable pub revoke_all_user_sessions : Bytes → Accounts → Accounts
revoke_all_user_sessions user_id db = delete_all_sessions user_id db
