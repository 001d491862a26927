-- ===== src/Auth/Roles.antt =====
-- internal/auth/roles.go: the roles of accounts.
use sudostream.Auth.Store.{invalid_role, AuthError, role_admin}
use sudostream.Text.{is_empty, bytes_eq, codes, Bytes}
use sudostream.Prelude.{fail, done, if◌then◌else◌, ◌||◌, Fallible, not, Bool}

abbrev pub role_user : Bytes
role_user = codes "user"

abbrev pub role_tv : Bytes
role_tv = codes "tv"

-- ValidRole
unfoldable pub valid_role : Bytes → Bool
valid_role role = bytes_eq role role_admin || bytes_eq role role_user || bytes_eq role role_tv

-- AllowsWebLogin
unfoldable pub allows_web_login : Bytes → Bool
allows_web_login role = not (bytes_eq role role_tv)

-- NormalizeRole
unfoldable pub normalize_role : Bytes → Fallible AuthError Bytes
unfolding valid_role
normalize_role role =
    if is_empty role
    then done role_user
    else if valid_role role
    then done role
    else fail invalid_role
