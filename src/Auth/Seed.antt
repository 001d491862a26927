-- ===== src/Auth/Seed.antt =====
-- internal/auth/service.go: the first administrator.
use sudostream.Prelude.{done, length, ltb, if◌then◌else◌}
use sudostream.Auth.Admin.{Outside, OnAccounts, checked, new_user, hashed}
use sudostream.Auth.Store.{
  Accounts, role_admin, insert_user, get_user_by_email, update_user_row, enabled_user, User,
}
use sudostream.Text.{Bytes}

-- SeedAdmin, with the id that the database draws.
abbrev pub seeded : User → Accounts → OnAccounts (Unit {0})
seeded created db = (done tt, update_user_row created.id enabled_user db)

abbrev pub seed_on_empty : Outside → Bytes → Bytes → Bytes → Accounts → OnAccounts (Unit {0})
seed_on_empty o id email password db = checked (hashed (o.bcrypt password)) db λ hash.
    checked (insert_user (new_user id email role_admin hash) db) db
      λ added. checked (get_user_by_email email added) added λ created. seeded created added

unfoldable pub seed_admin : Outside → Bytes → Bytes → Bytes → Accounts → OnAccounts (Unit {0})
seed_admin o id email password db =
    if ltb 0 (length db.users) then (done tt, db) else seed_on_empty o id email password db
