-- ===== src/Trash/Purge.antt =====
-- internal/trash/service.go and autopurge.go: emptying the recycle bin, purging what has expired,
-- and the settings that say when it does.
pub mod Laws
pub mod Expired
use sudostream.Prelude.{
  ℕ, ℕ, ℕ, ℕ, ℕ, ℕ, ℕ, ℕ, ℕ, ℕ, ℕ, ℕ, ℕ, ℕ, or_zero, true, ◌/◌, fail, not, ◌+◌, ◌>>=◌, some, done,
  ◌||◌, ltb, ◌*◌, if◌then◌else◌, List, Option, Fallible, false, Bool, ℤ, ℕ, [], ◌∷◌, none, pos,
  negsuc,
}
use sudostream.MediaFs.{Service}
use sudostream.Text.{Bytes}
use sudostream.Trash.{Codecs, World, list, delete_forever}
use sudostream.Trash.Store.{Item, TrashError, invalid_retention, settings_unavailable}

abbrev pub day : ℕ
day = 86400 * 1000000000

abbrev pub default_retention_days : ℤ
default_retention_days = pos 1

abbrev pub max_retention_days : ℕ
max_retention_days = 36500

-- Settings
pub record Settings : Type 0 where
  pub enabled : Bool
  pub retention_days : ℤ

-- DefaultSettings
abbrev pub default_settings : Settings
default_settings = record { enabled = false; retention_days = default_retention_days }

abbrev below_one : ℤ → Bool
below_one (pos n) = ltb n 1
below_one (negsuc n) = true

-- NormalizeSettings
unfoldable pub normalize_settings : Settings → Fallible TrashError Settings
normalize_settings settings =
    if below_one settings.retention_days || ltb max_retention_days (or_zero settings.retention_days)
    then fail invalid_retention
    else done settings

-- GetSettings: the value under the key, where there is a store, it has one, and it decodes.
abbrev floored : Settings → Settings
floored settings = record settings {
  retention_days =
      if below_one settings.retention_days then default_retention_days else settings.retention_days;
}

abbrev read_settings : Option Settings → Fallible TrashError Settings
read_settings none = done default_settings
read_settings (some settings) = normalize_settings (floored settings)

abbrev decoded_settings : (Bytes → Option Settings) → Option Bytes → Option Settings
decoded_settings decode none = none
decoded_settings decode (some raw) = decode raw

unfoldable pub get_settings :
    (Bytes → Option Settings) → Option Bytes → Fallible TrashError Settings
unfolding normalize_settings
get_settings decode value = read_settings (decoded_settings decode value)

-- SaveSettings: what is returned, and the value that is then stored.
unfoldable pub save_settings :
    (Settings → Bytes) → Settings → Fallible TrashError (Settings × Bytes)
unfolding normalize_settings
save_settings encode settings =
    normalize_settings settings >>= λ normalized. done (normalized, encode normalized)

-- The count of items deleted, with the error that ended the loop, if one did.
abbrev pub Count : Type 0
Count = ℕ × Option TrashError

abbrev pub expires_at : ℕ → Item → ℕ
expires_at days item = item.deleted_at + days * day

abbrev pub is_expired : ℕ → ℕ → Item → Bool
is_expired now days item = not (ltb now (expires_at days item))

module _ (c : Codecs) (s : Service) where
  -- One pass of the loops of EmptyAll and PurgeExpired: go on only where the deletion succeeds.
  abbrev pub counted :
      ℕ → Fallible TrashError (Unit {0}) × World → (World → Count × World) → Count × World
  counted n (fail e, w) next = ((n, some e), w)
  counted n (done u, w) next = next w

  unfoldable pub empty_items : List Item → ℕ → World → Count × World
  empty_items [] n w = ((n, none), w)
  empty_items (item ∷ items) n w =
      counted n (delete_forever c s item.id w) (empty_items items (n + 1))

  unfoldable pub purge_items : ℕ → ℕ → List Item → ℕ → World → Count × World
  purge_items now days [] n w = ((n, none), w)
  purge_items now days (item ∷ items) n w =
      let rest = purge_items now days items n w in
      if is_expired now days item
      then counted n (delete_forever c s item.id w) (purge_items now days items (n + 1))
      else rest

  abbrev pub over_list :
      Fallible TrashError (List Item) × World → (List Item → World → Count × World) → Count × World
  over_list (fail e, w) next = ((0, some e), w)
  over_list (done items, w) next = next items w

  -- EmptyAll
  unfoldable pub empty_all : ℕ → World → Count × World
  unfolding empty_items
  empty_all now w = over_list (list c s now w) λ items w'. empty_items items 0 w'

  abbrev pub purge_by : ℕ → World → Fallible TrashError Settings → Count × World
  purge_by now w (fail e) = ((0, some e), w)
  purge_by now w (done settings) =
      if settings.enabled
      then (over_list (list c s now w)
          λ items w'. purge_items now (or_zero settings.retention_days) items 0 w')
      else ((0, none), w)

  -- PurgeExpired, with the value of the settings that the store holds.
  unfoldable pub purge_expired :
      (Bytes → Option Settings) → Option Bytes → ℕ → World → Count × World
  unfolding get_settings purge_items
  purge_expired decode value now w = purge_by now w (get_settings decode value)

-- nextUTCMidnight, of a time after 1970.
unfoldable pub next_utc_midnight : ℕ → ℕ
next_utc_midnight now = (now / day + 1) * day
