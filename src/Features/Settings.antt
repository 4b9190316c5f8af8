-- ===== src/Features/Settings.antt =====
-- src/app/features/settings/upsert_setting.py; resolve_setting.py is the resolver in a transaction of
-- its own.
pub mod RoundTrip
use softbox_ai.Prelude.{String, Option, none, some, List, [], ◌∷◌, ◌++◌, ◌==◌, map, if◌then◌else◌}
use softbox_ai.Ids.{Uuid, Instant}
use softbox_ai.Json.{Json}
use softbox_ai.Entities.Setting.{Setting, SettingScope, create}
use softbox_ai.Services.SettingsResolver
use softbox_ai.Services.SettingsResolver.{resolve}
use softbox_ai.UnitOfWork.{Tx, pure, lift, gets, modify, ◌>>=◌, ◌>>◌}

-- The flush of a mutated row.
abbrev pub save_setting : Setting → List Setting → List Setting
save_setting s rows = map (λ r. if r.id == s.id then s else r) rows

unfoldable pub write_setting :
    Uuid
    → Option Uuid
    → SettingScope
    → Option Uuid
    → String
    → Json
    → Instant
    → Option Setting
    → Tx Setting
unfolding create
write_setting new_id t scope scope_id key value now none = do
  setting ← lift (create new_id scope t scope_id key value now)
  modify (λ db. record db { settings = db.settings ++ setting ∷ [] })
  pure setting
write_setting new_id t scope scope_id key value now (some existing) = do
  let setting = record existing { value = value; updated_at = now }
  modify (λ db. record db { settings = save_setting setting db.settings })
  pure setting

unfoldable pub upsert_setting :
    Uuid → Option Uuid → SettingScope → Option Uuid → String → Json → Instant → Tx Setting
unfolding write_setting
upsert_setting new_id t scope scope_id key value now = do
  existing ← gets (λ db. SettingsResolver.get t scope scope_id key db.settings)
  write_setting new_id t scope scope_id key value now existing

unfoldable pub resolve_setting : Uuid → String → Option Uuid → Option Uuid → Tx Json
unfolding resolve
resolve_setting t key category_id product_id = resolve t key category_id product_id
