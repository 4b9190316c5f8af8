-- ===== src/Entities/Setting.antt =====
-- src/app/entities/setting.py: one row of hierarchical configuration. Python's `None` as a value is
-- the JSON null.
use softbox_ai.Prelude.{
  ℕ, String, Option, List, [], ◌∷◌, Bool, false, not, ◌&&◌, ◌||◌, ◌==◌, leb, is_none, codes,
}
use softbox_ai.Errors.{Result, ok, guard, validation_error, ◌>>◌}
use softbox_ai.Ids.{Uuid, Instant}
use softbox_ai.Json.{Json}

pub data SettingScope : Type 0 where
  platform tenant category product : SettingScope

pub record Setting : Type 0 where
  pub id : Uuid
  pub tenant_id : Option Uuid
  pub scope_type : SettingScope
  pub scope_id : Option Uuid
  pub key : String
  pub value : Json
  pub created_at : Instant
  pub updated_at : Instant

-- What `str.strip` takes off: the code points of white space.
abbrev pub is_space : ℕ → Bool
is_space c =
    leb 9 c && leb c 13
    || leb 28 c && leb c 32
    || c == 0x85
    || c == 0xA0
    || c == 0x1680
    || leb 0x2000 c && leb c 0x200A
    || c == 0x2028
    || c == 0x2029
    || c == 0x202F
    || c == 0x205F
    || c == 0x3000

abbrev pub last_is_space : List ℕ → Bool
last_is_space [] = false
last_is_space (c ∷ []) = is_space c
last_is_space (c ∷ d ∷ cs) = last_is_space (d ∷ cs)

-- `not key or key.strip() != key`, negated.
abbrev pub is_trimmed : List ℕ → Bool
is_trimmed [] = false
is_trimmed (c ∷ cs) = not (is_space c) && not (last_is_space (c ∷ cs))

-- What the scope fixes of the two ids.
abbrev pub fits_scope : SettingScope → Option Uuid → Option Uuid → Bool
fits_scope platform t s = is_none t && is_none s
fits_scope tenant t s = not (is_none t) && is_none s
fits_scope category t s = not (is_none t) && not (is_none s)
fits_scope product t s = not (is_none t) && not (is_none s)

abbrev pub scope_message : SettingScope → String
scope_message platform = "A platform-scoped setting has no tenant or scope id."
scope_message tenant = "A tenant-scoped setting has a tenant id and no scope id."
scope_message _ = "A category- or product-scoped setting has both a tenant id and a scope id."

-- `new_id` is what `new_setting_id()` draws.
unfoldable pub create :
    (new_id : Uuid) (scope_type : SettingScope) (tenant_id scope_id : Option Uuid) (key : String)
    (value : Json) (now : Instant)
    → Result Setting
create new_id scope tenant_id scope_id key value now = do
  guard (is_trimmed (codes key))
      (validation_error "Setting key must be a non-empty string with no surrounding whitespace.")
  guard (fits_scope scope tenant_id scope_id) (validation_error (scope_message scope))
  ok (record {
    id = new_id;
    tenant_id = tenant_id;
    scope_type = scope;
    scope_id = scope_id;
    key = key;
    value = value;
    created_at = now;
    updated_at = now;
  })
