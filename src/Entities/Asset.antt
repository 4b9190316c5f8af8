-- ===== src/Entities/Asset.antt =====
-- src/app/entities/asset.py: a stored image. The digest is kept as the code points of its text.
use softbox_ai.Prelude.{
  ℕ, ◌+◌, String, Option, List, Bool, true, false, not, ◌&&◌, ◌||◌, ◌==◌, leb, ltb, any, map,
  length, if◌then◌else◌,
}
use softbox_ai.Errors.{Result, ok, guard, validation_error, ◌>>◌}
use softbox_ai.Ids.{Uuid, Instant}
use softbox_ai.Json.{JsonDict}

pub data AssetKind : Type 0 where
  template input generated derivative : AssetKind

abbrev pub same_kind : AssetKind → AssetKind → Bool
same_kind template template = true
same_kind input input = true
same_kind generated generated = true
same_kind derivative derivative = true
same_kind _ _ = false

pub record Asset : Type 0 where
  pub id : Uuid
  pub tenant_id : Uuid
  pub storage_key : String
  pub sha256 : List ℕ
  pub mime : String
  pub width : ℕ
  pub height : ℕ
  pub bytes : ℕ
  pub kind : AssetKind
  pub source : String
  pub parent_asset_id : Option Uuid
  pub meta : JsonDict
  pub uploaded_by : Option Uuid
  pub created_at : Instant

-- `str.lower` on ASCII; no other character becomes a hexadecimal digit by it.
abbrev pub lower : List ℕ → List ℕ
lower cs = map (λ c. if leb b'A' c && leb c b'Z' then c + 32 else c) cs

abbrev pub is_hex : ℕ → Bool
is_hex c = leb b'0' c && leb c b'9' || leb b'a' c && leb c b'f'

-- `new_id` is what `new_asset_id()` draws.
unfoldable pub create :
    (new_id tenant_id : Uuid) (storage_key : String) (sha256 : List ℕ) (mime : String)
    (width height bytes : ℕ) (kind : AssetKind) (source : String) (now : Instant)
    (parent_asset_id : Option Uuid) (meta : JsonDict) (uploaded_by : Option Uuid)
    → Result Asset
create new_id tenant storage_key sha256 mime width height bytes kind source now parent meta user =
    do
      guard (length (lower sha256) == 64 && not (any (λ c. not (is_hex c)) (lower sha256)))
          (validation_error "sha256 must be 64 hex characters")
      guard (ltb 0 width && ltb 0 height) (validation_error "width and height must be positive")
      guard (ltb 0 bytes) (validation_error "bytes must be positive")
      ok (record {
        id = new_id;
        tenant_id = tenant;
        storage_key = storage_key;
        sha256 = lower sha256;
        mime = mime;
        width = width;
        height = height;
        bytes = bytes;
        kind = kind;
        source = source;
        parent_asset_id = parent;
        meta = meta;
        uploaded_by = user;
        created_at = now;
      })
