-- ===== src/Entities/SocialAccount.antt =====
-- src/app/entities/social_account.py: a connected channel account.
use softbox_ai.Prelude.{ℕ, String, Option, none, some, List, []}
use softbox_ai.Ids.{Uuid, Instant}

pub data SocialAccountStatus : Type 0 where
  connected : SocialAccountStatus

pub record SocialAccount : Type 0 where
  pub id : Uuid
  pub tenant_id : Uuid
  pub provider : String
  pub external_account_id : String
  pub display_name : String
  pub credentials_encrypted : Option (List ℕ)
  pub encryption_key_id : Option String
  pub scopes : List String
  pub access_expires_at : Option Instant
  pub refresh_expires_at : Option Instant
  pub status : SocialAccountStatus
  pub last_error : Option String
  pub created_at : Instant
  pub updated_at : Instant

abbrev or_empty : Option (List String) → List String
or_empty none = []
or_empty (some scopes) = scopes

-- `new_id` is what `new_social_account_id()` draws.
unfoldable pub create :
    (new_id tenant_id : Uuid) (provider external_account_id display_name : String)
    (scopes : Option (List String)) (now : Instant)
    → SocialAccount
create new_id tenant provider account name scopes now = record {
  id = new_id;
  tenant_id = tenant;
  provider = provider;
  external_account_id = account;
  display_name = name;
  credentials_encrypted = none;
  encryption_key_id = none;
  scopes = or_empty scopes;
  access_expires_at = none;
  refresh_expires_at = none;
  status = connected;
  last_error = none;
  created_at = now;
  updated_at = now;
}
