-- ===== src/Roles.antt =====
-- packages/server/src/auth/service.ts: the tests on roles and devices of `AuthService`. The
-- repository is a parameter: what `getMember` and `getDevice` answer. Accounts are not
-- modelled.
pub mod Tokens
pub mod Tests
use obsidian_baritone.Prelude.{
  ℕ, Bool, true, false, not, ◌&&◌, ◌||◌, ◌==◌, Option, none, some, List, JsString, if◌then◌else◌,
  str_eq, ltb, leb, all, length, Result, ok, err, any,
}
use obsidian_baritone.Protocol.{SyncError, ErrorCode, forbidden, bad_request, device_revoked}
use obsidian_baritone.Engine.Store.{Role, owner, editor, viewer}

-- What `getDevice` answers of a device.
pub record DeviceOwner : Type 0 where
  pub device_id : JsString
  pub user_id : JsString
  pub vault_id : JsString
  pub revoked : Bool

pub record AuthRepository : Type 0 where
  pub get_member : JsString → JsString → Option Role
  pub get_device : JsString → Option DeviceOwner

unfoldable pub role_rank : Role → ℕ
role_rank viewer = 1
role_rank editor = 2
role_rank owner = 3

unfoldable pub require_role : AuthRepository → JsString → JsString → Role → Result SyncError Role
require_role repo vault_id user_id minimum = elim (repo.get_member vault_id user_id) [
  | none ↦ err (record { code = forbidden; message = "No vault access"; details = none })
  | some role ↦
      if ltb (role_rank role) (role_rank minimum)
      then err (record { code = forbidden; message = "Insufficient role"; details = none })
      else ok role
]

-- The claims of an access token that `verifyDevice` reads.
pub record DeviceClaims : Type 0 where
  pub user_id : JsString
  pub vault_id : JsString
  pub device_id : JsString

unfoldable pub verify_device : AuthRepository → DeviceClaims → Result SyncError (Unit {0})
verify_device repo claims = elim (repo.get_device claims.device_id) [
  | none ↦ err (record { code = device_revoked; message = "Device is not valid"; details = none })
  | some device ↦
      if device.revoked
        || not (str_eq device.user_id claims.user_id)
        || not (str_eq device.vault_id claims.vault_id)
      then err (record { code = device_revoked; message = "Device is not valid"; details = none })
      else ok tt
]

-- The units of `[A-Za-z0-9_.-]`.
abbrev pub is_name_unit : ℕ → Bool
is_name_unit u =
    leb b'A' u && leb u b'Z'
    || leb b'a' u && leb u b'z'
    || leb b'0' u && leb u b'9'
    || (u == b'_')
    || (u == b'.')
    || (u == b'-')

unfoldable pub validate_username : JsString → Result SyncError (Unit {0})
validate_username username =
    if leb 3 (length username) && leb (length username) 64 && all is_name_unit username
    then ok tt
    else err (record {
      code = bad_request;
      message = "Username must be 3-64 chars: letters, digits, _, ., -";
      details = none;
    })
