-- ===== src/Roles/Tokens.antt =====
-- packages/server/src/auth/tokens.ts, auth/pg-repository.ts and auth/service.ts: refresh tokens. The
-- table of tokens is a list of rows; the hash and the signature of access tokens are parameters.
use obsidian_baritone.Prelude.{
  ℕ, ◌+◌, Bool, true, false, not, ◌&&◌, ◌||◌, Option, none, some, List, [], ◌∷◌, ◌++◌, JsString,
  String, lit, if◌then◌else◌, str_eq, ltb, leb, map, find, Result, ok, err,
}
use obsidian_baritone.Protocol.{SyncError, ErrorCode, unauthenticated, forbidden, device_revoked}
use obsidian_baritone.Engine.Store.{Role}
use obsidian_baritone.Roles.{AuthRepository}
pub mod Once
pub mod Tests

pub record AccessClaims : Type 0 where
  pub user_id : JsString
  pub device_id : JsString
  pub vault_id : JsString
  pub role : Role

pub record RefreshTokenRecord : Type 0 where
  pub token_id : JsString
  pub user_id : JsString
  pub device_id : JsString
  pub refresh_hash : JsString
  pub expires_at : ℕ
  pub revoked : Bool
  pub replaced_by : Option JsString

unfoldable pub get_refresh_token_by_hash :
    JsString → List RefreshTokenRecord → Option RefreshTokenRecord
get_refresh_token_by_hash hash rows = find (λ row. str_eq row.refresh_hash hash) rows

-- The condition of the `UPDATE`.
abbrev pub is_live : ℕ → JsString → RefreshTokenRecord → Bool
is_live now hash row = str_eq row.refresh_hash hash && not row.revoked && ltb now row.expires_at

abbrev pub revoked_for : RefreshTokenRecord → RefreshTokenRecord → RefreshTokenRecord
revoked_for next row = record row { revoked = true; replaced_by = some next.token_id }

abbrev pub update_row : ℕ → JsString → RefreshTokenRecord → RefreshTokenRecord → RefreshTokenRecord
update_row now hash next row = if is_live now hash row then revoked_for next row else row

unfoldable pub replace_refresh_token :
    ℕ
    → JsString
    → RefreshTokenRecord
    → List RefreshTokenRecord
    → Option RefreshTokenRecord × List RefreshTokenRecord
replace_refresh_token now hash next rows = elim (find (is_live now hash) rows) [
  | none ↦ (none, rows)
  | some row ↦ (some (revoked_for next row), map (update_row now hash next) rows ++ (next ∷ []))
]

-- The answers of `randomUUID()` in `createRefreshToken`, in order.
pub record TokenIds : Type 0 where
  pub first : JsString
  pub second : JsString
  pub token_id : JsString

abbrev pub token_of : TokenIds → JsString
token_of ids = lit "r." ++ ids.first ++ lit "." ++ ids.second

pub record RotatedTokens : Type 0 where
  pub access_token : JsString
  pub refresh_token : JsString
  pub device_id : JsString

abbrev pub invalid_refresh_token : SyncError
invalid_refresh_token = record {
  code = unauthenticated;
  message = "Invalid refresh token";
  details = none;
}

-- The function that `refresh` passes to `rotateRefresh`.
unfoldable pub issue_claims : AuthRepository → RefreshTokenRecord → Result SyncError AccessClaims
issue_claims repo row = elim (repo.get_device row.device_id) [
  | none ↦ err (record { code = device_revoked; message = "Device is not valid"; details = none })
  | some device ↦
      if device.revoked || not (str_eq device.user_id row.user_id)
      then err (record { code = device_revoked; message = "Device is not valid"; details = none })
      else elim (repo.get_member device.vault_id row.user_id) [
        | none ↦ err (record { code = forbidden; message = "No vault access"; details = none })
        | some role ↦ ok (record {
          user_id = row.user_id;
          device_id = device.device_id;
          vault_id = device.vault_id;
          role = role;
        })
      ]
]

-- `hash_token` is the hash in hexadecimal; `sign` is `issueAccess`.
module _ (hash_token : JsString → JsString) (sign : AccessClaims → JsString) where
  unfoldable pub create_refresh_token : ℕ → TokenIds → JsString → JsString → RefreshTokenRecord
  create_refresh_token now ids user_id device_id = record {
    token_id = ids.token_id;
    user_id = user_id;
    device_id = device_id;
    refresh_hash = hash_token (token_of ids);
    expires_at = now + 2592000000;
    revoked = false;
    replaced_by = none;
  }

  -- What follows once the claims are issued.
  abbrev pub replaced :
      TokenIds
      → AccessClaims
      → Option RefreshTokenRecord × List RefreshTokenRecord
      → Result SyncError RotatedTokens × List RefreshTokenRecord
  replaced ids claims (none, rows) = (err invalid_refresh_token, rows)
  replaced ids claims (some row, rows) = (
    ok (record {
      access_token = sign claims;
      refresh_token = token_of ids;
      device_id = claims.device_id;
    }),
    rows,
  )

  abbrev pub issued :
      ℕ
      → TokenIds
      → JsString
      → RefreshTokenRecord
      → Result SyncError AccessClaims
      → List RefreshTokenRecord
      → Result SyncError RotatedTokens × List RefreshTokenRecord
  issued now ids token row (err e) rows = (err e, rows)
  issued now ids token row (ok claims) rows = replaced ids claims (
      replace_refresh_token now (hash_token token)
        (create_refresh_token now ids row.user_id row.device_id) rows)

  abbrev pub found :
      ℕ
      → TokenIds
      → JsString
      → (RefreshTokenRecord → Result SyncError AccessClaims)
      → Option RefreshTokenRecord
      → List RefreshTokenRecord
      → Result SyncError RotatedTokens × List RefreshTokenRecord
  found now ids token issue none rows = (err invalid_refresh_token, rows)
  found now ids token issue (some row) rows =
      if row.revoked || leb row.expires_at now
      then (err invalid_refresh_token, rows)
      else issued now ids token row (issue row) rows

  unfoldable pub rotate_refresh :
      ℕ
      → TokenIds
      → JsString
      → (RefreshTokenRecord → Result SyncError AccessClaims)
      → List RefreshTokenRecord
      → Result SyncError RotatedTokens × List RefreshTokenRecord
  rotate_refresh now ids token issue rows =
      found now ids token issue (get_refresh_token_by_hash (hash_token token) rows) rows

  unfoldable pub refresh :
      AuthRepository
      → ℕ
      → TokenIds
      → JsString
      → List RefreshTokenRecord
      → Result SyncError RotatedTokens × List RefreshTokenRecord
  refresh repo now ids token rows = rotate_refresh now ids token (issue_claims repo) rows

-- Opens the file's functions, for tests that run them.
unfoldable pub code : Unit {0}
unfolding get_refresh_token_by_hash replace_refresh_token create_refresh_token rotate_refresh
    issue_claims refresh
code = tt
