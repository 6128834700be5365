-- ===== src/Roles/Tokens/Tests.antt =====
-- Tests of the refresh tokens, with the token itself for its hash.
use obsidian_baritone.Prelude.{
  ◌≡◌, refl, false, none, some, List, [], ◌∷◌, JsString, lit, err, str_eq, arith,
}
use obsidian_baritone.Engine.Store.{editor}
use obsidian_baritone.Roles.{AuthRepository}
use obsidian_baritone.Roles.Tokens.{
  AccessClaims, RefreshTokenRecord, TokenIds, token_of, invalid_refresh_token, refresh, code,
}
use obsidian_baritone.Roles.Tokens.Once.{RefreshCall, refresh_all, refresh-refused_after}

abbrev repo : AuthRepository
repo = record {
  get_member = λ vault_id user_id. some editor;
  get_device = λ device_id.
      some (record {
        device_id = device_id;
        user_id = lit "u1";
        vault_id = lit "v1";
        revoked = false;
      });
}

abbrev hash_token : JsString → JsString
hash_token token = token

abbrev sign : AccessClaims → JsString
sign claims = claims.user_id

abbrev ids : JsString → TokenIds
ids first = record { first = first; second = lit "s"; token_id = first }

abbrev rows : List RefreshTokenRecord
rows =
    record {
      token_id = lit "t";
      user_id = lit "u1";
      device_id = lit "d1";
      refresh_hash = lit "r.0";
      expires_at = 9;
      revoked = false;
      replaced_by = none;
    }
    ∷ []

-- The new token is used between the two uses of the old one.
abbrev calls : List RefreshCall
calls = (6, ids (lit "2"), token_of (ids (lit "1"))) ∷ []

refresh-refused_after_example :
    refresh hash_token sign repo 7 (ids (lit "3")) (lit "r.0") (
      refresh_all hash_token sign repo calls
        (refresh hash_token sign repo 5 (ids (lit "1")) (lit "r.0") rows).1)
    ≡ (
      err invalid_refresh_token,
      refresh_all hash_token sign repo calls
          (refresh hash_token sign repo 5 (ids (lit "1")) (lit "r.0") rows).1,
    )
unfolding code str_eq
refresh-refused_after_example =
    refresh-refused_after hash_token sign repo 5 7 (ids (lit "1")) (ids (lit "3")) (lit "r.0") rows
      (record {
        access_token = lit "u1";
        refresh_token = token_of (ids (lit "1"));
        device_id = lit "d1";
      })
      calls (omega arith) refl (refl, tt) refl
