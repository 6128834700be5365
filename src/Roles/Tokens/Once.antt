-- ===== src/Roles/Tokens/Once.antt =====
-- packages/server/src/auth/tokens.ts and auth/service.ts: a refresh token is used once.
use obsidian_baritone.Prelude.{
  ℕ, ◌≤◌, ◌≡◌, refl, Bool, true, false, not, ◌&&◌, ◌||◌, Option, none, some, List, [], ◌∷◌, ◌++◌,
  JsString, str_eq, ltb, leb, map, find, Result, ok, err, All, All-append, Bool-cases, inl, inr,
  arith,
}
use obsidian_baritone.Protocol.{SyncError}
use obsidian_baritone.Roles.{AuthRepository}
use obsidian_baritone.Roles.Tokens.{
  AccessClaims, RefreshTokenRecord, TokenIds, RotatedTokens, get_refresh_token_by_hash, is_live,
  revoked_for, update_row, replace_refresh_token, token_of, invalid_refresh_token,
  create_refresh_token, replaced, issued, found, rotate_refresh, issue_claims, refresh,
}

-- No row of the table lets the token with this hash be used.
abbrev pub Spent : ℕ → JsString → List RefreshTokenRecord → Type 0
Spent now hash rows = All (λ row. is_live now hash row ≡ false) rows

update_row-dead :
    (now before : ℕ) (hash other : JsString) (next row : RefreshTokenRecord)
    → is_live now hash row ≡ false
    → is_live now hash (update_row before other next row) ≡ false
update_row-dead now before hash other next row e = elim (Bool-cases (is_live before other row)) [
  | inl l ↦ rw l ground arith
  | inr l ↦ rw l e
]

update_row-used :
    (now : ℕ) (hash : JsString) (next row : RefreshTokenRecord)
    → is_live now hash (update_row now hash next row) ≡ false
update_row-used now hash next row = elim (Bool-cases (is_live now hash row)) [
  | inl l ↦ rw l ground arith
  | inr l ↦ rw l l
]

module _ (now : ℕ) (hash : JsString) (next : RefreshTokenRecord) where
  updated-Spent :
      (before : ℕ) (other : JsString) (rows : List RefreshTokenRecord)
      → Spent now hash rows
      → Spent now hash (map (update_row before other next) rows)
  updated-Spent before other [] h = tt
  updated-Spent before other (row ∷ rows) h =
      (update_row-dead now before hash other next row h.0, updated-Spent before other rows h.1)

  used-Spent :
      (rows : List RefreshTokenRecord) → Spent now hash (map (update_row now hash next) rows)
  used-Spent [] = tt
  used-Spent (row ∷ rows) = (update_row-used now hash next row, used-Spent rows)

  other-dead : str_eq next.refresh_hash hash ≡ false → is_live now hash next ≡ false
  other-dead e = rw e refl

later-Spent :
    (now later : ℕ) (hash : JsString) (rows : List RefreshTokenRecord)
    → now ≤ later
    → Spent now hash rows
    → Spent later hash rows
later-Spent now later hash [] le h = tt
later-Spent now later hash (row ∷ rows) le h =
    (ground arith, later-Spent now later hash rows le h.1)

-- A call is a moment, the new identifiers and the token that is given.
abbrev pub RefreshCall : Type 0
RefreshCall = ℕ × TokenIds × JsString

module _ (hash_token : JsString → JsString) (sign : AccessClaims → JsString)
    (repo : AuthRepository) where
  -- A table without a row that can be used refuses the token.
  found-refused :
      (now : ℕ) (ids : TokenIds) (token : JsString) (rows all_rows : List RefreshTokenRecord)
      → Spent now (hash_token token) rows
      → found hash_token sign now ids token
          (issue_claims repo)
          (find (λ row. str_eq row.refresh_hash (hash_token token)) rows)
          all_rows
        ≡ (err invalid_refresh_token, all_rows)
  found-refused now ids token [] all_rows h = refl
  found-refused now ids token (row ∷ rows) all_rows h =
      elim (Bool-cases (str_eq row.refresh_hash (hash_token token))) [
        | inl e ↦
            let used : (row.revoked || leb row.expires_at now) ≡ true =
              unusable (row.revoked) (ltb now row.expires_at) (leb row.expires_at now)
                (ground arith) (rw e at h.0) in
            rw e (rw used refl)
        | inr e ↦ rw e (found-refused now ids token rows all_rows h.1)
      ]
    where
      unusable :
          (r l g : Bool) → (l ≡ false → g ≡ true) → (true && not r && l) ≡ false → (r || g) ≡ true
      unusable r l g f e = ground arith

  refresh-refused :
      (now : ℕ) (ids : TokenIds) (token : JsString) (rows : List RefreshTokenRecord)
      → Spent now (hash_token token) rows
      → refresh hash_token sign repo now ids token rows ≡ (err invalid_refresh_token, rows)
  unfolding refresh rotate_refresh get_refresh_token_by_hash
  refresh-refused now ids token rows h = found-refused now ids token rows rows h

  unfoldable pub refresh_all : List RefreshCall → List RefreshTokenRecord → List RefreshTokenRecord
  refresh_all [] rows = rows
  refresh_all ((now, ids, token) ∷ calls) rows =
      refresh_all calls (refresh hash_token sign repo now ids token rows).1

  -- The new token of the call has another hash.
  abbrev pub IsFreshFor : JsString → TokenIds → Type 0
  IsFreshFor hash ids = str_eq (hash_token (token_of ids)) hash ≡ false

  module _ (before : ℕ) (ids : TokenIds) (other : JsString) where
    abbrev new_row : RefreshTokenRecord → RefreshTokenRecord
    new_row row = create_refresh_token hash_token sign before ids row.user_id row.device_id

    -- The table after the replacement of the row, where there is one.
    abbrev table : RefreshTokenRecord → List RefreshTokenRecord → List RefreshTokenRecord
    table next rows = map (update_row before other next) rows ++ (next ∷ [])

    abbrev outcome :
        AccessClaims
        → RefreshTokenRecord
        → List RefreshTokenRecord
        → Option RefreshTokenRecord
        → Result SyncError RotatedTokens × List RefreshTokenRecord
    outcome claims next rows o =
        replaced hash_token sign ids claims (elim o [
          | none ↦ (none, rows)
          | some row ↦ (some (revoked_for next row), table next rows)
        ])

    new_row-dead :
        (now : ℕ) (hash : JsString) (row : RefreshTokenRecord)
        → IsFreshFor hash ids
        → is_live now hash (new_row row) ≡ false
    unfolding create_refresh_token
    new_row-dead now hash row fresh = other-dead now hash (new_row row) fresh

    outcome-Spent :
        (now : ℕ) (hash : JsString) (claims : AccessClaims) (next : RefreshTokenRecord)
        (rows : List RefreshTokenRecord) (o : Option RefreshTokenRecord)
        → is_live now hash next ≡ false
        → Spent now hash rows
        → Spent now hash (outcome claims next rows o).1
    outcome-Spent now hash claims next rows none dead h = h
    outcome-Spent now hash claims next rows (some row) dead h =
        All-append (λ r. is_live now hash r ≡ false) (map (update_row before other next) rows)
          (next ∷ []) (updated-Spent now hash next before other rows h) (dead, tt)

    outcome-spends :
        (claims : AccessClaims) (next : RefreshTokenRecord) (rows : List RefreshTokenRecord)
        (o : Option RefreshTokenRecord) (r : RotatedTokens)
        → is_live before other next ≡ false
        → (outcome claims next rows o).0 ≡ ok r
        → Spent before other (outcome claims next rows o).1
    outcome-spends claims next rows none r dead e = absurd (cc)
    outcome-spends claims next rows (some row) r dead e =
        All-append (λ r. is_live before other r ≡ false) (map (update_row before other next) rows)
          (next ∷ []) (used-Spent before other next rows) (dead, tt)

  -- What happens once the row of the token is read and the claims are issued or not.
  module _ (before : ℕ) (ids : TokenIds) (token : JsString) (rows : List RefreshTokenRecord) where
    abbrev issued_as :
        RefreshTokenRecord
        → Result SyncError AccessClaims
        → Result SyncError RotatedTokens × List RefreshTokenRecord
    issued_as row claims = issued hash_token sign before ids token row claims rows

    issued-Spent :
        (now : ℕ) (hash : JsString) (row : RefreshTokenRecord)
        (claims : Result SyncError AccessClaims)
        → IsFreshFor hash ids
        → Spent now hash rows
        → Spent now hash (issued_as row claims).1
    unfolding replace_refresh_token
    issued-Spent now hash row (err e) fresh h = h
    issued-Spent now hash row (ok claims) fresh h =
        outcome-Spent before ids (hash_token token) now hash claims (new_row before ids token row)
          rows (find (is_live before (hash_token token)) rows)
          (new_row-dead before ids token now hash row fresh) h

    issued-spends :
        (row : RefreshTokenRecord) (claims : Result SyncError AccessClaims) (r : RotatedTokens)
        → IsFreshFor (hash_token token) ids
        → (issued_as row claims).0 ≡ ok r
        → Spent before (hash_token token) (issued_as row claims).1
    unfolding replace_refresh_token
    issued-spends row (err e) r fresh h = absurd (cc)
    issued-spends row (ok claims) r fresh h =
        outcome-spends before ids (hash_token token) claims (new_row before ids token row) rows
          (find (is_live before (hash_token token)) rows) r
          (new_row-dead before ids token before (hash_token token) row fresh) h

    abbrev found_as :
        Option RefreshTokenRecord → Result SyncError RotatedTokens × List RefreshTokenRecord
    found_as o = found hash_token sign before ids token (issue_claims repo) o rows

    found-Spent :
        (now : ℕ) (hash : JsString) (o : Option RefreshTokenRecord)
        → IsFreshFor hash ids
        → Spent now hash rows
        → Spent now hash (found_as o).1
    found-Spent now hash none fresh h = h
    found-Spent now hash (some row) fresh h =
        elim (Bool-cases (row.revoked || leb row.expires_at before)) [
          | inl e ↦ rw e h
          | inr e ↦ rw e (issued-Spent now hash row (issue_claims repo row) fresh h)
        ]

    found-spends :
        (o : Option RefreshTokenRecord) (r : RotatedTokens)
        → IsFreshFor (hash_token token) ids
        → (found_as o).0 ≡ ok r
        → Spent before (hash_token token) (found_as o).1
    found-spends none r fresh h = absurd (cc)
    found-spends (some row) r fresh h =
        elim (Bool-cases (row.revoked || leb row.expires_at before)) [
          | inl e ↦ let wrong : err invalid_refresh_token ≡ ok r = rw e at h in absurd (cc)
          | inr e ↦ rw e (issued-spends row (issue_claims repo row) r fresh (rw e at h))
        ]

  refresh_all-Spent :
      (now : ℕ) (hash : JsString) (calls : List RefreshCall) (rows : List RefreshTokenRecord)
      → All (λ call. IsFreshFor hash call.1) calls
      → Spent now hash rows
      → Spent now hash (refresh_all calls rows)
  unfolding refresh_all refresh rotate_refresh
  refresh_all-Spent now hash [] rows fresh h = h
  refresh_all-Spent now hash ((at_time, ids, token) ∷ calls) rows fresh h =
      refresh_all-Spent now hash calls (refresh hash_token sign repo at_time ids token rows).1
        fresh.1
        (found-Spent at_time ids token rows now hash
          (get_refresh_token_by_hash (hash_token token) rows) fresh.0 h)

  -- Once a refresh with a token has succeeded, a refresh with the same token at any later time
  -- fails with "Invalid refresh token" and leaves the table of tokens as it is, whatever other
  -- refreshes come between, with that token or others, when the accounts and devices stay the
  -- same and no refresh before it makes a token with the same hash.
  pub refresh-refused_after :
      (now later : ℕ) (ids later_ids : TokenIds) (token : JsString) (rows : List RefreshTokenRecord)
      (r : RotatedTokens) (calls : List RefreshCall)
      → now ≤ later
      → IsFreshFor (hash_token token) ids
      → All (λ call. IsFreshFor (hash_token token) call.1) calls
      → (refresh hash_token sign repo now ids token rows).0 ≡ ok r
      → refresh hash_token sign repo later later_ids token
          (refresh_all calls (refresh hash_token sign repo now ids token rows).1)
        ≡ (
          err invalid_refresh_token,
          refresh_all calls (refresh hash_token sign repo now ids token rows).1,
        )
  unfolding refresh rotate_refresh
  refresh-refused_after now later ids later_ids token rows r calls le fresh all_fresh e =
      let after = (refresh hash_token sign repo now ids token rows).1 in
      refresh-refused later later_ids token (refresh_all calls after) (
        later-Spent now later (hash_token token) (refresh_all calls after) le (
          refresh_all-Spent now (hash_token token) calls after all_fresh (
            found-spends now ids token rows (get_refresh_token_by_hash (hash_token token) rows) r
              fresh e)))
