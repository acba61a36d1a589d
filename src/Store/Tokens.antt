-- ===== src/Store/Tokens.antt =====
-- Refresh tokens, TOTP challenges and OAuth2 states of
-- cmd/mail-admin/app/internal/store/sqlite.go.
pub mod PopOnce
use ucware_mail_server.Base.{
  ℕ, Bool, true, false, ◌||◌, Option, List, [], ◌∷◌, if◌then◌else◌, find?,
}
use ucware_mail_server.Text.{Text, codes, text_eq}
use ucware_mail_server.Text.Stamp.{stamp_lt}
use ucware_mail_server.Sql.{
  Error, failed, ok, err, Exec, pure, gets, modify, ◌>>=◌, ◌>>◌, delete_where, update_where,
}
use ucware_mail_server.Store.Types.{
  RefreshToken, TotpChallenge, Oauth2State, Store, statement, or_no_rows,
}

abbrev constraint : Error
constraint = failed (codes "constraint failed")

-- A primary key that is taken makes an `INSERT` fail.
abbrev pub any {ℓ} : {A : Type ℓ} → (A → Bool) → List A → Bool
any p [] = false
any p (x ∷ xs) = p x || any p xs

abbrev pub is_token : Text → RefreshToken → Bool
is_token token_hash t = text_eq t.token_hash token_hash

abbrev pub is_challenge : Text → TotpChallenge → Bool
is_challenge id c = text_eq c.id id

abbrev pub is_state : Text → Oauth2State → Bool
is_state state st = text_eq st.state state

unfoldable pub add_token : RefreshToken → Exec Store (Unit {0})
add_token t s =
    if any (is_token t.token_hash) s.refresh_tokens
    then (err constraint, s)
    else (ok tt, record s { refresh_tokens = t ∷ s.refresh_tokens })

add_challenge : TotpChallenge → Exec Store (Unit {0})
add_challenge c s =
    if any (is_challenge c.id) s.totp_challenges
    then (err constraint, s)
    else (ok tt, record s { totp_challenges = c ∷ s.totp_challenges })

add_state : Oauth2State → Exec Store (Unit {0})
add_state st s =
    if any (is_state st.state) s.oauth2_states
    then (err constraint, s)
    else (ok tt, record s { oauth2_states = st ∷ s.oauth2_states })

-- `_, _ = s.db.ExecContext(…)`: the statement's error is dropped.
unfoldable pub attempt : Exec Store (Unit {0}) → Exec Store (Unit {0})
attempt m s = (ok tt, (m s).1)

module _ (fault : ℕ → Option Text) where
  unfoldable pub insert_refresh_token : Text → Text → ℕ → Exec Store (Unit {0})
  unfolding statement add_token
  insert_refresh_token token_hash admin_email expires_at = do
    statement fault
    add_token (record {
      token_hash = token_hash;
      admin_email = admin_email;
      expires_at = expires_at;
      revoked = false;
    })

  unfoldable pub get_refresh_token : Text → Exec Store RefreshToken
  unfolding statement
  get_refresh_token token_hash = do
    statement fault
    found ← gets (λ s. find? (is_token token_hash) s.refresh_tokens)
    or_no_rows found

  unfoldable pub revoke_refresh_token : Text → Exec Store (Unit {0})
  unfolding statement
  revoke_refresh_token token_hash = do
    statement fault
    modify (λ s. record s {
      refresh_tokens =
          update_where (is_token token_hash) (λ t. record t { revoked = true }) s.refresh_tokens;
    })

  unfoldable pub purge_expired_refresh_tokens : ℕ → Exec Store (Unit {0})
  unfolding statement stamp_lt
  purge_expired_refresh_tokens now = do
    statement fault
    modify (λ s. record s {
      refresh_tokens = delete_where (λ t. stamp_lt t.expires_at now) s.refresh_tokens;
    })

  unfoldable pub insert_totp_challenge : Text → Text → ℕ → Exec Store (Unit {0})
  unfolding statement add_challenge
  insert_totp_challenge id admin_email expires_at = do
    statement fault
    add_challenge
        (record { id = id; admin_email = admin_email; expires_at = expires_at; used = false })

  unfoldable pub mark_used : TotpChallenge → Exec Store (Unit {0})
  unfolding statement
  mark_used c = do
    statement fault
    modify (λ s. record s {
      totp_challenges =
          update_where (is_challenge c.id) (λ d. record d { used = true }) s.totp_challenges;
    })

  unfoldable pub use_totp_challenge : Text → Exec Store TotpChallenge
  unfolding statement mark_used attempt
  use_totp_challenge id = do
    statement fault
    found ← gets (λ s. find? (is_challenge id) s.totp_challenges)
    c ← or_no_rows found
    if c.used then pure tt else attempt (mark_used c)
    pure c

  unfoldable pub purge_expired_totp_challenges : ℕ → Exec Store (Unit {0})
  unfolding statement stamp_lt
  purge_expired_totp_challenges now = do
    statement fault
    modify (λ s. record s {
      totp_challenges = delete_where (λ c. stamp_lt c.expires_at now) s.totp_challenges;
    })

  unfoldable pub insert_oauth2_state : Text → Text → ℕ → Exec Store (Unit {0})
  unfolding statement add_state
  insert_oauth2_state state provider expires_at = do
    statement fault
    add_state (record { state = state; provider = provider; expires_at = expires_at })

  unfoldable pub drop_state : Text → Exec Store (Unit {0})
  unfolding statement
  drop_state state = do
    statement fault
    modify (λ s. record s { oauth2_states = delete_where (is_state state) s.oauth2_states })

  unfoldable pub pop_oauth2_state : Text → Exec Store Oauth2State
  unfolding statement drop_state attempt
  pop_oauth2_state state = do
    statement fault
    found ← gets (λ s. find? (is_state state) s.oauth2_states)
    st ← or_no_rows found
    attempt (drop_state state)
    pure st
