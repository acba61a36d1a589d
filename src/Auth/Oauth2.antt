-- ===== src/Auth/Oauth2.antt =====
-- `HandleOAuth2Start`, `HandleOAuth2Callback` and `fetchOAuth2UserInfo` of
-- cmd/mail-admin/app/auth/service.go.
use ucware_mail_server.Base.{
  ℕ, ◌+◌, ◌*◌, not, ◌&&◌, ltb, ◌==◌, Option, none, some, [], ◌++◌, if◌then◌else◌,
}
use ucware_mail_server.Text.{Text, codes, text_eq, is_empty, to_lower, trim_space}
use ucware_mail_server.Text.Numbers.{format_int}
use ucware_mail_server.Sql.{Error, no_rows, failed, Result, ok, err}
use ucware_mail_server.RateLimit.{minute}
use ucware_mail_server.Security.{role_viewer}
use ucware_mail_server.Store.Types.{AdminUser}
use ucware_mail_server.Store.Admins.{get_admin_user_by_email, upsert_admin_user_by_oauth2}
use ucware_mail_server.Store.Tokens.{insert_oauth2_state, pop_oauth2_state}
use ucware_mail_server.Http.{Request, ◌>>=◌, ◌>>◌, pure, send, http_error, login, location}
use ucware_mail_server.Auth.State.{
  Config, Env, H, or_else, query, internal, error_text, require, now, generate_refresh_token,
  write_audit, refuse,
}
use ucware_mail_server.Auth.Tokens.{issue_tokens}

-- A provider's `oauth2.Config`: the address to send the browser to for a state, the exchange of a
-- code for a token, and the GET of an address with it, as the status and the decoder's result on
-- the body, the fields `sub` and `email`.
pub record Provider : Type 0 where
  pub auth_code_url : Text → Text
  pub exchange : Text → Result Text
  pub get_info : Text → Text → Result (ℕ × Result (Text × Text))

pub record Providers : Type 0 where
  pub google : Option Provider
  pub microsoft : Option Provider

unfoldable pub oauth2_config_for : Providers → Text → Option Provider
unfolding text_eq
oauth2_config_for ps provider =
    if text_eq provider (codes "google")
    then ps.google
    else if text_eq provider (codes "microsoft")
    then ps.microsoft
    else none

info_url : Text → Result Text
unfolding text_eq
info_url provider =
    if text_eq provider (codes "google")
    then ok (codes "https://openidconnect.googleapis.com/v1/userinfo")
    else if text_eq provider (codes "microsoft")
    then ok (codes "https://graph.microsoft.com/oidc/userinfo")
    else err (failed (codes "unsupported provider: " ++ provider))

info_fields : Text → Text × Text → Result (Text × Text)
unfolding to_lower trim_space
info_fields provider (sub, email) =
    if is_empty email
    then err (failed (codes "email not returned by " ++ provider ++ codes " userinfo"))
    else ok (to_lower (trim_space email), sub)

abbrev chain : {A B : Type 0} → Result A → (A → Result B) → Result B
chain (ok a) f = f a
chain (err e) f = err e

-- The email and the subject.
unfoldable pub fetch_user_info : Text → Provider → Text → Result (Text × Text)
unfolding info_url info_fields format_int
fetch_user_info provider p token = chain (info_url provider) (λ url.
    chain (p.get_info token url) (λ answer.
      if answer.0 == 200
      then chain answer.1 (info_fields provider)
      else err (failed (codes "userinfo HTTP " ++ format_int answer.0))))

-- The two parameters of the query, empty where they are missing, and `error`.
pub record CallbackQuery : Type 0 where
  pub state : Text
  pub code : Text
  pub error : Text

module _ (env : Env) (c : Config) where
  configured : Option Provider → Text → H Provider
  configured none provider = http_error 501 (provider ++ codes " OAuth2 is not configured")
  configured (some p) provider = pure p

  unfoldable pub handle_oauth2_start : Option Provider → Text → Request → H (Unit {0})
  unfolding configured insert_oauth2_state text_eq
  handle_oauth2_start config provider r = do
    require (text_eq r.method (codes "GET")) (http_error 405 (codes "method not allowed"))
    p ← configured config provider
    drawn ← generate_refresh_token env
    state ← or_else drawn internal
    t ← now env
    query (insert_oauth2_state env.fault state provider (t + 10 * minute)) internal
    send 302 (location (p.auth_code_url state))

  failed_callback : {A : Type 0} → Request → Text → Error → H A
  failed_callback r what e =
      refuse env r 401 (what ++ error_text e) (codes "oauth2_callback") [] [] (error_text e)

  -- An unknown email becomes an account with the role viewer.
  new_account : Text → Text → Text → Result AdminUser → H AdminUser
  unfolding upsert_admin_user_by_oauth2
  new_account email provider sub (ok a) = pure a
  new_account email provider sub (err no_rows) = do
    t ← now env
    query (upsert_admin_user_by_oauth2 env.fault t email provider sub role_viewer) internal
  new_account email provider sub (err (failed why)) = internal (failed why)

  account : Text → Text → Text → H AdminUser
  unfolding get_admin_user_by_email new_account
  account email provider sub s =
      let found = get_admin_user_by_email env.fault email s.store in
      new_account email provider sub found.0 (record s { store = found.1 })

  -- After the state: the code, the user's email, and the tokens.
  unfoldable pub finish_callback : Provider → Text → CallbackQuery → Request → H (Unit {0})
  unfolding fetch_user_info failed_callback account issue_tokens
  finish_callback p provider q r = do
    require (not (is_empty q.code)) (http_error 400 (codes "missing code: " ++ q.error))
    token ← or_else (p.exchange q.code) (failed_callback r (codes "token exchange failed: "))
    info ←
        or_else (fetch_user_info provider p token) (failed_callback r (codes "userinfo failed: "))
    a ← account info.0 provider info.1
    t ← now env
    tokens ← issue_tokens env c a t
    write_audit env r (codes "oauth2_login") info.0 info.0 (codes "ok") (provider ++ codes " login")
    send 200 (login tokens)

  unfoldable pub handle_oauth2_callback :
      Option Provider → Text → CallbackQuery → Request → H (Unit {0})
  unfolding configured pop_oauth2_state text_eq finish_callback
  handle_oauth2_callback config provider q r = do
    require (text_eq r.method (codes "GET")) (http_error 405 (codes "method not allowed"))
    p ← configured config provider
    require (not (is_empty q.state)) (http_error 400 (codes "missing state"))
    st ←
        query (pop_oauth2_state env.fault q.state)
          (λ _. http_error 401 (codes "invalid or expired state"))
    t ← now env
    require (text_eq st.provider provider && not (ltb st.expires_at t))
        (http_error 401 (codes "state mismatch or expired"))
    finish_callback p provider q r
