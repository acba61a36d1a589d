-- ===== src/Auth/Totp.antt =====
-- The TOTP handlers of cmd/mail-admin/app/auth/service.go.
pub mod SingleUse
pub mod Setup
use ucware_mail_server.Base.{ℕ, Bool, true, false, not, ◌||◌, Option, List, [], ltb, if◌then◌else◌}
use ucware_mail_server.Text.{Text, codes, text_eq, is_empty, trim_space}
use ucware_mail_server.Store.Types.{AdminUser, TotpChallenge}
use ucware_mail_server.Store.Admins.{
  get_admin_user_by_email, set_totp_secret, enable_totp, disable_totp,
}
use ucware_mail_server.Store.Tokens.{use_totp_challenge, purge_expired_totp_challenges, attempt}
use ucware_mail_server.Http.{
  Request, ◌>>=◌, ◌>>◌, pure, send, http_error, login, result, totp_setup,
}
use ucware_mail_server.Auth.State.{
  Config, Env, Service, H, or_else, query, internal, require, or_bad_json, now, write_audit, refuse,
  actor_of,
}
use ucware_mail_server.Auth.Tokens.{issue_tokens}
use ucware_mail_server.Auth.Sessions.{missing}

pub record ChallengeRequest : Type 0 where
  pub challenge_token : Text
  pub code : Text

require_post : Request → H (Unit {0})
unfolding text_eq
require_post r =
    require (text_eq r.method (codes "POST")) (http_error 405 (codes "method not allowed"))

module _ (env : Env) where
  unfoldable pub handle_totp_setup : Request → H (Unit {0})
  unfolding require_post set_totp_secret
  handle_totp_setup r = do
    require_post r
    t ← now env
    key ← or_else (env.totp_generate t (actor_of r)) internal
    query (set_totp_secret env.fault (actor_of r) key.0) internal
    write_audit env r (codes "totp_setup") (actor_of r) (actor_of r) (codes "ok")
        (codes "secret generated")
    send 200 (totp_setup key.0 key.1)

  -- The body is its field `code`.
  unfoldable pub handle_totp_confirm : Request → Option Text → H (Unit {0})
  unfolding require_post get_admin_user_by_email enable_totp
  handle_totp_confirm r body = do
    require_post r
    code ← or_bad_json body
    a ← query (get_admin_user_by_email env.fault (actor_of r)) internal
    require (not (is_empty a.totp_secret)) (http_error 400 (codes "call /v1/auth/totp/setup first"))
    t ← now env
    require (env.totp_validate t (trim_space code) a.totp_secret) (
        refuse env r 401 (codes "invalid totp code") (codes "totp_confirm") (actor_of r)
          (actor_of r) (codes "wrong code"))
    query (enable_totp env.fault (actor_of r)) internal
    write_audit env r (codes "totp_confirm") (actor_of r) (actor_of r) (codes "ok")
        (codes "totp enabled")
    send 200 (result (codes "totp enabled"))

  -- The body is its field `password`; an account without a password needs none.
  unfoldable pub handle_totp_disable : Request → Option Text → H (Unit {0})
  unfolding require_post get_admin_user_by_email disable_totp
  handle_totp_disable r body = do
    require_post r
    password ← or_bad_json body
    a ← query (get_admin_user_by_email env.fault (actor_of r)) internal
    require (is_empty a.password_hash || env.bcrypt_ok a.password_hash password) (
        refuse env r 401 (codes "unauthorized") (codes "totp_disable") (actor_of r) (actor_of r)
          (codes "wrong password"))
    query (disable_totp env.fault (actor_of r)) internal
    write_audit env r (codes "totp_disable") (actor_of r) (actor_of r) (codes "ok")
        (codes "totp disabled")
    send 200 (result (codes "totp disabled"))

module _ (env : Env) (c : Config) where
  abbrev challenge_failed : Request → TotpChallenge → Text → Text → H (Unit {0})
  challenge_failed r ch why message =
      refuse env r 401 why (codes "totp_challenge") ch.admin_email ch.admin_email message

  -- `PurgeExpiredTOTPChallenges` with its error ignored.
  purge_challenges : H (Unit {0})
  unfolding purge_expired_totp_challenges attempt
  purge_challenges =
      now env >>= λ t. query (attempt (purge_expired_totp_challenges env.fault t)) internal

  unfoldable pub granted : Request → AdminUser → H (Unit {0})
  unfolding issue_tokens purge_challenges
  granted r a = do
    t ← now env
    tokens ← issue_tokens env c a t
    purge_challenges
    write_audit env r (codes "totp_challenge") a.email a.email (codes "ok") (codes "login success")
    send 200 (login tokens)

  -- From the trimmed id and code on.
  unfoldable pub answer_challenge : Request → Text → Text → H (Unit {0})
  unfolding use_totp_challenge get_admin_user_by_email granted
  answer_challenge r id code = do
    ch ← query (use_totp_challenge env.fault id) missing
    t ← now env
    require (not (ch.used || ltb ch.expires_at t)) (
        challenge_failed r ch (codes "challenge token expired or already used")
          (codes "expired/used"))
    a ← query (get_admin_user_by_email env.fault ch.admin_email) internal
    t ← now env
    require (env.totp_validate t code a.totp_secret)
        (challenge_failed r ch (codes "invalid totp code") (codes "wrong code"))
    granted r a

  unfoldable pub handle_totp_challenge : Request → Option ChallengeRequest → H (Unit {0})
  unfolding require_post answer_challenge
  handle_totp_challenge r body = do
    require_post r
    req ← or_bad_json body
    require (not (is_empty (trim_space req.challenge_token) || is_empty (trim_space req.code)))
        (http_error 400 (codes "challengeToken and code are required"))
    answer_challenge r (trim_space req.challenge_token) (trim_space req.code)
