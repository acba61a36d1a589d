-- ===== src/Auth/State.antt =====
-- `Config`, `Service` and the small helpers of cmd/mail-admin/app/auth/service.go.
use ucware_mail_server.Base.{
  ℕ, ◌+◌, ◌*◌, Bool, true, false, Option, none, some, [], ltb, if◌then◌else◌,
}
use ucware_mail_server.Text.{Text, codes, equal_fold}
use ucware_mail_server.Dict.{Map}
use ucware_mail_server.Sql.{Error, no_rows, failed, Result, ok, err, Exec}
use ucware_mail_server.Store.Types.{Store}
use ucware_mail_server.Store.Users.{insert_audit_log}
use ucware_mail_server.RateLimit.{FixedWindow, new_fixed_window, minute}
use ucware_mail_server.Security.{build_audit_log, actor_from_email}
use ucware_mail_server.Http.{Request, got, Handler, ◌>>=◌, pure, http_error}

pub record Config : Type 0 where
  pub jwt_issuer : Text
  pub jwt_expiry_minutes : ℕ
  pub refresh_token_expiry_days : ℕ
  pub totp_challenge_expiry_mins : ℕ
  pub bootstrap_admin_email : Text
  pub bootstrap_admin_password : Text
  pub bootstrap_admin_role : Text
  pub login_ip_rate_limit_per_min : ℕ
  pub login_fail_threshold : ℕ
  pub login_lock_minutes : ℕ

-- The claims of an access token.
pub record Claims : Type 0 where
  pub role : Text
  pub issuer : Text
  pub subject : Text
  pub issued_at : ℕ
  pub expires_at : ℕ

-- What the service does not implement: the faults of the store's database, the clock at its n-th
-- reading, the n-th draw of random bytes in hexadecimal, bcrypt, SHA-256, JWT signing and checking
-- with the secret, TOTP (a secret and its URL for an account; a code against a secret at a time),
-- `mail.ParseAddress`, and `net.SplitHostPort`.
pub record Env : Type 0 where
  pub fault : ℕ → Option Text
  pub clock : ℕ → ℕ
  pub random : ℕ → Result Text
  pub bcrypt_ok : Text → Text → Bool
  pub bcrypt_hash : Text → Result Text
  pub sha256_hex : Text → Text
  pub sign : Claims → Result Text
  pub parse_token : ℕ → Text → Option Claims
  pub totp_generate : ℕ → Text → Result (Text × Text)
  pub totp_validate : ℕ → Text → Text → Bool
  pub parse_address : Text → Option Text
  pub split_host : Text → Option Text

-- `reads` and `draws` count the readings of the clock and the random draws so far.
pub record Service : Type 0 where
  pub store : Store
  pub login_limiter : FixedWindow
  pub login_failures : Map ℕ
  pub login_locked_until : Map ℕ
  pub reads : ℕ
  pub draws : ℕ

-- The defaults of `NewService`.
unfoldable pub with_defaults : Config → Config
with_defaults c = record c {
  login_ip_rate_limit_per_min =
      if ltb c.login_ip_rate_limit_per_min 1 then 30 else c.login_ip_rate_limit_per_min;
  login_fail_threshold = if ltb c.login_fail_threshold 1 then 5 else c.login_fail_threshold;
  login_lock_minutes = if ltb c.login_lock_minutes 1 then 15 else c.login_lock_minutes;
}

unfoldable pub new_service : Config → Store → Service
unfolding new_fixed_window with_defaults
new_service c store = record {
  store = store;
  login_limiter = new_fixed_window (with_defaults c).login_ip_rate_limit_per_min minute;
  login_failures = [];
  login_locked_until = [];
  reads = 0;
  draws = 0;
}

abbrev pub H : Type 0 → Type 0
H A = Handler Service A

abbrev pub error_text : Error → Text
error_text no_rows = codes "sql: no rows in result set"
error_text (failed why) = why

-- A value, or the answer of the branch `if err != nil`.
abbrev pub or_else : {A : Type 0} → Result A → (Error → H A) → H A
or_else (ok a) f = pure a
or_else (err e) f = f e

-- A call of the store.
abbrev pub query : {A : Type 0} → Exec Store A → (Error → H A) → H A
query m f s = or_else (m s.store).0 f (record s { store = (m s.store).1 })

-- `http.Error(w, err.Error(), http.StatusInternalServerError)`.
abbrev pub internal : {A : Type 0} → Error → H A
internal e = http_error 500 (error_text e)

-- The check of the method that each handler starts with.
abbrev pub require : Bool → H (Unit {0}) → H (Unit {0})
require true f = pure tt
require false f = f

abbrev pub or_bad_json : {A : Type 0} → Option A → H A
or_bad_json none = http_error 400 (codes "invalid json")
or_bad_json (some a) = pure a

module _ (env : Env) where
  unfoldable pub is_valid_email : Text → Bool
  unfolding equal_fold
  is_valid_email value = elim (env.parse_address value) [
    | none ↦ false
    | some addr ↦ equal_fold addr value
  ]

  abbrev pub now : H ℕ
  now s = (got (env.clock s.reads), record s { reads = s.reads + 1 })

  -- `GenerateRefreshToken`.
  abbrev pub generate_refresh_token : H (Result Text)
  generate_refresh_token s = (got (env.random s.draws), record s { draws = s.draws + 1 })

  -- `writeAudit`: the error of the insert is logged only.
  abbrev pub write_audit : Request → Text → Text → Text → Text → Text → H (Unit {0})
  write_audit r action actor email status message s = (
    got tt,
    record s {
      reads = s.reads + 1;
      store =
          (insert_audit_log env.fault (env.clock s.reads)
            (build_audit_log env.split_host action actor email status message r.remote_addr
              r.user_agent)
            s.store).1;
    },
  )

  abbrev pub minutes : ℕ → ℕ
  minutes n = n * minute

  -- `http.Error` and then an audit row.
  abbrev pub refuse : {A : Type 0} → Request → ℕ → Text → Text → Text → Text → Text → H A
  refuse r status why action actor email message =
      write_audit r action actor email (codes "failed") message >>= λ _. http_error status why

-- `actorFromContext`.
abbrev pub actor_of : Request → Text
actor_of r = actor_from_email r.actor
