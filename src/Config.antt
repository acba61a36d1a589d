-- ===== src/Config.antt =====
-- `config` of cmd/mail-admin/app/types.go and `loadConfig` of cmd/mail-admin/app/config.go. The
-- default cost of bcrypt is 10.
pub mod Limits
pub mod Tests
use ucware_mail_server.Base.{ℕ, Bool, true, false, not, ◌++◌, List, [], ◌∷◌, ltb, if◌then◌else◌}
use ucware_mail_server.Text.{Text, codes, is_empty, to_lower, trim_space}
use ucware_mail_server.Text.Numbers.{ℤ, pos, negsuc}
use ucware_mail_server.Sql.{Error, failed, Result, ok, err}
use ucware_mail_server.Security.{role_admin, is_valid_role}
use ucware_mail_server.Envx.{get, get_int, get_bool}

pub record Config : Type 0 where
  pub addr : Text
  pub jwt_secret : Text
  pub jwt_issuer : Text
  pub jwt_expiry_minutes : ℤ
  pub refresh_token_expiry_days : ℤ
  pub bootstrap_admin_email : Text
  pub bootstrap_admin_password : Text
  pub bootstrap_admin_role : Text
  pub db_path : Text
  pub dovecot_users_file : Text
  pub postfix_mailbox_maps_file : Text
  pub postfix_domains_file : Text
  pub mail_root : Text
  pub mail_uid : ℤ
  pub mail_gid : ℤ
  pub bcrypt_cost : ℤ
  pub oauth2_callback_base : Text
  pub google_oauth2_client_id : Text
  pub google_oauth2_client_secret : Text
  pub microsoft_oauth2_client_id : Text
  pub microsoft_oauth2_client_secret : Text
  pub microsoft_tenant : Text
  pub totp_issuer : Text
  pub totp_challenge_expiry_mins : ℤ
  pub archive_db_enabled : Bool
  pub archive_db_driver : Text
  pub archive_dsn : Text
  pub archive_auto_route_enabled : Bool
  pub archive_inbound_mailbox : Text
  pub archive_outbound_mailbox : Text
  pub smtp_relay_addr : Text
  pub smtp_username : Text
  pub smtp_password : Text
  pub login_ip_rate_limit_per_min : ℤ
  pub login_fail_threshold : ℤ
  pub login_lock_minutes : ℤ
  pub send_rate_limit_per_min : ℤ
  pub lmtp_enabled : Bool
  pub lmtp_addr : Text
  pub lmtp_domain : Text
  pub lmtp_max_message_bytes : ℤ
  pub pop3_enabled : Bool
  pub pop3_addr : Text

infixl 5 ◌>>=◌
unfoldable pub ◌>>=◌ : {A B : Type 0} → Result A → (A → Result B) → Result B
ok a >>= f = f a
err e >>= f = err e

-- A number below the bound is refused.
abbrev pub at_least : ℕ → Text → ℤ → Result ℤ
at_least n why (negsuc m) = err (failed why)
at_least n why (pos m) = if ltb m n then err (failed why) else ok (pos m)

abbrev pub ensure : {A : Type 0} → (A → Bool) → Text → A → Result A
ensure p why a = if p a then ok a else err (failed why)

abbrev pub not_empty : Text → Bool
not_empty t = not (is_empty t)

module _ (environ : Text → Text) where
  int_from : Text → ℕ → Result ℤ
  unfolding get_int
  int_from key fallback = get_int environ key (pos fallback)

  switch : Text → Result Bool
  unfolding get_bool
  switch key = get_bool environ key false

  mailbox_name : Text → Text → Result Text
  unfolding get trim_space
  mailbox_name key fallback =
      ensure not_empty (key ++ codes " cannot be empty") (trim_space (get environ key fallback))

  unfoldable pub asked_role : Text
  unfolding get to_lower
  asked_role = to_lower (get environ (codes "BOOTSTRAP_ADMIN_ROLE") role_admin)

  -- The settings, from the values that are checked and the others.
  unfoldable pub config_of :
      ℤ
      → ℤ
      → ℤ
      → ℤ
      → ℤ
      → ℤ
      → ℤ
      → ℤ
      → ℤ
      → ℤ
      → Bool
      → Bool
      → Bool
      → Bool
      → ℤ
      → Text
      → Text
      → Text
      → Text
      → Config
  unfolding get to_lower
  config_of mail_uid mail_gid bcrypt_cost jwt_expiry refresh_expiry login_ip_rate_limit_per_min
        login_fail_threshold login_lock_minutes send_rate_limit_per_min totp_challenge_expiry
        archive_enabled auto_route_enabled lmtp_enabled pop3_enabled lmtp_max_message_bytes
        inbound_mailbox outbound_mailbox jwt_secret bootstrap_role =
      record {
        addr = get environ (codes "ADDR") (codes ":8080");
        jwt_secret = jwt_secret;
        jwt_issuer = get environ (codes "JWT_ISSUER") (codes "ucware-mail-admin");
        jwt_expiry_minutes = jwt_expiry;
        refresh_token_expiry_days = refresh_expiry;
        bootstrap_admin_email =
            to_lower (get environ (codes "BOOTSTRAP_ADMIN_EMAIL") (codes "admin@example.com"));
        bootstrap_admin_password =
            get environ (codes "BOOTSTRAP_ADMIN_PASSWORD") (codes "ChangeMeAdmin!123");
        bootstrap_admin_role = bootstrap_role;
        db_path = get environ (codes "DB_PATH") (codes "./data/mailadmin.db");
        dovecot_users_file =
            get environ (codes "DOVECOT_USERS_FILE") (codes "./generated/dovecot/users.passwd");
        postfix_mailbox_maps_file =
            get environ (codes "POSTFIX_MAILBOX_MAPS_FILE")
              (codes "./generated/postfix/virtual_mailbox_maps");
        postfix_domains_file =
            get environ (codes "POSTFIX_DOMAINS_FILE")
              (codes "./generated/postfix/virtual_mailbox_domains");
        mail_root = get environ (codes "MAIL_ROOT") (codes "/var/mail/vhosts");
        mail_uid = mail_uid;
        mail_gid = mail_gid;
        bcrypt_cost = bcrypt_cost;
        oauth2_callback_base =
            get environ (codes "OAUTH2_CALLBACK_BASE") (codes "http://localhost:8080");
        google_oauth2_client_id = get environ (codes "GOOGLE_OAUTH2_CLIENT_ID") [];
        google_oauth2_client_secret = get environ (codes "GOOGLE_OAUTH2_CLIENT_SECRET") [];
        microsoft_oauth2_client_id = get environ (codes "MICROSOFT_OAUTH2_CLIENT_ID") [];
        microsoft_oauth2_client_secret = get environ (codes "MICROSOFT_OAUTH2_CLIENT_SECRET") [];
        microsoft_tenant = get environ (codes "MICROSOFT_TENANT") (codes "common");
        totp_issuer = get environ (codes "TOTP_ISSUER") (codes "ucware-mail-admin");
        totp_challenge_expiry_mins = totp_challenge_expiry;
        archive_db_enabled = archive_enabled;
        archive_db_driver = to_lower (get environ (codes "ARCHIVE_DB_DRIVER") (codes "postgres"));
        archive_dsn = get environ (codes "ARCHIVE_DSN") [];
        archive_auto_route_enabled = auto_route_enabled;
        archive_inbound_mailbox = inbound_mailbox;
        archive_outbound_mailbox = outbound_mailbox;
        smtp_relay_addr = get environ (codes "SMTP_RELAY_ADDR") (codes "postfix:587");
        smtp_username = get environ (codes "SMTP_USERNAME") [];
        smtp_password = get environ (codes "SMTP_PASSWORD") [];
        login_ip_rate_limit_per_min = login_ip_rate_limit_per_min;
        login_fail_threshold = login_fail_threshold;
        login_lock_minutes = login_lock_minutes;
        send_rate_limit_per_min = send_rate_limit_per_min;
        lmtp_enabled = lmtp_enabled;
        lmtp_addr = get environ (codes "LMTP_ADDR") (codes ":2525");
        lmtp_domain = get environ (codes "LMTP_DOMAIN") [];
        lmtp_max_message_bytes = lmtp_max_message_bytes;
        pop3_enabled = pop3_enabled;
        pop3_addr = get environ (codes "POP3_ADDR") (codes ":110");
      }

  unfoldable pub load_config : Result Config
  unfolding int_from switch mailbox_name get to_lower is_valid_role
  load_config = do
    mail_uid ← int_from (codes "MAIL_UID") 5000
    mail_gid ← int_from (codes "MAIL_GID") 5000
    bcrypt_cost ← int_from (codes "BCRYPT_COST") 10
    jwt_expiry ← int_from (codes "JWT_EXPIRY_MINUTES") 60
    refresh_expiry ← int_from (codes "REFRESH_TOKEN_EXPIRY_DAYS") 30
    ip_limit ← int_from (codes "LOGIN_IP_RATE_LIMIT_PER_MIN") 30
    login_ip_rate_limit_per_min ←
        at_least 1 (codes "LOGIN_IP_RATE_LIMIT_PER_MIN must be >= 1") ip_limit
    threshold ← int_from (codes "LOGIN_FAIL_THRESHOLD") 5
    login_fail_threshold ← at_least 1 (codes "LOGIN_FAIL_THRESHOLD must be >= 1") threshold
    lock ← int_from (codes "LOGIN_LOCK_MINUTES") 15
    login_lock_minutes ← at_least 1 (codes "LOGIN_LOCK_MINUTES must be >= 1") lock
    send_limit ← int_from (codes "SEND_RATE_LIMIT_PER_MIN") 60
    send_rate_limit_per_min ← at_least 1 (codes "SEND_RATE_LIMIT_PER_MIN must be >= 1") send_limit
    totp_challenge_expiry ← int_from (codes "TOTP_CHALLENGE_EXPIRY_MINUTES") 5
    archive_enabled ← switch (codes "ARCHIVE_DB_ENABLED")
    auto_route_enabled ← switch (codes "ARCHIVE_AUTO_ROUTE_ENABLED")
    lmtp_enabled ← switch (codes "LMTP_ENABLED")
    pop3_enabled ← switch (codes "POP3_ENABLED")
    max_bytes ← int_from (codes "LMTP_MAX_MESSAGE_BYTES") 209715200
    lmtp_max_message_bytes ←
        at_least 1048576 (codes "LMTP_MAX_MESSAGE_BYTES must be >= 1048576") max_bytes
    inbound_mailbox ← mailbox_name (codes "ARCHIVE_INBOUND_MAILBOX") (codes "INBOX")
    outbound_mailbox ← mailbox_name (codes "ARCHIVE_OUTBOUND_MAILBOX") (codes "SENT")
    jwt_secret ←
        ensure not_empty (codes "JWT_SECRET is required") (get environ (codes "JWT_SECRET") [])
    bootstrap_role ←
        ensure is_valid_role (codes "invalid BOOTSTRAP_ADMIN_ROLE: " ++ asked_role) asked_role
    ok (
        config_of mail_uid mail_gid bcrypt_cost jwt_expiry refresh_expiry
          login_ip_rate_limit_per_min login_fail_threshold login_lock_minutes
          send_rate_limit_per_min totp_challenge_expiry archive_enabled auto_route_enabled
          lmtp_enabled pop3_enabled lmtp_max_message_bytes inbound_mailbox outbound_mailbox
          jwt_secret bootstrap_role)
