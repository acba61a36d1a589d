-- ===== src/Config/Limits.antt =====
-- The settings that `loadConfig` of cmd/mail-admin/app/config.go lets through.
use ucware_mail_server.Base.{ℕ, ◌++◌, ◌≤◌, ◌≡◌, Bool, true, inl, inr, ltb, arith, Bool-cases}
use ucware_mail_server.Text.{Text, codes}
use ucware_mail_server.Text.Numbers.{ℤ, pos, negsuc}
use ucware_mail_server.Sql.{Result, ok, err}
use ucware_mail_server.Security.{is_valid_role}
use ucware_mail_server.Config.{
  Config, ◌>>=◌, at_least, ensure, not_empty, mailbox_name, asked_role, config_of, load_config,
}

abbrev pub AtLeast : ℕ → ℤ → Type 0
AtLeast n (pos m) = n ≤ m
AtLeast n (negsuc m) = ⊥

pub record Sane (c : Config) : Type 0 where
  pub ip_limit : AtLeast 1 c.login_ip_rate_limit_per_min
  pub threshold : AtLeast 1 c.login_fail_threshold
  pub lock : AtLeast 1 c.login_lock_minutes
  pub send_limit : AtLeast 1 c.send_rate_limit_per_min
  pub max_bytes : AtLeast 1048576 c.lmtp_max_message_bytes
  pub inbound : not_empty c.archive_inbound_mailbox ≡ true
  pub outbound : not_empty c.archive_outbound_mailbox ≡ true
  pub secret : not_empty c.jwt_secret ≡ true
  pub role : is_valid_role c.bootstrap_admin_role ≡ true

-- What holds of a value, if there is one.
abbrev pub Gives : {A : Type 0} → (A → Type 0) → Result A → Type 0
Gives P (ok a) = P a
Gives P (err e) = Unit

bind-Gives :
    {A B : Type 0} (P : A → Type 0) (R : B → Type 0) (m : Result A) (f : A → Result B)
    → Gives P m
    → ((a : A) → P a → Gives R (f a))
    → Gives R (m >>= f)
unfolding ◌>>=◌
bind-Gives P R (ok a) f h g = g a h
bind-Gives P R (err e) f h g = tt

-- A value of which nothing is known.
any-Gives :
    {A B : Type 0} (R : B → Type 0) (m : Result A) (f : A → Result B)
    → ((a : A) → Gives R (f a))
    → Gives R (m >>= f)
unfolding ◌>>=◌
any-Gives R (ok a) f g = g a
any-Gives R (err e) f g = tt

at_least-Gives : (n : ℕ) (why : Text) (z : ℤ) → Gives (AtLeast n) (at_least n why z)
at_least-Gives n why (negsuc m) = tt
at_least-Gives n why (pos m) = elim (Bool-cases (ltb m n)) [
  | inl e ↦ rw e tt
  | inr e ↦ rw e (ground (arith, e))
]

ensure-Gives :
    {A : Type 0} (p : A → Bool) (why : Text) (a : A) → Gives (λ x. p x ≡ true) (ensure p why a)
ensure-Gives p why a = elim (Bool-cases (p a)) [ inl e ↦ rw e e | inr e ↦ rw e tt ]

abbrev Named : Text → Type 0
Named t = not_empty t ≡ true

mailbox_name-Gives :
    (environ : Text → Text) (key fallback : Text) → Gives Named (mailbox_name environ key fallback)
unfolding mailbox_name
mailbox_name-Gives environ key fallback = ensure-Gives not_empty _ _

config_of-Sane :
    (environ : Text → Text) (u g b j e i f l s t : ℤ) (a r m p : Bool) (x : ℤ) (n o k w : Text)
    → AtLeast 1 i
    → AtLeast 1 f
    → AtLeast 1 l
    → AtLeast 1 s
    → AtLeast 1048576 x
    → Named n
    → Named o
    → Named k
    → is_valid_role w ≡ true
    → Sane (config_of environ u g b j e i f l s t a r m p x n o k w)
unfolding config_of
config_of-Sane environ u g b j e i f l s t a r m p x n o k w h1 h2 h3 h4 h5 h6 h7 h8 h9 = record {
  ip_limit = h1;
  threshold = h2;
  lock = h3;
  send_limit = h4;
  max_bytes = h5;
  inbound = h6;
  outbound = h7;
  secret = h8;
  role = h9;
}

load_config-Gives : (environ : Text → Text) → Gives Sane (load_config environ)
unfolding load_config
load_config-Gives environ = any-Gives Sane _ _ λ u. any-Gives Sane _ _ λ g. any-Gives Sane _ _ λ b.
    any-Gives Sane _ _ λ j. any-Gives Sane _ _ λ e. any-Gives Sane _ _ λ z.
      bind-Gives (AtLeast 1) Sane _ _
        (at_least-Gives 1 (codes "LOGIN_IP_RATE_LIMIT_PER_MIN must be >= 1") z)
        λ i ip_limit. any-Gives Sane _ _ λ z.
          bind-Gives (AtLeast 1) Sane _ _
            (at_least-Gives 1 (codes "LOGIN_FAIL_THRESHOLD must be >= 1") z)
            λ f threshold. any-Gives Sane _ _ λ z.
              bind-Gives (AtLeast 1) Sane _ _
                (at_least-Gives 1 (codes "LOGIN_LOCK_MINUTES must be >= 1") z)
                λ l lock. any-Gives Sane _ _ λ z.
                  bind-Gives (AtLeast 1) Sane _ _
                    (at_least-Gives 1 (codes "SEND_RATE_LIMIT_PER_MIN must be >= 1") z)
                    λ s send_limit. any-Gives Sane _ _ λ t. any-Gives Sane _ _ λ a.
                      any-Gives Sane _ _ λ r. any-Gives Sane _ _ λ m. any-Gives Sane _ _ λ p.
                        any-Gives Sane _ _ λ z.
                          bind-Gives (AtLeast 1048576) Sane _ _
                            (at_least-Gives 1048576
                              (codes "LMTP_MAX_MESSAGE_BYTES must be >= 1048576") z)
                            λ x max_bytes.
                              bind-Gives Named Sane _ _ (mailbox_name-Gives environ _ _)
                                λ n inbound.
                                  bind-Gives Named Sane _ _ (mailbox_name-Gives environ _ _)
                                    λ o outbound.
                                      bind-Gives Named Sane _ _ (ensure-Gives not_empty _ _)
                                        λ k secret.
                                          bind-Gives (λ y. is_valid_role y ≡ true) Sane _ _
                                            (ensure-Gives is_valid_role
                                              (codes "invalid BOOTSTRAP_ADMIN_ROLE: "
                                                ++ asked_role environ)
                                              (asked_role environ))
                                            λ w role.
                                              config_of-Sane environ u g b j e i f l s t a r m p x n
                                                o k w ip_limit threshold lock send_limit max_bytes
                                                inbound outbound secret role

-- Settings that are loaded have limits of at least one on logins, locks and sending, room for LMTP
-- messages of at least 1048576 bytes, names for both mailboxes, a secret, and a known role for the
-- first administrator.
pub load_config-Sane : (environ : Text → Text) (c : Config) → load_config environ ≡ ok c → Sane c
load_config-Sane environ c h = let given = load_config-Gives environ in rw h at given
