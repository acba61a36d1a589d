-- ===== src/Config/Tests.antt =====
-- `loadConfig` on small environments, and the theorem at one.
use ucware_mail_server.Base.{◌≡◌, refl, false, [], if◌then◌else◌}
use ucware_mail_server.Text.{Text, codes, text_eq}
use ucware_mail_server.Text.Numbers.{pos}
use ucware_mail_server.Sql.{failed, ok, err}
use ucware_mail_server.Security.{role_admin}
use ucware_mail_server.Config.{Config, ◌>>=◌, asked_role, config_of, load_config}
use ucware_mail_server.Config.Limits.{Sane, load_config-Sane}

-- An environment in which two variables are set.
abbrev setting : Text → Text → Text → Text
setting name value key =
    if text_eq key (codes "JWT_SECRET")
    then codes " s3cret "
    else if text_eq key name
    then value
    else []

abbrev short_lock : Text → Text
short_lock = setting (codes "LOGIN_LOCK_MINUTES") (codes " +7")

abbrev settings : Config
settings =
    config_of short_lock (pos 5000) (pos 5000) (pos 10) (pos 60) (pos 30) (pos 30) (pos 5) (pos 7)
      (pos 60) (pos 5) false false false false (pos 209715200) (codes "INBOX") (codes "SENT")
      (codes "s3cret") role_admin

short_lock_loaded : load_config short_lock ≡ ok settings
unfolding load_config config_of ◌>>=◌ asked_role
short_lock_loaded = refl

no_lock_refused :
    load_config (setting (codes "LOGIN_LOCK_MINUTES") (codes "0"))
    ≡ err (failed (codes "LOGIN_LOCK_MINUTES must be >= 1"))
unfolding load_config ◌>>=◌
no_lock_refused = refl

odd_switch_refused :
    load_config (setting (codes "POP3_ENABLED") (codes "Maybe"))
    ≡ err (failed (codes "invalid bool env POP3_ENABLED: maybe"))
unfolding load_config ◌>>=◌
odd_switch_refused = refl

blank_secret_refused :
    load_config (λ key. codes " ") ≡ err (failed (codes "JWT_SECRET is required"))
unfolding load_config ◌>>=◌
blank_secret_refused = refl

load_config-Sane_example : Sane settings
load_config-Sane_example = load_config-Sane short_lock settings short_lock_loaded
