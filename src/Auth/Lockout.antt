-- ===== src/Auth/Lockout.antt =====
-- `isLoginLocked`, `registerLoginFailure` and `clearLoginFailures` of
-- cmd/mail-admin/app/auth/service.go. The mutex makes each of them one step.
pub mod Counting
use ucware_mail_server.Base.{
  ℕ, suc, ◌+◌, ◌*◌, Bool, true, false, not, Option, none, some, List, [], ltb, leb, if◌then◌else◌,
}
use ucware_mail_server.Text.{Text, is_empty, to_lower, trim_space}
use ucware_mail_server.Dict.{Map, lookup, insert, delete}
use ucware_mail_server.RateLimit.{minute}
use ucware_mail_server.Auth.State.{Config, Env, Service, is_valid_email}

abbrev pub key_of : Text → Text
key_of email = to_lower (trim_space email)

-- Both entries of an email are dropped.
abbrev pub forget : Text → Service → Service
forget key s = record s {
  login_failures = delete key s.login_failures;
  login_locked_until = delete key s.login_locked_until;
}

-- The number of failures, 0 where there is no entry.
abbrev pub failures_of : Option ℕ → ℕ
failures_of none = 0
failures_of (some n) = n

unfoldable pub is_locked_until : Option ℕ → ℕ → Bool
is_locked_until none now = false
is_locked_until (some until) now = ltb now until

check_lock : Text → ℕ → Option ℕ → Service → Service × Bool
check_lock key now none s = (s, false)
check_lock key now (some until) s = if ltb now until then (s, true) else (forget key s, false)

count_failure : Config → Text → ℕ → ℕ → Service → Service
count_failure c key now n s =
    if leb c.login_fail_threshold n
    then record s {
      login_locked_until = insert key (now + c.login_lock_minutes * minute) s.login_locked_until;
      login_failures = insert key 0 s.login_failures;
    }
    else record s { login_failures = insert key n s.login_failures }

unfoldable pub clear_login_failures : Text → Service → Service
clear_login_failures email s = if is_empty (key_of email) then s else forget (key_of email) s

module _ (env : Env) where
  unfoldable pub is_login_locked : Text → ℕ → Service → Service × Bool
  unfolding check_lock is_valid_email lookup
  is_login_locked email now s =
      if not (is_valid_email env (key_of email))
      then (s, false)
      else check_lock (key_of email) now (lookup (key_of email) s.login_locked_until) s

  unfoldable pub register_login_failure : Config → Text → ℕ → Service → Service
  unfolding count_failure is_valid_email is_locked_until lookup
  register_login_failure c email now s =
      if not (is_valid_email env (key_of email))
      then s
      else if is_locked_until (lookup (key_of email) s.login_locked_until) now
      then s
      else count_failure c (key_of email) now
          (suc (failures_of (lookup (key_of email) s.login_failures))) s
