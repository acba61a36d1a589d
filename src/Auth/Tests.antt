-- ===== src/Auth/Tests.antt =====
-- Logins, tokens and challenges at concrete inputs, and the theorems at them.
mod Changes
use ucware_mail_server.Base.{ℕ, ◌+◌, ◌*◌, ◌≡◌, ◌≢◌, refl, true, false, none, some, [], ◌∷◌, arith}
use ucware_mail_server.Text.{Text, codes, text_eq, equal_fold, to_lower, trim_space}
use ucware_mail_server.Text.Equality.{ne_of_text_eq}
use ucware_mail_server.Dict.{lookup}
use ucware_mail_server.Sql.{ok}
use ucware_mail_server.RateLimit.{minute}
use ucware_mail_server.Store.Types.{TotpChallenge}
use ucware_mail_server.Store.Users.{insert_audit_log}
use ucware_mail_server.Text.Stamp.{stamp_lt}
use ucware_mail_server.Http.{Request, got, sent, result, error, login, Tokens}
use ucware_mail_server.Auth.State.{Config, Claims, Env, Service, is_valid_email}
use ucware_mail_server.Auth.Lockout.{key_of, register_login_failure}
use ucware_mail_server.Auth.Lockout.Counting.{
  fail_at, count_of, lock_of, Untouched, fail_at-locks, register_login_failure-other,
}
use ucware_mail_server.Auth.Granting.{Grants}
use ucware_mail_server.Auth.Login.{LoginRequest, check_login, handle_login}
use ucware_mail_server.Auth.Login.Granting.{OfLogin, handle_login-OfLogin, check_login-locked}
use ucware_mail_server.Auth.Sessions.{handle_logout, handle_refresh_token}
use ucware_mail_server.Auth.Sessions.Revocation.{NoTokens, logout-handle_refresh_token}
use ucware_mail_server.Auth.Totp.{answer_challenge}
use ucware_mail_server.Auth.Totp.SingleUse.Answers.{answer_challenge-again}
use ucware_mail_server.Auth.Access.{authorize}
use ucware_mail_server.Auth.Access.Permits.{LetThrough, authorize-LetThrough}

abbrev al : Text
al = codes "al@x"

abbrev claims : Claims
claims = record {
  role = codes "admin";
  issuer = codes "mail";
  subject = al;
  issued_at = 0;
  expires_at = 9;
}

abbrev env : Env
env = record {
  fault = λ n. none;
  clock = λ n. n;
  random = λ n. ok (n ∷ []);
  bcrypt_ok = text_eq;
  bcrypt_hash = λ password. ok password;
  sha256_hex = λ t. t;
  sign = λ cl. ok cl.subject;
  parse_token = λ t token. some claims;
  totp_generate = λ t account. ok (codes "secret", account);
  totp_validate = λ t code secret. text_eq code secret;
  parse_address = λ t. some t;
  split_host = λ t. none;
}

abbrev config : Config
config = record {
  jwt_issuer = codes "mail";
  jwt_expiry_minutes = 60;
  refresh_token_expiry_days = 30;
  totp_challenge_expiry_mins = 5;
  bootstrap_admin_email = al;
  bootstrap_admin_password = codes "0123456789";
  bootstrap_admin_role = codes "admin";
  login_ip_rate_limit_per_min = 30;
  login_fail_threshold = 3;
  login_lock_minutes = 15;
}

abbrev challenge : TotpChallenge
challenge = record { id = codes "c1"; admin_email = al; expires_at = 50; used = false }

abbrev service : Service
service = record {
  store = record {
    users = [];
    admin_users =
        record {
          email = al;
          password_hash = codes "pw";
          role = codes "admin";
          totp_secret = codes "123456";
          totp_enabled = false;
          oauth2_provider = [];
          oauth2_sub = [];
          created_at = 0;
        }
        ∷ [];
    audit_logs = [];
    refresh_tokens =
        record { token_hash = codes "rt"; admin_email = al; expires_at = 90; revoked = false } ∷ [];
    totp_challenges = challenge ∷ [];
    oauth2_states = [];
    statements = 0;
  };
  login_limiter = record { buckets = []; max = 30; window_dur = minute };
  login_failures = [];
  login_locked_until = [];
  reads = 0;
  draws = 0;
}

abbrev post : Request
post = record {
  method = codes "POST";
  path = codes "/v1";
  authorization = codes "Bearer t";
  forwarded_for = [];
  real_ip = [];
  remote_addr = [];
  user_agent = [];
  actor = [];
  role = [];
}

al_valid : is_valid_email env (key_of al) ≡ true
unfolding is_valid_email equal_fold text_eq to_lower trim_space
al_valid = refl

free : lock_of env config al service ≡ none
unfolding lookup
free = refl

no_failures : count_of env config al service + 3 ≡ 3
unfolding lookup
no_failures = refl

fail_at-locks_example :
    lock_of env config al (fail_at env config al (10 ∷ 20 ∷ 40 ∷ []) service)
    ≡ some (40 + 15 * minute)
fail_at-locks_example =
    fail_at-locks env config al 10 (20 ∷ 40 ∷ []) service al_valid free no_failures

abbrev al_pw : LoginRequest
al_pw = record { email = codes "Al@x "; password = codes "pw" }

handle_login-OfLogin_example :
    Grants
      (OfLogin env config service.store.admin_users
        (to_lower (trim_space (codes "Al@x ")))
        (codes "pw")
        0)
      (handle_login env config post (some al_pw) service).0
handle_login-OfLogin_example = handle_login-OfLogin env config post al_pw service

abbrev locked : Service
locked = record service { login_locked_until = (al, 99) ∷ [] }

is_locked : lock_of env config al locked ≡ some 99
unfolding lookup text_eq to_lower trim_space
is_locked = refl

check_login-locked_example :
    ((check_login env config post al (codes "pw") 7 locked).0
      ≡ sent (record { status = 423; body = error (codes "account temporarily locked") }))
    × ((check_login env config post al (codes "pw") 7 locked).1.store.admin_users
        ≡ locked.store.admin_users)
    × ((check_login env config post al (codes "pw") 7 locked).1.login_failures
        ≡ locked.login_failures)
    × ((check_login env config post al (codes "pw") 7 locked).1.login_locked_until
        ≡ locked.login_locked_until)
check_login-locked_example =
    check_login-locked env config post al (codes "pw") 7 99 locked al_valid is_locked (omega arith)

logged_out :
    (handle_logout env config post (some (codes "rt")) service).0
    ≡ sent (record { status = 200; body = result (codes "logged out") })
unfolding handle_logout text_eq trim_space
logged_out = refl

logout-handle_refresh_token_example :
    NoTokens
      (handle_refresh_token env config post
        (some (codes "rt"))
        (handle_logout env config post (some (codes "rt")) service).1).0
logout-handle_refresh_token_example =
    logout-handle_refresh_token env config post post (codes "rt") service logged_out

answer_challenge-again_example :
    NoTokens
      (answer_challenge env config post
        (codes "c1")
        (codes "123456")
        (answer_challenge env config post (codes "c1") (codes "123456") service).1).0
unfolding text_eq
answer_challenge-again_example =
    answer_challenge-again env config post post (codes "c1") (codes "123456") (codes "123456")
      service challenge refl refl refl refl

let_through : (authorize env config (codes "admin" ∷ []) post service).0 ≡ got claims
unfolding authorize
let_through = refl

authorize-LetThrough_example : LetThrough env config (codes "admin" ∷ []) post 0 claims
authorize-LetThrough_example =
    authorize-LetThrough env config (codes "admin" ∷ []) post service claims let_through

abbrev tokens_at : ℕ → Tokens
tokens_at t = record {
  access_token = al;
  refresh_token = 0 ∷ [];
  expires_at = t + 60 * minute;
  role = codes "admin";
  email = al;
}

-- A login with the right password gets tokens, and so does the first answer to the challenge.
login_test :
    (handle_login env config post (some al_pw) service).0
    ≡ sent (record { status = 200; body = login (tokens_at 0) })
unfolding handle_login
login_test = refl

answer_test :
    (answer_challenge env config post (codes "c1") (codes "123456") service).0
    ≡ sent (record { status = 200; body = login (tokens_at 2) })
unfolding answer_challenge trim_space insert_audit_log stamp_lt text_eq
answer_test = refl
