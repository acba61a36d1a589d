-- ===== src/Auth/Tests/Changes.antt =====
-- Changes of accounts at concrete inputs, and the theorems at them.
use ucware_mail_server.Base.{◌≤◌, ◌≡◌, refl, true, none, some, [], ◌∷◌, length}
use ucware_mail_server.Text.{Text, codes, text_eq, to_lower, trim_space}
use ucware_mail_server.Sql.{no_rows, ok, err}
use ucware_mail_server.Store.Types.{Store}
use ucware_mail_server.Store.Tokens.{pop_oauth2_state}
use ucware_mail_server.Store.Tokens.PopOnce.{pop_oauth2_state-again}
use ucware_mail_server.Security.{actor_from_email}
use ucware_mail_server.Http.{Request, admin, sent, totp_setup}
use ucware_mail_server.Auth.State.{Service}
use ucware_mail_server.Auth.Admins.{CreateAdminRequest, create_admin, delete_admin}
use ucware_mail_server.Auth.Admins.Guards.{row_of, delete_admin-row_of}
use ucware_mail_server.Http.Ends.{Ends}
use ucware_mail_server.Auth.Totp.{handle_totp_setup}
use ucware_mail_server.Auth.Totp.Setup.{Pending, handle_totp_setup-Pending}
use ucware_mail_server.Auth.Bootstrap.{bootstrap_email, ensure_bootstrap_admin}
use ucware_mail_server.Auth.Bootstrap.Account.{Account, ensure_bootstrap_admin-Account}
use ucware_mail_server.Auth.Tests.{config, al, env, service, post}

-- A request in the name of the administrator.
abbrev by_al : Request
by_al = record post { actor = al }

delete_admin-row_of_example :
    row_of env al (delete_admin env by_al (codes "bob@x") service).1 ≡ row_of env al service
unfolding to_lower trim_space actor_from_email
delete_admin-row_of_example = delete_admin-row_of env by_al (codes "bob@x") service

abbrev bob : CreateAdminRequest
bob = record { email = codes "Bob@x "; password = codes "0123456789"; role = codes "viewer" }

made :
    (create_admin env by_al (some bob) service).0
    ≡ sent (record {
      status = 201;
      body = admin (record { email = codes "bob@x"; role = codes "viewer"; created_at = 0 });
    })
unfolding create_admin
made = refl

-- An account that has TOTP on.
abbrev with_totp : Service
with_totp = record service {
  store = record service.store {
    admin_users =
        record {
          email = al;
          password_hash = codes "pw";
          role = codes "admin";
          totp_secret = codes "123456";
          totp_enabled = true;
          oauth2_provider = [];
          oauth2_sub = [];
          created_at = 0;
        }
        ∷ [];
  };
}

set_up :
    (handle_totp_setup env by_al with_totp).0
    ≡ sent (record { status = 200; body = totp_setup (codes "secret") al })
unfolding handle_totp_setup actor_from_email
set_up = refl

handle_totp_setup-Pending_example :
    Pending al
      (codes "secret")
      with_totp.store.admin_users
      (handle_totp_setup env by_al with_totp).1.store.admin_users
unfolding to_lower trim_space actor_from_email
handle_totp_setup-Pending_example =
    handle_totp_setup-Pending env by_al with_totp (codes "secret") al set_up

abbrev stored : Store
stored = record service.store {
  oauth2_states = record { state = codes "s1"; provider = codes "google"; expires_at = 9 } ∷ [];
}

pop_oauth2_state-again_example :
    (pop_oauth2_state
      (λ n. none)
      (codes "s1")
      (pop_oauth2_state (λ n. none) (codes "s1") stored).1).0
    ≡ err no_rows
unfolding text_eq
pop_oauth2_state-again_example =
    pop_oauth2_state-again (λ n. none) (codes "s1") stored
      (record { state = codes "s1"; provider = codes "google"; expires_at = 9 }) refl (λ n. refl)

bootstrapped : (ensure_bootstrap_admin env config service).0 ≡ ok tt
unfolding ensure_bootstrap_admin trim_space
bootstrapped = refl

ensure_bootstrap_admin-Account_example :
    (hash : Text) × (ok (codes "0123456789") ≡ ok hash)
    × (10 ≤ length config.bootstrap_admin_password)
    × Account
        (bootstrap_email config)
        hash
        (codes "admin")
        (ensure_bootstrap_admin env config service).1.store.admin_users
ensure_bootstrap_admin-Account_example =
    ensure_bootstrap_admin-Account env config service bootstrapped
