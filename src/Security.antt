-- ===== src/Security.antt =====
-- cmd/mail-admin/app/security/context_audit.go.
pub mod Roles
use ucware_mail_server.Base.{Bool, ◌||◌, Option, none, some}
use ucware_mail_server.Text.{Text, codes, text_eq, to_lower, trim_space}
use ucware_mail_server.Store.Types.{AuditLog}

abbrev pub role_admin : Text
role_admin = codes "admin"

abbrev pub role_operator : Text
role_operator = codes "operator"

abbrev pub role_viewer : Text
role_viewer = codes "viewer"

unfoldable pub actor_from_email : Text → Text
unfolding to_lower trim_space
actor_from_email email = to_lower (trim_space email)

unfoldable pub is_valid_role : Text → Bool
unfolding text_eq to_lower trim_space
is_valid_role role =
    let r = to_lower (trim_space role) in
    text_eq r role_admin || text_eq r role_operator || text_eq r role_viewer

or_addr : Text → Option Text → Text
or_addr addr none = addr
or_addr addr (some host) = host

-- `split_host` is `net.SplitHostPort`.
unfoldable pub remote_ip : (Text → Option Text) → Text → Text
unfolding or_addr trim_space
remote_ip split_host remote_addr =
    or_addr (trim_space remote_addr) (split_host (trim_space remote_addr))

-- The store puts its own time into the row.
unfoldable pub build_audit_log :
    (Text → Option Text) → Text → Text → Text → Text → Text → Text → Text → AuditLog
unfolding actor_from_email remote_ip
build_audit_log split_host action actor email status message remote_addr user_agent = record {
  action = action;
  actor = actor_from_email actor;
  email = actor_from_email email;
  status = status;
  message = message;
  remote_ip = remote_ip split_host remote_addr;
  user_agent = user_agent;
  created_at = 0;
}
