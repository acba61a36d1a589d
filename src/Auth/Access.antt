-- ===== src/Auth/Access.antt =====
-- `WithAuth` of cmd/mail-admin/app/auth/service.go.
pub mod Permits
use ucware_mail_server.Base.{
  ℕ, Bool, true, false, not, ◌||◌, ◌&&◌, Option, none, some, List, [], ◌∷◌, if◌then◌else◌,
}
use ucware_mail_server.Text.{
  Text, codes, text_eq, is_empty, to_lower, trim_space, has_prefix, trim_prefix,
}
use ucware_mail_server.Security.{is_valid_role}
use ucware_mail_server.Http.{Request, ◌>>=◌, ◌>>◌, pure, http_error}
use ucware_mail_server.Auth.State.{
  Config, Claims, Env, Service, H, require, now, write_audit, refuse,
}

unfoldable pub has_bearer : Text → Bool
unfolding has_prefix to_lower
has_bearer header = has_prefix (to_lower header) (codes "bearer ")

-- The token after the scheme, in one of its two spellings.
unfoldable pub bearer_token : Text → Text
unfolding trim_space trim_prefix
bearer_token header =
    let rest = trim_space (trim_prefix header (codes "Bearer")) in
    trim_space (trim_prefix rest (codes "bearer"))

unfoldable pub mem_role : Text → List Text → Bool
unfolding text_eq
mem_role role [] = false
mem_role role (x ∷ xs) = text_eq x role || mem_role role xs

-- The tests on the claims beside the token's own validity.
unfoldable pub claims_ok : Config → Claims → Bool
unfolding text_eq is_valid_role
claims_ok c cl =
    text_eq cl.issuer c.jwt_issuer && not (is_empty cl.subject) && is_valid_role cl.role

module _ (env : Env) (c : Config) where
  denied : {A : Type 0} → Request → ℕ → Text → Text → Text → H A
  denied r status why actor message = refuse env r status why (codes "auth") actor [] message

  -- The claims of a token that parses; the keyfunc's check of the signing method is part of it.
  claims_of : Request → Option Claims → H Claims
  unfolding denied
  claims_of r none = denied r 401 (codes "unauthorized") [] (codes "invalid token")
  claims_of r (some cl) = pure cl

  -- The claims that a request may act by.
  unfoldable pub authorize : List Text → Request → H Claims
  unfolding has_bearer bearer_token claims_ok claims_of denied mem_role trim_space
  authorize allowed_roles r = do
    let header = trim_space r.authorization
    let token = bearer_token header
    require (not (is_empty header) && has_bearer header)
        (denied r 401 (codes "unauthorized") [] (codes "missing bearer token"))
    require (not (is_empty token))
        (denied r 401 (codes "unauthorized") [] (codes "empty bearer token"))
    t ← now env
    cl ← claims_of r (env.parse_token t token)
    require (claims_ok c cl) (denied r 401 (codes "unauthorized") [] (codes "invalid claims"))
    require (mem_role cl.role allowed_roles)
        (denied r 403 (codes "forbidden") cl.subject (codes "rbac denied"))
    pure cl

  -- `next` gets the request with the subject and the role in its context.
  unfoldable pub with_auth : (Request → H (Unit {0})) → List Text → Request → H (Unit {0})
  unfolding authorize
  with_auth next allowed_roles r =
      authorize allowed_roles r >>= λ cl. next (record r { actor = cl.subject; role = cl.role })
