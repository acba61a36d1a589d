-- ===== src/Auth/Tokens/Issued.antt =====
-- The tokens that `issue_tokens` makes, and that it answers with none itself.
use ucware_mail_server.Base.{ℕ, ◌+◌, ◌*◌, ◌≡◌, ap, ◌∙◌, arith}
use ucware_mail_server.Text.{Text}
use ucware_mail_server.Sql.{ok}
use ucware_mail_server.Store.Types.{AdminUser}
use ucware_mail_server.Store.Tokens.{insert_refresh_token}
use ucware_mail_server.Http.{Tokens, got, pure, ◌>>=◌}
use ucware_mail_server.Auth.State.{
  Config, Env, Service, query, or_else, internal, generate_refresh_token,
}
use ucware_mail_server.Auth.Tokens.{
  issue_tokens, issue_access_token, claims_for, issue_refresh_token, tokens_for, day,
}
use ucware_mail_server.Auth.Granting.{
  Only, and_then-got, or_else-got, bind-Only, pure-Only, internal-Only, or_else-Only, query-Only,
}

-- Tokens for an account: its role and email, and an access token whose claims are signed for it.
pub record For (env : Env) (c : Config) (a : AdminUser) (t : ℕ) (tokens : Tokens) : Type 0 where
  pub role_is : tokens.role ≡ a.role
  pub email_is : tokens.email ≡ a.email
  pub signed : env.sign (claims_for c a t) ≡ ok tokens.access_token

module _ (env : Env) (c : Config) where
  pub issue_tokens-For :
      (a : AdminUser) (t : ℕ) (s : Service) (tokens : Tokens)
      → (issue_tokens env c a t s).0 ≡ got tokens
      → For env c a t tokens
  unfolding issue_tokens issue_access_token
  issue_tokens-For a t s tokens h =
      let (signed, e, h1) =
        and_then-got (issue_access_token env c a t s)
          (λ signed. issue_refresh_token env c a t >>= λ raw. pure (tokens_for c a t signed raw))
          tokens h in
      let (raw, _, h2) =
        and_then-got (issue_refresh_token env c a t (issue_access_token env c a t s).1)
          (λ raw. pure (tokens_for c a t signed raw)) tokens h1 in
      let is_signed =
        or_else-got (env.sign (claims_for c a t)) internal s signed (λ _ _ n. absurd (ground arith))
          e in
      record {
        role_is = ground (arith, h2);
        email_is = ground (arith, h2);
        signed = is_signed ∙ ap ok (ground (arith, h2));
      }

  issue_refresh_token-Only :
      (P : Tokens → Type 0) (a : AdminUser) (t : ℕ) → Only P (issue_refresh_token env c a t)
  unfolding issue_refresh_token
  issue_refresh_token-Only P a t =
      let store_hash = λ (raw : Text).
        insert_refresh_token env.fault (env.sha256_hex raw) a.email
          (t + c.refresh_token_expiry_days * day) in
      bind-Only (generate_refresh_token env) _ (record { at = λ s. tt {0} })
        λ drawn.
          bind-Only (or_else drawn internal) _ (or_else-Only drawn internal internal-Only) λ raw.
            bind-Only (query (store_hash raw) internal) (λ _. pure raw)
              (query-Only (store_hash raw) internal internal-Only) λ _. pure-Only raw

  pub issue_tokens-Only :
      (P : Tokens → Type 0) (a : AdminUser) (t : ℕ) → Only P (issue_tokens env c a t)
  unfolding issue_tokens issue_access_token
  issue_tokens-Only P a t =
      bind-Only (issue_access_token env c a t) _
        (or_else-Only (env.sign (claims_for c a t)) internal internal-Only)
        λ signed.
          bind-Only (issue_refresh_token env c a t) (λ raw. pure (tokens_for c a t signed raw))
            (issue_refresh_token-Only P a t) λ raw. pure-Only (tokens_for c a t signed raw)
