-- ===== src/Auth/Sessions/Revocation.antt =====
-- A token that was logged out is not good for a new access token.
use ucware_mail_server.Base.{
  ◌≡◌, ◌≢◌, ◌∙◌, inl, inr, true, false, some, List, [], ◌∷◌, find?, arith, Bool-cases, Option-cases,
}
use ucware_mail_server.Text.{Text, codes, text_eq, trim_space, is_empty}
use ucware_mail_server.Sql.{Error, no_rows, failed, ok, update_where}
use ucware_mail_server.Store.Types.{RefreshToken, Store, statement}
use ucware_mail_server.Store.Tokens.{is_token, get_refresh_token, revoke_refresh_token}
use ucware_mail_server.Http.{Request, Outcome, got, sent, result}
use ucware_mail_server.Auth.State.{Config, Env, Service, query}
use ucware_mail_server.Auth.Granting.{Grants, Only, and_then-Grants, or_else-got, query-Only}
use ucware_mail_server.Auth.Sessions.{missing, refresh, handle_refresh_token, handle_logout}

-- No row of the hash is live.
abbrev pub AllRevoked : Text → List RefreshToken → Type 0
AllRevoked token_hash rows =
    (row : RefreshToken) → find? (is_token token_hash) rows ≡ some row → row.revoked ≡ true

revoke-AllRevoked :
    (token_hash : Text) (rows : List RefreshToken)
    → AllRevoked token_hash
        (update_where (is_token token_hash) (λ t. record t { revoked = true }) rows)
revoke-AllRevoked h [] row e = cc
revoke-AllRevoked h (x ∷ xs) row e = elim (Bool-cases (is_token h x)) [
  | inl m ↦ ground (arith, rw m at e)
  | inr m ↦ revoke-AllRevoked h xs row (rw (m, m) at e)
]

abbrev pub NoTokens : {A : Type 0} → Outcome A → Type 0
NoTokens = Grants (λ _. ⊥)

missing-Only : {A : Type 0} (e : Error) → Only {A = A} (λ _. ⊥) (missing e)
missing-Only no_rows = record { at = λ s. tt }
missing-Only (failed why) = record { at = λ s. tt }

missing-stops : (s : Service) (e : Error) (a : RefreshToken) → (missing e s).0 ≢ got a
missing-stops s no_rows a h = cc
missing-stops s (failed why) a h = cc

module _ (env : Env) (c : Config) where
  get_refresh_token-found :
      (token_hash : Text) (s : Store) (row : RefreshToken)
      → (get_refresh_token env.fault token_hash s).0 ≡ ok row
      → find? (is_token token_hash) s.refresh_tokens ≡ some row
  unfolding get_refresh_token statement
  get_refresh_token-found h s row e = elim (Option-cases (env.fault s.statements)) [
    | inr (why, n) ↦ absurd (ground (arith, rw (n, statement) at e))
    | inl n ↦ elim (Option-cases (find? (is_token h) s.refresh_tokens)) [
      | inl m ↦ absurd (ground (arith, rw (n, statement, m) at e))
      | inr (b, m) ↦ m ∙ ground (arith, rw (n, statement, m) at e)
    ]
  ]

  -- A hash without a live row is not renewed.
  refresh-stops :
      (r : Request) (token_hash : Text) (s : Service)
      → AllRevoked token_hash s.store.refresh_tokens
      → NoTokens (refresh env c r token_hash s).0
  unfolding refresh
  refresh-stops r token_hash s dead =
      and_then-Grants (λ _. ⊥) (query (get_refresh_token env.fault token_hash) missing s) _
        ((query-Only (get_refresh_token env.fault token_hash) missing missing-Only).at s)
        λ row got_row.
          rw
            (dead row (
              get_refresh_token-found token_hash s.store row (
                or_else-got (get_refresh_token env.fault token_hash s.store).0 missing
                  (record s { store = (get_refresh_token env.fault token_hash s.store).1 }) row
                  (missing-stops _) got_row)))
            tt

  handle_refresh_token-stops :
      (r : Request) (token : Text) (s : Service)
      → AllRevoked (env.sha256_hex (trim_space token)) s.store.refresh_tokens
      → NoTokens (handle_refresh_token env c r (some token) s).0
  unfolding handle_refresh_token
  handle_refresh_token-stops r token s dead = elim (Bool-cases (text_eq r.method (codes "POST"))) [
    | inr e ↦ rw e tt
    | inl e ↦ elim (Bool-cases (is_empty (trim_space token))) [
      | inl n ↦ rw (e, n) tt
      | inr n ↦ rw (e, n) (refresh-stops r (env.sha256_hex (trim_space token)) s dead)
    ]
  ]

  handle_refresh_token-blank :
      (r : Request) (token : Text) (s : Service)
      → is_empty (trim_space token) ≡ true
      → NoTokens (handle_refresh_token env c r (some token) s).0
  unfolding handle_refresh_token
  handle_refresh_token-blank r token s n = elim (Bool-cases (text_eq r.method (codes "POST"))) [
    | inr e ↦ rw e tt
    | inl e ↦ rw (e, n) tt
  ]

  -- What a logout with a token leaves, where the token is not blank and the answer is 200.
  logout-AllRevoked :
      (r : Request) (token : Text) (s : Service)
      → is_empty (trim_space token) ≡ false
      → (handle_logout env c r (some token) s).0
        ≡ sent (record { status = 200; body = result (codes "logged out") })
      → AllRevoked
          (env.sha256_hex (trim_space token))
          (handle_logout env c r (some token) s).1.store.refresh_tokens
  unfolding handle_logout
  logout-AllRevoked r token s given h = elim (Bool-cases (text_eq r.method (codes "POST"))) [
    | inr e ↦ absurd (ground (arith, rw e at h))
    | inl e ↦ elim (Option-cases (env.fault s.store.statements)) [
      | inl n ↦
          rw (e, given, revoke_refresh_token, n, statement)
            (revoke-AllRevoked (env.sha256_hex (trim_space token)) s.store.refresh_tokens)
      | inr (why, n) ↦
          absurd (ground (arith, rw (e, given, revoke_refresh_token, n, statement) at h))
    ]
  ]

  -- After a logout that answers 200, no request for a new access token with the same refresh token
  -- is answered with tokens: not with another method or a blank token either.
  pub logout-handle_refresh_token :
      (r r' : Request) (token : Text) (s : Service)
      → (handle_logout env c r (some token) s).0
        ≡ sent (record { status = 200; body = result (codes "logged out") })
      → NoTokens
          (handle_refresh_token env c r' (some token) (handle_logout env c r (some token) s).1).0
  logout-handle_refresh_token r r' token s h = elim (Bool-cases (is_empty (trim_space token))) [
    | inl e ↦ handle_refresh_token-blank r' token (handle_logout env c r (some token) s).1 e
    | inr e ↦
        handle_refresh_token-stops r' token (handle_logout env c r (some token) s).1
          (logout-AllRevoked r token s e h)
  ]
