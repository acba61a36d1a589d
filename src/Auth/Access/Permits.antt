-- ===== src/Auth/Access/Permits.antt =====
-- Whom `WithAuth` lets through.
use ucware_mail_server.Base.{
  ℕ, ◌≡◌, ◌≢◌, refl, sym, inl, inr, true, false, [], ◌∷◌, ◌++◌, not, ◌&&◌, some, List, arith,
  Bool-cases, Option-cases,
}
use ucware_mail_server.Text.{Text, codes, text_eq, to_lower, has_prefix, is_empty, trim_space}
use ucware_mail_server.Text.Equality.{text_eq_iff}
use ucware_mail_server.Security.Roles.{OneOf, roles_known, is_valid_role-OneOf}
use ucware_mail_server.Http.{Outcome, got, Request}
use ucware_mail_server.Auth.State.{Config, Claims, Env, Service}
use ucware_mail_server.Auth.Access.{
  has_bearer, bearer_token, claims_ok, mem_role, denied, claims_of, authorize,
}

-- The header has the scheme, in any case, and a token that parses at the reading of the clock. Its
-- claims have the issuer, a subject, and a role that is among the three of the program, but for
-- case and space, and among the allowed ones as it stands.
pub record LetThrough (env : Env) (c : Config) (roles : List Text) (r : Request) (t : ℕ)
    (claims : Claims) : Type 0 where
  pub scheme : (token : Text) × (to_lower (trim_space r.authorization) ≡ codes "bearer " ++ token)
  pub present : bearer_token (trim_space r.authorization) ≢ []
  pub parsed : env.parse_token t (bearer_token (trim_space r.authorization)) ≡ some claims
  pub issuer : claims.issuer ≡ c.jwt_issuer
  pub subject : claims.subject ≢ []
  pub known : OneOf (to_lower (trim_space claims.role)) roles_known
  pub allowed : OneOf claims.role roles

has_prefix-rest : (s p : Text) → has_prefix s p ≡ true → (rest : Text) × (s ≡ p ++ rest)
unfolding has_prefix
has_prefix-rest s [] h = (s, refl)
has_prefix-rest [] (x ∷ p) h = absurd (ground arith)
has_prefix-rest (c ∷ s) (x ∷ p) h =
    let (rest, e) = has_prefix-rest s p (ground arith) in
    let first : c ≡ x = ground arith in (rest, rw (first, e) refl)

mem_role-OneOf : (role : Text) (roles : List Text) → mem_role role roles ≡ true → OneOf role roles
unfolding mem_role
mem_role-OneOf role [] h = absurd (ground arith)
mem_role-OneOf role (x ∷ xs) h = elim (Bool-cases (text_eq x role)) [
  | inl e ↦ inl (sym ((text_eq_iff x role).0 e))
  | inr e ↦ inr (mem_role-OneOf role xs (rw e at h))
]

ne_of_is_empty : (t : Text) → is_empty t ≡ false → t ≢ []
ne_of_is_empty t h e = absurd (ground (arith, rw e at h))

passes :
    (env : Env) (c : Config) (roles : List Text) (r : Request) (t : ℕ) (cl : Claims)
    → has_bearer (trim_space r.authorization) ≡ true
    → is_empty (bearer_token (trim_space r.authorization)) ≡ false
    → env.parse_token t (bearer_token (trim_space r.authorization)) ≡ some cl
    → claims_ok c cl ≡ true
    → mem_role cl.role roles ≡ true
    → LetThrough env c roles r t cl
unfolding has_bearer claims_ok
passes env c roles r t cl e n p k m = record {
  scheme = has_prefix-rest (to_lower (trim_space r.authorization)) (codes "bearer ") e;
  present = ne_of_is_empty (bearer_token (trim_space r.authorization)) n;
  parsed = p;
  issuer = (text_eq_iff cl.issuer c.jwt_issuer).0 (ground (arith, k));
  subject = ne_of_is_empty cl.subject (ground (arith, k));
  known = is_valid_role-OneOf cl.role (ground (arith, k));
  allowed = mem_role-OneOf cl.role roles m;
}

abbrev the_outcome : Claims → Outcome Claims
the_outcome a = got a

got_claims : (a b : Claims) → the_outcome a ≡ got b → a ≡ b
got_claims a b h = cc

module _ (env : Env) (c : Config) where
  -- `WithAuth` hands a request on only for a bearer token that parses, whose claims have the
  -- configured issuer, a subject and one of the program's three roles but for case and space, and
  -- whose role is among the allowed ones as it stands; it gets those claims.
  pub authorize-LetThrough :
      (roles : List Text) (r : Request) (s : Service) (claims : Claims)
      → (authorize env c roles r s).0 ≡ got claims
      → LetThrough env c roles r (env.clock s.reads) claims
  unfolding authorize denied claims_of
  authorize-LetThrough roles r s claims h =
      let header = trim_space r.authorization in
      elim (Bool-cases (not (is_empty header) && has_bearer header)) [
        | inr e ↦ absurd (ground (arith, rw e at h))
        | inl e ↦ elim (Bool-cases (is_empty (bearer_token header))) [
          | inl n ↦ absurd (ground (arith, rw (e, n) at h))
          | inr n ↦
              elim (Option-cases (env.parse_token (env.clock s.reads) (bearer_token header))) [
                | inl p ↦ absurd (ground (arith, rw (e, n, p) at h))
                | inr (cl, p) ↦ elim (Bool-cases (claims_ok c cl)) [
                  | inr k ↦ absurd (ground (arith, rw (e, n, p, k) at h))
                  | inl k ↦ elim (Bool-cases (mem_role cl.role roles)) [
                    | inr m ↦ absurd (ground (arith, rw (e, n, p, k, m) at h))
                    | inl m ↦
                        let same = got_claims cl claims (rw (e, n, p, k, m) at h) in
                        rw (sym same)
                          (passes env c roles r (env.clock s.reads) cl (ground (arith, e)) n p k m)
                  ]
                ]
              ]
        ]
      ]
