-- ===== src/Security/Roles.antt =====
-- The roles that `IsValidRole` of cmd/mail-admin/app/security/context_audit.go knows.
use ucware_mail_server.Base.{◌≡◌, ◌⊎◌, inl, inr, true, List, [], ◌∷◌, arith, Bool-cases}
use ucware_mail_server.Text.{Text, codes, text_eq, to_lower, trim_space}
use ucware_mail_server.Text.Equality.{text_eq_iff}
use ucware_mail_server.Security.{role_admin, role_operator, role_viewer, is_valid_role}

-- A text is one of these.
abbrev pub OneOf : Text → List Text → Type 0
OneOf t [] = ⊥
OneOf t (x ∷ xs) = (t ≡ x) ⊎ OneOf t xs

abbrev pub roles_known : List Text
roles_known = codes "admin" ∷ codes "operator" ∷ codes "viewer" ∷ []

-- The roles of the program.
pub is_valid_role-OneOf :
    (role : Text) → is_valid_role role ≡ true → OneOf (to_lower (trim_space role)) roles_known
unfolding is_valid_role
is_valid_role-OneOf role h =
    let r = to_lower (trim_space role) in
    elim (Bool-cases (text_eq r role_admin)) [
      | inl e ↦ inl ((text_eq_iff r role_admin).0 e)
      | inr e ↦ elim (Bool-cases (text_eq r role_operator)) [
        | inl f ↦ inr (inl ((text_eq_iff r role_operator).0 f))
        | inr f ↦ inr (inr (inl ((text_eq_iff r role_viewer).0 (ground (arith, rw (e, f) at h)))))
      ]
    ]
