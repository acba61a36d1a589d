-- ===== src/Handlers/Attachments/Extract/Entries.antt =====
-- Lists of entries and texts with a fallback, for what `extractAttachmentMeta` of
-- cmd/mail-admin/app/handlers/service.go reports.
use ucware_mail_server.Base.{◌≡◌, ◌≢◌, ◌⊎◌, ◌↔◌, refl, inl, inr, false, List, [], ◌∷◌, ◌++◌, arith}
use ucware_mail_server.Text.{Text, is_empty}
use ucware_mail_server.Handlers.Attachments.Extract.{or_text}

abbrev pub In : {A : Type 0} → A → List A → Type 0
In x [] = ⊥
In x (y ∷ ys) = (x ≡ y) ⊎ In x ys

pub In-append : {A : Type 0} (x : A) (xs ys : List A) → In x (xs ++ ys) ↔ (In x xs ⊎ In x ys)
In-append x [] ys = (inr, λ h. elim h [ inl e ↦ absurd e | inr k ↦ k ])
In-append x (y ∷ xs) ys = (
  λ h. elim h [
    | inl e ↦ inl (inl e)
    | inr k ↦ elim ((In-append x xs ys).0 k) [ inl a ↦ inl (inr a) | inr b ↦ inr b ]
  ],
  λ h. elim h [
    | inl a ↦ elim a [ inl e ↦ inl e | inr k ↦ inr ((In-append x xs ys).1 (inl k)) ]
    | inr b ↦ inr ((In-append x xs ys).1 (inr b))
  ],
)

-- The text, or the other one where it is empty.
abbrev pub OrElse : Text → Text → Text → Type 0
OrElse t other u = ((t ≢ []) × (u ≡ t)) ⊎ ((t ≡ []) × (u ≡ other))

pub or_text-OrElse : (t other : Text) → OrElse t other (or_text t other)
or_text-OrElse [] other = inr (refl, refl)
or_text-OrElse (c ∷ t) other = inl (λ e. cc, refl)

pub OrElse-or_text : (t other u : Text) → OrElse t other u → u ≡ or_text t other
OrElse-or_text [] other u (inl (n, e)) = absurd (n refl)
OrElse-or_text [] other u (inr (e, k)) = k
OrElse-or_text (c ∷ t) other u (inl (n, e)) = e
OrElse-or_text (c ∷ t) other u (inr (e, k)) = cc

pub ne_of_is_empty : (t : Text) → is_empty t ≡ false → t ≢ []
ne_of_is_empty t h e = absurd (ground (arith, rw e at h))

pub is_empty_of_ne : (t : Text) → t ≢ [] → is_empty t ≡ false
is_empty_of_ne [] n = absurd (n refl)
is_empty_of_ne (c ∷ t) n = refl
