-- ===== src/Text/Equality.antt =====
-- Equality of texts as the tactics read it, and the laws of the trimming functions.
use ucware_mail_server.Base.{
  ℕ, Bool, ◌&&◌, ap, ◌∙◌, inl, inr, Bool-cases, true, false, [], ◌∷◌, ◌≡◌, ◌≢◌, ◌↔◌, refl, arith,
}
use ucware_mail_server.Text.{
  Text, text_eq, to_lower, lower_byte, is_space, is_empty, trim_right_by, trim_left_by, trim_space,
}

eq_of_text_eq : (s t : Text) → text_eq s t ≡ true → s ≡ t
unfolding text_eq
eq_of_text_eq [] [] h = refl
eq_of_text_eq [] (_ ∷ _) h = cc
eq_of_text_eq (_ ∷ _) [] h = cc
eq_of_text_eq (x ∷ xs) (y ∷ ys) h = ground (arith, eq_of_text_eq xs ys)

pub text_eq_self : (s : Text) → text_eq s s ≡ true
unfolding text_eq
text_eq_self [] = refl
text_eq_self (x ∷ xs) = ground (arith, text_eq_self xs)

pub text_eq_iff : (s t : Text) → (text_eq s t ≡ true) ↔ (s ≡ t)
text_eq_iff s t = (eq_of_text_eq s t, λ e. rw e (text_eq_self t))

pub ne_of_text_eq : (s t : Text) → text_eq s t ≡ false → s ≢ t
ne_of_text_eq s t h e = ground (arith, text_eq_iff s t)

pub to_lower-to_lower : (s : Text) → to_lower (to_lower s) ≡ to_lower s
unfolding to_lower
to_lower-to_lower [] = refl
to_lower-to_lower (c ∷ s) = ground (arith, to_lower-to_lower s)

trim_right_by-trim_right_by :
    (p : ℕ → Bool) (s : Text) → trim_right_by p (trim_right_by p s) ≡ trim_right_by p s
unfolding trim_right_by
trim_right_by-trim_right_by p [] = refl
trim_right_by-trim_right_by p (c ∷ s) = elim (Bool-cases (is_empty (trim_right_by p s) && p c)) [
  | inl e ↦ rw e refl
  | inr e ↦ rw (e, trim_right_by-trim_right_by p s, e) refl
]

trim_right_by-cons :
    (p : ℕ → Bool) (c : ℕ) (s : Text)
    → p c ≡ false
    → trim_right_by p (c ∷ s) ≡ c ∷ trim_right_by p s
unfolding trim_right_by
trim_right_by-cons p c s e = elim (Bool-cases (is_empty (trim_right_by p s))) [
  | inl f ↦ rw (f, e) refl
  | inr f ↦ rw f refl
]

-- What is trimmed on the left stays so.
trim_left_by-trim_right_by :
    (p : ℕ → Bool) (s : Text)
    → trim_left_by p (trim_right_by p (trim_left_by p s)) ≡ trim_right_by p (trim_left_by p s)
unfolding trim_left_by
trim_left_by-trim_right_by p [] = unfold trim_right_by in refl
trim_left_by-trim_right_by p (c ∷ s) = elim (Bool-cases (p c)) [
  | inl e ↦ rw e (trim_left_by-trim_right_by p s)
  | inr e ↦ rw (e, trim_right_by-cons p c s e, e) refl
]

pub trim_space-trim_space : (s : Text) → trim_space (trim_space s) ≡ trim_space s
unfolding trim_space
trim_space-trim_space s =
    ap (trim_right_by is_space) (trim_left_by-trim_right_by is_space s)
    ∙ trim_right_by-trim_right_by is_space (trim_left_by is_space s)

is_space-lower_byte : (c : ℕ) → is_space (lower_byte c) ≡ is_space c
unfolding is_space lower_byte
is_space-lower_byte c = ground arith

trim_left_by-to_lower :
    (s : Text) → trim_left_by is_space (to_lower s) ≡ to_lower (trim_left_by is_space s)
unfolding to_lower trim_left_by
trim_left_by-to_lower [] = refl
trim_left_by-to_lower (c ∷ s) = elim (Bool-cases (is_space c)) [
  | inl e ↦ rw (is_space-lower_byte c, e) (trim_left_by-to_lower s)
  | inr e ↦ rw (is_space-lower_byte c, e) refl
]

is_empty-to_lower : (s : Text) → is_empty (to_lower s) ≡ is_empty s
unfolding to_lower
is_empty-to_lower [] = refl
is_empty-to_lower (c ∷ s) = refl

trim_right_by-to_lower :
    (s : Text) → trim_right_by is_space (to_lower s) ≡ to_lower (trim_right_by is_space s)
unfolding trim_right_by to_lower
trim_right_by-to_lower [] = refl
trim_right_by-to_lower (c ∷ s) =
    elim (Bool-cases (is_empty (trim_right_by is_space s) && is_space c)) [
      | inl e ↦
          rw
            (
              trim_right_by-to_lower s,
              is_empty-to_lower (trim_right_by is_space s),
              is_space-lower_byte c,
              e,
            )
            refl
      | inr e ↦
          rw
            (
              trim_right_by-to_lower s,
              is_empty-to_lower (trim_right_by is_space s),
              is_space-lower_byte c,
              e,
            )
            refl
    ]

pub trim_space-to_lower : (s : Text) → trim_space (to_lower s) ≡ to_lower (trim_space s)
unfolding trim_space
trim_space-to_lower s =
    ap (trim_right_by is_space) (trim_left_by-to_lower s)
    ∙ trim_right_by-to_lower (trim_left_by is_space s)

-- What `TrimSpace` and `ToLower` make of a text, they leave as it is.
pub clean_again :
    (s : Text) → to_lower (trim_space (to_lower (trim_space s))) ≡ to_lower (trim_space s)
clean_again s =
    ap to_lower (trim_space-to_lower (trim_space s))
    ∙ to_lower-to_lower (trim_space (trim_space s))
    ∙ ap to_lower (trim_space-trim_space s)
