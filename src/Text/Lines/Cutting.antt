-- ===== src/Text/Lines/Cutting.antt =====
-- Cutting and splitting a text at its first separator, and the last piece.
use ucware_mail_server.Base.{ℕ, ◌≡◌, refl, ap, false, List, [], ◌∷◌, ◌++◌, arith}
use ucware_mail_server.Text.{Text, cut, contains_byte}
use ucware_mail_server.Text.Lines.{split, init}

pub cut_at :
    (sep : ℕ) (s t : Text) → contains_byte sep s ≡ false → cut sep (s ++ (sep ∷ t)) ≡ (s, t)
unfolding cut contains_byte
cut_at sep [] t h = ground arith
cut_at sep (c ∷ s) t h = ground (arith, h, cut_at sep s t)

pub split_at :
    (sep : ℕ) (s t : Text)
    → contains_byte sep s ≡ false
    → split sep (s ++ (sep ∷ t)) ≡ s ∷ split sep t
unfolding split contains_byte
split_at sep [] t h = ground arith
split_at sep (c ∷ s) t h = ground (arith, h, split_at sep s t)

pub init_snoc : {A : Type 0} (xs : List A) (a : A) → init (xs ++ (a ∷ [])) ≡ xs
init_snoc [] a = refl
init_snoc (x ∷ []) a = refl
init_snoc (x ∷ y ∷ xs) a = ap (◌∷◌ x) (init_snoc (y ∷ xs) a)
