-- ===== src/Text/Lines/Laws.antt =====
-- Splitting into lines and joining them again.
use ucware_mail_server.Base.{
  ℕ, ◌≡◌, refl, ap, ◌∙◌, true, false, inl, inr, List, [], ◌∷◌, arith, ◌==◌, Bool-cases,
}
use ucware_mail_server.Text.{Text, cut, contains_byte}
use ucware_mail_server.Text.Lines.{onto_first, split, join}

pub split-cons : (sep : ℕ) (s : Text) → (l : Text) × (ls : List Text) × (split sep s ≡ l ∷ ls)
unfolding split
split-cons sep [] = ([], [], refl)
split-cons sep (c ∷ s) = elim (Bool-cases (c == sep)) [
  | inl e ↦ ([], split sep s, rw e)
  | inr e ↦ let (l, ls, h) = split-cons sep s in (c ∷ l, ls, rw (e, h))
]

join-onto_first :
    (sep c : ℕ) (l : Text) (ls : List Text)
    → join (sep ∷ []) (onto_first c (l ∷ ls)) ≡ c ∷ join (sep ∷ []) (l ∷ ls)
unfolding join
join-onto_first sep c l [] = refl
join-onto_first sep c l (m ∷ ls) = refl

join-nil_first :
    (sep : ℕ) (l : Text) (ls : List Text)
    → join (sep ∷ []) ([] ∷ l ∷ ls) ≡ sep ∷ join (sep ∷ []) (l ∷ ls)
unfolding join
join-nil_first sep l ls = refl

-- Joining the pieces by the separator gives the text back.
pub join-split : (sep : ℕ) (s : Text) → join (sep ∷ []) (split sep s) ≡ s
unfolding split
join-split sep [] = unfold join in refl
join-split sep (c ∷ s) =
    let (l, ls, h) = split-cons sep s in
    let ih = ap (◌∷◌ c) (join-split sep s) in
    elim (Bool-cases (c == sep)) [
      | inl e ↦
          rw (e, h)
            (join-nil_first sep l ls
              ∙ rw (← h) (ap (λ (b : ℕ). b ∷ join (sep ∷ []) (split sep s)) (ground arith) ∙ ih))
      | inr e ↦ rw (e, h) (join-onto_first sep c l ls ∙ rw (← h) ih)
    ]

pub split-cut :
    (sep : ℕ) (s : Text)
    → contains_byte sep s ≡ true
    → split sep s ≡ (cut sep s).0 ∷ split sep (cut sep s).1
unfolding split cut contains_byte
split-cut sep [] h = cc
split-cut sep (c ∷ s) h = ground (arith, split-cut sep s)

pub split-single : (sep : ℕ) (s : Text) → contains_byte sep s ≡ false → split sep s ≡ s ∷ []
unfolding split contains_byte
split-single sep [] h = refl
split-single sep (c ∷ s) h = ground (arith, split-single sep s)
