-- ===== src/Handlers/Mime/Breaks.antt =====
-- The lines that `base64LineWriter` of cmd/mail-admin/app/handlers/service.go makes.
use ucware_mail_server.Base.{
  ℕ, ◌+◌, ◌≤◌, ◌≡◌, refl, ap, ◌∙◌, inl, inr, List, [], ◌∷◌, ◌++◌, length, arith, ◌==◌, Bool-cases,
}
use ucware_mail_server.Text.{Text}
use ucware_mail_server.Text.Lines.{join}
use ucware_mail_server.Handlers.Mime.{crlf, write_base64, write_chunks}

abbrev pub concat : List Text → Text
concat [] = []
concat (l ∷ ls) = l ++ concat ls

-- Lines that go on after `n` bytes of the first: each has 76 bytes, the last one at most.
abbrev pub Filled : ℕ → List Text → Type 0
Filled n [] = ⊥
Filled n (l ∷ []) = n + length l ≤ 76
Filled n (l ∷ m ∷ ls) = (n + length l ≡ 76) × Filled 0 (m ∷ ls)

pub record Broken (n : ℕ) (s out : Text) : Type 0 where
  pub first : Text
  pub others : List Text
  pub bytes : concat (first ∷ others) ≡ s
  pub output : out ≡ join crlf (first ∷ others)
  pub filled : Filled n (first ∷ others)

Filled-cons :
    (n b : ℕ) (l : Text) (ls : List Text) → Filled (n + 1) (l ∷ ls) → Filled n ((b ∷ l) ∷ ls)
Filled-cons n b l [] h = omega arith
Filled-cons n b l (m ∷ ls) (h, hs) = (omega arith, hs)

join_cons : (b : ℕ) (l : Text) (ls : List Text) → b ∷ join crlf (l ∷ ls) ≡ join crlf ((b ∷ l) ∷ ls)
unfolding join
join_cons b l [] = refl
join_cons b l (m ∷ ls) = refl

write_base64-Broken : (n : ℕ) (s : Text) → n ≤ 76 → Broken n s (write_base64 n s).0
unfolding write_base64 join
write_base64-Broken n [] h = record {
  first = [];
  others = [];
  bytes = refl;
  output = refl;
  filled = omega arith;
}
write_base64-Broken n (b ∷ p) h = elim (Bool-cases (n == 76)) [
  | inl e ↦
      let r = write_base64-Broken 1 p (omega arith) in
      record {
        first = [];
        others = (b ∷ r.first) ∷ r.others;
        bytes = ap (◌∷◌ b) r.bytes;
        output = rw e (
            ap (λ (t : Text). crlf ++ (b ∷ t)) r.output
            ∙ ap (λ (t : Text). crlf ++ t) (join_cons b r.first r.others));
        filled = (ground arith, Filled-cons 0 b r.first r.others r.filled);
      }
  | inr e ↦
      let r = write_base64-Broken (n + 1) p (ground arith) in
      record {
        first = b ∷ r.first;
        others = r.others;
        bytes = ap (◌∷◌ b) r.bytes;
        output = rw e (ap (◌∷◌ b) r.output ∙ join_cons b r.first r.others);
        filled = Filled-cons n b r.first r.others r.filled;
      }
]

write_base64-append :
    (n : ℕ) (s t : Text)
    → write_base64 n (s ++ t) ≡ (
      (write_base64 n s).0 ++ (write_base64 (write_base64 n s).1 t).0,
      (write_base64 (write_base64 n s).1 t).1,
    )
unfolding write_base64
write_base64-append n [] t = refl
write_base64-append n (b ∷ s) t = elim (Bool-cases (n == 76)) [
  | inl e ↦ rw (e, write_base64-append 1 s t) refl
  | inr e ↦ rw (e, write_base64-append (n + 1) s t) refl
]

write_chunks-concat : (n : ℕ) (ps : List Text) → write_chunks n ps ≡ write_base64 n (concat ps)
unfolding write_chunks write_base64
write_chunks-concat n [] = refl
write_chunks-concat n (p ∷ ps) =
    rw (write_base64-append n p (concat ps), write_chunks-concat (write_base64 n p).1 ps) refl

-- However the base64 comes in pieces, the writer puts out its bytes in lines of 76, of which only
-- the last one can be shorter, with CR LF between two lines.
pub write_chunks-Broken : (ps : List Text) → Broken 0 (concat ps) (write_chunks 0 ps).0
write_chunks-Broken ps =
    rw (write_chunks-concat 0 ps) (write_base64-Broken 0 (concat ps) (omega arith))
