-- ===== src/Text/Lines.antt =====
-- Lines: `strings.Split` at a newline, `strings.ReplaceAll(s, "\r\n", "\n")` and `strings.Join`.
pub mod Laws
pub mod Cutting
use ucware_mail_server.Base.{
  ℕ, ◌-◌, Bool, true, false, ◌&&◌, ◌||◌, Option, none, some, List, [], ◌∷◌, ◌++◌, ◌≡◌, refl, arith,
  ◌==◌, if◌then◌else◌,
}
use ucware_mail_server.Text.{Text, codes}

-- Put a byte before the first piece.
abbrev pub onto_first : ℕ → List Text → List Text
onto_first c [] = (c ∷ []) ∷ []
onto_first c (l ∷ ls) = (c ∷ l) ∷ ls

-- `strings.Split(s, sep)` with a one-byte separator: one piece more than separators.
unfoldable pub split : ℕ → Text → List Text
split sep [] = [] ∷ []
split sep (c ∷ s) = let rest = split sep s in if c == sep then [] ∷ rest else onto_first c rest

unfoldable pub join : Text → List Text → Text
join sep [] = []
join sep (l ∷ []) = l
join sep (l ∷ m ∷ ls) = l ++ (sep ++ join sep (m ∷ ls))

-- A carriage return is dropped where a newline follows.
unfoldable pub crlf_to_lf : Text → Text
crlf_to_lf [] = []
crlf_to_lf (c ∷ []) = c ∷ []
crlf_to_lf (c ∷ d ∷ s) =
    let rest = crlf_to_lf (d ∷ s) in if c == b'\r' && d == b'\n' then rest else c ∷ rest

crlf_to_lf_test : crlf_to_lf (codes "a\r\n\r\r\nb\r") ≡ codes "a\n\r\nb\r"
unfolding crlf_to_lf
crlf_to_lf_test = refl

split_test : split b',' (codes "a,,b") ≡ codes "a" ∷ [] ∷ codes "b" ∷ []
unfolding split
split_test = refl

abbrev pub init {ℓ} : {A : Type ℓ} → List A → List A
init [] = []
init (x ∷ []) = []
init (x ∷ y ∷ xs) = x ∷ init (y ∷ xs)

-- What a loop of `ReadString('\n')` reads before the end of the input: the lines that have an end.
unfoldable pub complete_lines : Text → List Text
unfolding split
complete_lines s = init (split b'\n' s)
