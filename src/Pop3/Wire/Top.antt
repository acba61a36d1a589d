-- ===== src/Pop3/Wire/Top.antt =====
-- `TOP`: the header and at most `n` lines of the body.
use ucware_mail_server.Base.{
  ℕ, zero, suc, ◌≡◌, refl, sym, ap, ◌∙◌, inl, inr, Option, none, some, ◌==◌, List, [], ◌∷◌, ◌++◌,
  arith, take, Bool-cases,
}
use mathlib.Core.List.{append-nil}
use ucware_mail_server.Text.{Text, codes, cut, contains_byte}
use ucware_mail_server.Text.Lines.{split, join, crlf_to_lf}
use ucware_mail_server.Text.Lines.Laws.{split-cons, split-cut, split-single}
use ucware_mail_server.Pop3.Wire.{
  onto_header, split_header, split_n, first_lines, top_of, top_lines,
}

first_lines-cons :
    (n : ℕ) (l : Text) (ls : List Text) → first_lines (suc n) (l ∷ ls) ≡ l ∷ first_lines n ls
unfolding first_lines
first_lines-cons n l ls = ground arith

first_lines_single : (n : ℕ) (l : Text) → first_lines (suc n) (l ∷ []) ≡ take (suc n) (l ∷ [])
unfolding first_lines
first_lines_single zero l = refl
first_lines_single (suc n) l = ground arith

first_lines-split_n :
    (sep n : ℕ) (s : Text) → first_lines n (split_n sep (suc n) s) ≡ take n (split sep s)
unfolding split_n
first_lines-split_n sep zero s = unfold first_lines in refl
first_lines-split_n sep (suc n) s = elim (Bool-cases (contains_byte sep s)) [
  | inl has ↦
      rw (has, split-cut sep s has)
        (first_lines-cons n _ _ ∙ ap (◌∷◌ (cut sep s).0) (first_lines-split_n sep n (cut sep s).1))
  | inr lacks ↦ rw (lacks, split-single sep s lacks) (first_lines_single n s)
]

-- Each line with its end.
abbrev pub ended : List Text → Text
ended [] = []
ended (l ∷ ls) = l ++ (b'\n' ∷ ended ls)

abbrev before : Text → Option (List Text × List Text) → Option (List Text × List Text)
before l none = none
before l (some (hs, bs)) = some (l ∷ hs, bs)

-- The lines before the first empty one and the lines after it. The last piece of a text is no line
-- with an end.
abbrev at_blank : List Text → Option (List Text × List Text)
at_blank [] = none
at_blank ([] ∷ []) = none
at_blank ([] ∷ l ∷ ls) = some ([], l ∷ ls)
at_blank ((c ∷ l) ∷ ls) = before (c ∷ l) (at_blank ls)

abbrev head_of : Text → Option (List Text × List Text) → Option (Text × List Text)
head_of l none = none
head_of l (some (hs, bs)) = some (ended (l ∷ hs) ++ (b'\n' ∷ []), bs)

-- The header, which has a line at least and ends with an empty one, and the lines of the body.
abbrev pub header_and_body : List Text → Option (Text × List Text)
header_and_body [] = none
header_and_body (l ∷ ls) = head_of l (at_blank ls)

abbrev pub header_and_first : Text → ℕ → Option (Text × List Text) → Text
header_and_first raw n none = raw
header_and_first raw n (some (header, body)) = header ++ join (codes "\n") (take n body)

abbrev onto : ℕ → Option (Text × List Text) → Option (Text × List Text)
onto c none = none
onto c (some (h, bs)) = some (c ∷ h, bs)

abbrev with_lines : Option (Text × Text) → Option (Text × List Text)
with_lines none = none
with_lines (some (h, b)) = some (h, split b'\n' b)

with_lines-onto_header :
    (c : ℕ) (o : Option (Text × Text)) → with_lines (onto_header c o) ≡ onto c (with_lines o)
unfolding onto_header
with_lines-onto_header c none = refl
with_lines-onto_header c (some (h, b)) = refl

head_of-before :
    (l : Text) (o : Option (List Text × List Text))
    → head_of [] (before l o) ≡ onto b'\n' (head_of l o)
head_of-before l none = refl
head_of-before l (some (hs, bs)) = refl

head_of-cons :
    (c : ℕ) (l : Text) (o : Option (List Text × List Text))
    → head_of (c ∷ l) o ≡ onto c (head_of l o)
head_of-cons c l none = refl
head_of-cons c l (some (hs, bs)) = refl

split_header-lines : (s : Text) → with_lines (split_header s) ≡ header_and_body (split b'\n' s)
unfolding split_header split
split_header-lines [] = refl
split_header-lines (c ∷ []) = elim (Bool-cases (c == b'\n')) [
  | inl e ↦ rw e refl
  | inr e ↦ rw e refl
]
split_header-lines (c ∷ d ∷ s) =
    let (l, ls, h) = split-cons b'\n' s in
    let later = split_header-lines (d ∷ s) in
    elim (Bool-cases (c == b'\n')) [
      | inl e ↦
          let newline : c ≡ b'\n' = ground (arith, e) in
          elim (Bool-cases (d == b'\n')) [
            | inl f ↦ let blank : d ≡ b'\n' = ground (arith, f) in rw (newline, blank, h) refl
            | inr f ↦
                rw (newline, f, h)
                  (with_lines-onto_header b'\n' (split_header (d ∷ s))
                    ∙ ap (onto b'\n') (rw (f, h) at later)
                    ∙ sym (head_of-before (d ∷ l) (at_blank ls)))
          ]
      | inr e ↦ elim (Bool-cases (d == b'\n')) [
        | inl f ↦
            rw (e, f)
              (with_lines-onto_header c (split_header (d ∷ s))
                ∙ ap (onto c) (rw f at later)
                ∙ sym (head_of-cons c [] (at_blank (split b'\n' s))))
        | inr f ↦
            rw (e, f, h)
              (with_lines-onto_header c (split_header (d ∷ s))
                ∙ ap (onto c) (rw (f, h) at later)
                ∙ sym (head_of-cons c (d ∷ l) (at_blank ls)))
      ]
    ]

top_of-with_lines :
    (raw : Text) (n : ℕ) (o : Option (Text × Text))
    → top_of raw n o ≡ header_and_first raw n (with_lines o)
unfolding top_of
top_of-with_lines raw n none = refl
top_of-with_lines raw zero (some (header, body)) = unfold join in sym (append-nil header)
top_of-with_lines raw (suc n) (some (header, body)) =
    ground (arith, first_lines-split_n b'\n' (suc n) body)

-- `TOP` sends a message without an empty line behind its first line as it is. Of another one it
-- sends the lines up to the first such empty line, with their ends, and the first `n` lines after
-- it, for any `n`; CR LF is read and sent on as LF.
pub top_lines-header_and_first :
    (raw : Text) (n : ℕ)
    → top_lines raw n ≡ header_and_first raw n (header_and_body (split b'\n' (crlf_to_lf raw)))
unfolding top_lines
top_lines-header_and_first raw n =
    top_of-with_lines raw n (split_header (crlf_to_lf raw))
    ∙ ap (header_and_first raw n) (split_header-lines (crlf_to_lf raw))
