-- ===== src/Archive/Rebind.antt =====
-- `rebind` and `mapDriverName` of cmd/mail-admin/app/internal/archive/sqlstore.go.
use ucware_mail_server.Base.{
  ℕ, ◌+◌, ◌≡◌, inl, inr, refl, sym, ap, ◌∙◌, List, Bool-cases, ◌||◌, Option, none, some, [], ◌∷◌,
  ◌++◌, ◌==◌, if◌then◌else◌,
}
use ucware_mail_server.Text.{Text, codes, text_eq}
use ucware_mail_server.Text.Lines.{onto_first, split}
use ucware_mail_server.Text.Lines.Laws.{split-cons}
use ucware_mail_server.Text.Numbers.{format_int}

pub data Driver : Type 0 where
  pgx mysql oracle : Driver

unfoldable pub map_driver_name : Text → Option Driver
map_driver_name driver =
    if text_eq driver (codes "postgres") || text_eq driver (codes "postgresql")
    then some pgx
    else if text_eq driver (codes "mysql")
    then some mysql
    else if text_eq driver (codes "oracle")
    then some oracle
    else none

-- The loop of `rebind`: each `?` becomes the mark and its number.
unfoldable pub number_marks : ℕ → ℕ → Text → Text
number_marks mark idx [] = []
number_marks mark idx (ch ∷ query) =
    let rest = number_marks mark (if ch == b'?' then idx + 1 else idx) query in
    if ch == b'?' then mark ∷ (format_int idx ++ rest) else ch ∷ rest

unfoldable pub rebind : Text → Text → Text
unfolding number_marks
rebind driver query =
    if text_eq driver (codes "postgres") || text_eq driver (codes "postgresql")
    then number_marks b'$' 1 query
    else if text_eq driver (codes "oracle")
    then number_marks b':' 1 query
    else query

-- The pieces of a query with the marks between them, numbered from `idx`.
abbrev pub numbered : ℕ → ℕ → List Text → Text
numbered mark idx [] = []
numbered mark idx (l ∷ []) = l
numbered mark idx (l ∷ m ∷ ls) = l ++ (mark ∷ (format_int idx ++ numbered mark (idx + 1) (m ∷ ls)))

numbered-onto_first :
    (mark idx c : ℕ) (l : Text) (ls : List Text)
    → numbered mark idx (onto_first c (l ∷ ls)) ≡ c ∷ numbered mark idx (l ∷ ls)
numbered-onto_first mark idx c l [] = refl
numbered-onto_first mark idx c l (m ∷ ls) = refl

number_marks-numbered :
    (mark idx : ℕ) (query : Text)
    → number_marks mark idx query ≡ numbered mark idx (split b'?' query)
unfolding number_marks split
number_marks-numbered mark idx [] = refl
number_marks-numbered mark idx (c ∷ q) =
    let (l, ls, h) = split-cons b'?' q in
    elim (Bool-cases (c == b'?')) [
      | inl e ↦
          rw (e, h)
            (ap (λ t. mark ∷ (format_int idx ++ t))
              (number_marks-numbered mark (idx + 1) q ∙ ap (numbered mark (idx + 1)) h))
      | inr e ↦
          rw (e, h)
            (ap (◌∷◌ c) (number_marks-numbered mark idx q ∙ ap (numbered mark idx) h)
              ∙ sym (numbered-onto_first mark idx c l ls))
    ]

-- The text between the marks of a query stays, and the n-th mark becomes `$n` for PostgreSQL and
-- `:n` for Oracle, from 1 on; MySQL gets the query as it is.
pub rebind-numbered :
    (query : Text)
    → (rebind (codes "postgres") query ≡ numbered b'$' 1 (split b'?' query))
      × (rebind (codes "oracle") query ≡ numbered b':' 1 (split b'?' query))
      × (rebind (codes "mysql") query ≡ query)
unfolding rebind text_eq
rebind-numbered query =
    (number_marks-numbered b'$' 1 query, number_marks-numbered b':' 1 query, refl)
