-- ===== src/Syncer/Lookup.antt =====
-- What Dovecot reads in the file that cmd/mail-admin/app/internal/syncer/exporter.go writes for it: a
-- line for each account, its fields separated by colons, the name first and then the password.
use mathlib.Core.List.{append_assoc}
use ucware_mail_server.Base.{
  ℕ, suc, ◌≤◌, ◌≡◌, refl, ap, ◌∙◌, false, inl, inr, Bool, Option, none, some, List, [], ◌∷◌, ◌++◌,
  map, length, filter, find?, arith, Bool-cases,
}
use ucware_mail_server.Text.{Text, codes, text_eq, cut, contains_byte}
use ucware_mail_server.Text.Lines.{split, join, complete_lines}
use ucware_mail_server.Text.Lines.Cutting.{cut_at, split_at, init_snoc}
use ucware_mail_server.Text.Order.Finding.{count-sort, find?-sort}
use ucware_mail_server.Text.Order.{text_lt, sort, insert_sorted}
use ucware_mail_server.Sql.{ok, Result-cases}
use ucware_mail_server.Store.Types.{User}
use ucware_mail_server.Store.Users.{users_by_email}
use ucware_mail_server.Syncer.{
  ExportConfig, Disk, Entry, entry, entry_of, entries, file_of, dovecot_file,
}
use ucware_mail_server.Syncer.Atomic.{OnDisk}

abbrev pub OneLine : List Text → Type 0
OneLine [] = Unit
OneLine (l ∷ ls) = (contains_byte b'\n' l ≡ false) × OneLine ls

split-file_of :
    (l : Text) (ls : List Text)
    → OneLine (l ∷ ls)
    → split b'\n' (file_of (l ∷ ls)) ≡ (l ∷ ls) ++ ([] ∷ [])
unfolding join split
split-file_of l [] (h, _) = split_at b'\n' l [] h
split-file_of l (m ∷ ls) (h, hs) =
    rw (append_assoc l (codes "\n" ++ join (codes "\n") (m ∷ ls)) (codes "\n"))
      (split_at b'\n' l (file_of (m ∷ ls)) h ∙ ap (◌∷◌ l) (split-file_of m ls hs))

lines-file_of :
    (l : Text) (ls : List Text) → OneLine (l ∷ ls) → complete_lines (file_of (l ∷ ls)) ≡ l ∷ ls
unfolding complete_lines
lines-file_of l ls h = rw (split-file_of l ls h) (init_snoc (l ∷ ls) [])

abbrev pub key : Text → Text
unfolding cut
key l = (cut b':' l).0

abbrev pub second_field : Option Text → Option Text
unfolding cut
second_field none = none
second_field (some l) = some (key (cut b':' l).1)

-- The password in the first line with the name.
abbrev pub passwd_lookup : Text → Text → Option Text
unfolding text_eq complete_lines
passwd_lookup file name = second_field (find? (λ l. text_eq (key l) name) (complete_lines file))

abbrev pub password_of : Option User → Option Text
password_of none = none
password_of (some u) = some (codes "{BLF-CRYPT}" ++ u.password_hash)

-- The table of users as Dovecot should see it.
abbrev pub account : Text → List User → Option Text
unfolding text_eq
account name us = password_of (find? (λ u. text_eq u.email name) us)

-- Neither the address nor the hash has a colon.
abbrev pub NoColon : List User → Type 0
unfolding contains_byte
NoColon [] = Unit
NoColon (u ∷ us) =
    (contains_byte b':' u.email ≡ false) × (contains_byte b':' u.password_hash ≡ false) × NoColon us

abbrev pub dovecot_lines : List Entry → List Text
dovecot_lines = map (λ e. e.dovecot_line)

-- The line of a user: its name and its password.
LineOf : User → Entry → Type 0
LineOf u e =
    (key e.dovecot_line ≡ u.email)
    × (second_field (some e.dovecot_line) ≡ some (codes "{BLF-CRYPT}" ++ u.password_hash))

fields :
    (email hash rest : Text)
    → contains_byte b':' email ≡ false
    → contains_byte b':' hash ≡ false
    → (key (email ++ (codes ":{BLF-CRYPT}" ++ (hash ++ (b':' ∷ rest)))) ≡ email)
      × (second_field (some (email ++ (codes ":{BLF-CRYPT}" ++ (hash ++ (b':' ∷ rest)))))
          ≡ some (codes "{BLF-CRYPT}" ++ hash))
unfolding key second_field
fields email hash rest h k =
    let tail = codes "{BLF-CRYPT}" ++ (hash ++ (b':' ∷ rest)) in
    let outer = cut_at b':' email tail h in
    let inner =
      cut_at b':' (codes "{BLF-CRYPT}" ++ hash) rest (unfold contains_byte in ground (arith, k)) in
    (
      ap (λ (p : Text × Text). p.0) outer,
      ap (λ (t : Text). some t)
          (ap (λ (p : Text × Text). key p.1) outer ∙ ap (λ (p : Text × Text). p.0) inner),
    )

entry_of-LineOf :
    (cfg : ExportConfig) (u : User) (local domain : Text)
    → contains_byte b':' u.email ≡ false
    → contains_byte b':' u.password_hash ≡ false
    → LineOf u (entry_of cfg u local domain)
unfolding entry_of LineOf
entry_of-LineOf cfg u local domain h k = fields u.email u.password_hash _ h k

AllLines : List User → List Entry → Type 0
AllLines [] [] = Unit
AllLines (u ∷ us) (e ∷ es) = LineOf u e × AllLines us es
AllLines _ _ = ⊥

entry-LineOf :
    (cfg : ExportConfig) (u : User) (e : Entry) (pieces : List Text)
    → contains_byte b':' u.email ≡ false
    → contains_byte b':' u.password_hash ≡ false
    → entry cfg u pieces ≡ ok e
    → LineOf u e
unfolding entry
entry-LineOf cfg u e (local ∷ domain ∷ []) h k f =
    let same : entry_of cfg u local domain ≡ e = cc in
    rw (← same) (entry_of-LineOf cfg u local domain h k)
entry-LineOf cfg u e [] h k f = absurd cc
entry-LineOf cfg u e (a ∷ []) h k f = absurd cc
entry-LineOf cfg u e (a ∷ b ∷ c ∷ ps) h k f = absurd cc

entries-AllLines :
    (cfg : ExportConfig) (us : List User) (es : List Entry)
    → NoColon us
    → entries cfg us ≡ ok es
    → AllLines us es
unfolding entries AllLines NoColon
entries-AllLines cfg [] [] n f = tt
entries-AllLines cfg [] (e ∷ es) n f = absurd cc
entries-AllLines cfg (u ∷ us) es (h, k, n) f =
    elim (Result-cases (entry cfg u (split b'@' u.email))) [
      | inr (why, g) ↦ absurd (ground (arith, rw g at f))
      | inl (e, g) ↦ elim (Result-cases (entries cfg us)) [
        | inr (why, j) ↦ absurd (ground (arith, rw (g, j) at f))
        | inl (rest, j) ↦
            let same : e ∷ rest ≡ es = ground (arith, rw (g, j) at f) in
            rw (← same)
              (entry-LineOf cfg u e (split b'@' u.email) h k g, entries-AllLines cfg us rest n j)
      ]
    ]

-- What is found among the lines is what is found among the users.
find?-lines :
    (name : Text) (us : List User) (es : List Entry)
    → AllLines us es
    → second_field (find? (λ l. text_eq (key l) name) (dovecot_lines es)) ≡ account name us
unfolding AllLines LineOf account second_field
find?-lines name [] [] h = refl
find?-lines name [] (e ∷ es) h = elim h [ ]
find?-lines name (u ∷ us) [] h = elim h [ ]
find?-lines name (u ∷ us) (e ∷ es) ((h, k), hs) = elim (Bool-cases (text_eq u.email name)) [
  | inl f ↦ rw (h, f) k
  | inr f ↦ rw (h, f) (find?-lines name us es hs)
]

count_lines :
    (name : Text) (us : List User) (es : List Entry)
    → AllLines us es
    → length (filter (λ l. text_eq (key l) name) (dovecot_lines es))
      ≡ length (users_by_email name us)
unfolding AllLines LineOf
count_lines name [] [] h = refl
count_lines name [] (e ∷ es) h = elim h [ ]
count_lines name (u ∷ us) [] h = elim h [ ]
count_lines name (u ∷ us) (e ∷ es) ((h, k), hs) = elim (Bool-cases (text_eq u.email name)) [
  | inl f ↦ rw (h, f) (ap suc (count_lines name us es hs))
  | inr f ↦ rw (h, f) (count_lines name us es hs)
]

OneLine-insert_sorted :
    (l : Text) (ls : List Text)
    → contains_byte b'\n' l ≡ false
    → OneLine ls
    → OneLine (insert_sorted text_lt l ls)
unfolding insert_sorted
OneLine-insert_sorted l [] h hs = (h, tt)
OneLine-insert_sorted l (m ∷ ls) h (k, hs) = elim (Bool-cases (text_lt m l)) [
  | inl e ↦ rw e (k, OneLine-insert_sorted l ls h hs)
  | inr e ↦ rw e (h, (k, hs))
]

OneLine-sort : (ls : List Text) → OneLine ls → OneLine (sort text_lt ls)
unfolding sort
OneLine-sort [] h = tt
OneLine-sort (l ∷ ls) (h, hs) = OneLine-insert_sorted l (sort text_lt ls) h (OneLine-sort ls hs)

-- An empty list makes a file of one empty line, which has no name.
find?-file_of :
    (c : ℕ) (n : Text) (ls : List Text)
    → OneLine ls
    → find? (λ l. text_eq (key l) (c ∷ n)) (complete_lines (file_of ls))
      ≡ find? (λ l. text_eq (key l) (c ∷ n)) ls
unfolding complete_lines split join cut text_eq key
find?-file_of c n [] h = refl
find?-file_of c n (l ∷ ls) h = ap (find? (λ m. text_eq (key m) (c ∷ n))) (lines-file_of l ls h)

abbrev by_email : List User → List User
by_email = sort (λ u v. text_lt u.email v.email)

lookup-dovecot_file :
    (c : ℕ) (n : Text) (us : List User) (es : List Entry)
    → AllLines us es
    → length (users_by_email (c ∷ n) us) ≤ 1
    → OneLine (dovecot_lines es)
    → passwd_lookup (dovecot_file es) (c ∷ n) ≡ account (c ∷ n) us
unfolding dovecot_file passwd_lookup second_field
lookup-dovecot_file c n us es a once h =
    ap second_field (
      find?-file_of c n (sort text_lt (dovecot_lines es)) (OneLine-sort (dovecot_lines es) h)
      ∙ find?-sort text_lt (λ l. text_eq (key l) (c ∷ n)) (dovecot_lines es)
          (omega (arith, once, count_lines (c ∷ n) us es a)))
    ∙ find?-lines (c ∷ n) us es a

NoColon-insert :
    (u : User) (us : List User)
    → contains_byte b':' u.email ≡ false
    → contains_byte b':' u.password_hash ≡ false
    → NoColon us
    → NoColon (insert_sorted (λ u v. text_lt u.email v.email) u us)
unfolding insert_sorted NoColon
NoColon-insert u [] h k n = (h, k, tt)
NoColon-insert u (v ∷ us) h k (i, j, n) = elim (Bool-cases (text_lt v.email u.email)) [
  | inl e ↦ rw e (i, j, NoColon-insert u us h k n)
  | inr e ↦ rw e (h, k, (i, j, n))
]

NoColon-sort : (us : List User) → NoColon us → NoColon (by_email us)
unfolding sort NoColon
NoColon-sort [] n = tt
NoColon-sort (u ∷ us) (h, k, n) = NoColon-insert u (by_email us) h k (NoColon-sort us n)

-- The file written for Dovecot is the table of users: looking a name up in it gives the password of
-- the user with that address, and nothing where there is none. The name is not empty, the table has
-- it at most once, no address and no hash has a colon, and no line of the file has a line break.
pub passwd_lookup-account :
    (cfg : ExportConfig) (us : List User) (d : Disk)
    (on : OnDisk cfg (sort (λ u v. text_lt u.email v.email) us) d) (c : ℕ) (n : Text)
    → NoColon us
    → OneLine (dovecot_lines on.made)
    → length (users_by_email (c ∷ n) us) ≤ 1
    → (file : Text) × (d.dovecot_users ≡ some file)
      × (passwd_lookup file (c ∷ n) ≡ account (c ∷ n) us)
unfolding account
passwd_lookup-account cfg us d on c n clean lines once =
    let p : User → Bool = λ u. text_eq u.email (c ∷ n) in
    let lt : User → User → Bool = λ u v. text_lt u.email v.email in
    (
      dovecot_file on.made,
      on.users_file,
      lookup-dovecot_file c n (sort lt us) on.made
            (entries-AllLines cfg (sort lt us) on.made (NoColon-sort us clean) on.of_users)
            (omega (arith, once, count-sort lt p us)) lines
          ∙ ap password_of (find?-sort lt p us once),
    )
