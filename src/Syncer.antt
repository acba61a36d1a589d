-- ===== src/Syncer.antt =====
-- cmd/mail-admin/app/internal/syncer/exporter.go: the files of Dovecot and Postfix, made from the
-- users. The disk has the contents of the three files, which are taken to be different, and counts
-- the calls of the file system; `fault` says which of them fail.
pub mod Atomic
pub mod Lookup
mod Tests
use ucware_mail_server.Base.{
  ℕ, ◌+◌, Bool, true, false, Option, none, some, List, [], ◌∷◌, ◌++◌, map, if◌then◌else◌,
}
use ucware_mail_server.Text.{Text, codes, text_eq}
use ucware_mail_server.Text.Lines.{split, join}
use ucware_mail_server.Text.Numbers.{ℤ, format_int, format_signed}
use ucware_mail_server.Text.Order.{text_lt, sort}
use ucware_mail_server.Text.Path.{join_path}
use ucware_mail_server.Sql.{failed, Result, ok, err, Exec, modify, ◌>>=◌, ◌>>◌}
use ucware_mail_server.Store.Types.{User}

pub record ExportConfig : Type 0 where
  pub mail_root : Text
  pub mail_uid : ℤ
  pub mail_gid : ℤ

pub record Disk : Type 0 where
  pub dovecot_users : Option Text
  pub postfix_mailbox_maps : Option Text
  pub postfix_domains : Option Text
  pub calls : ℕ

-- What the loop makes of one user.
pub record Entry : Type 0 where
  pub dovecot_line : Text
  pub mailbox_line : Text
  pub domain : Text

entry_of : ExportConfig → User → Text → Text → Entry
unfolding format_int join_path
entry_of cfg u local domain = record {
  dovecot_line =
      u.email
      ++ (codes ":{BLF-CRYPT}"
          ++ (u.password_hash
              ++ (codes ":"
                  ++ (format_signed cfg.mail_uid
                      ++ (codes ":"
                          ++ (format_signed cfg.mail_gid
                              ++ (codes "::"
                                  ++ (join_path (cfg.mail_root ∷ domain ∷ local ∷ [])
                                      ++ codes "::"))))))));
  mailbox_line = u.email ++ (codes " " ++ (join_path (domain ∷ local ∷ []) ++ codes "/"));
  domain = domain;
}

entry : ExportConfig → User → List Text → Result Entry
unfolding entry_of
entry cfg u (local ∷ domain ∷ []) = ok (entry_of cfg u local domain)
entry cfg u _ = err (failed (codes "invalid email in store: " ++ u.email))

abbrev pub cons_ok : {A : Type 0} → Result A → Result (List A) → Result (List A)
cons_ok (ok a) (ok rest) = ok (a ∷ rest)
cons_ok (ok a) (err e) = err e
cons_ok (err e) _ = err e

-- The loop over the users, up to the first email without exactly one `@`.
unfoldable pub entries : ExportConfig → List User → Result (List Entry)
unfolding entry split
entries cfg [] = ok []
entries cfg (u ∷ us) = let rest = entries cfg us in cons_ok (entry cfg u (split b'@' u.email)) rest

abbrev pub mem_text : Text → List Text → Bool
mem_text t [] = false
mem_text t (u ∷ us) = if text_eq u t then true else mem_text t us

-- The keys of `domainsSet`.
unfoldable pub distinct : List Text → List Text
unfolding text_eq
distinct [] = []
distinct (t ∷ ts) = let rest = distinct ts in if mem_text t rest then rest else t ∷ rest

abbrev pub file_of : List Text → Text
unfolding join
file_of lines = join (codes "\n") lines ++ codes "\n"

abbrev pub sorted_file : List Text → Text
sorted_file lines = file_of (sort text_lt lines)

unfoldable pub dovecot_file : List Entry → Text
unfolding sort text_lt
dovecot_file es = sorted_file (map (λ e. e.dovecot_line) es)

unfoldable pub mailbox_file : List Entry → Text
unfolding sort text_lt
mailbox_file es = sorted_file (map (λ e. e.mailbox_line) es)

unfoldable pub domains_file : List Entry → Text
unfolding sort text_lt distinct
domains_file es = sorted_file (distinct (map (λ e. e.domain) es))

module _ (fault : ℕ → Option Text) where
  -- A call of the file system.
  unfoldable pub io : Exec Disk (Unit {0})
  io d = elim (fault d.calls) [
    | none ↦ (ok tt, record d { calls = d.calls + 1 })
    | some why ↦ (err (failed why), record d { calls = d.calls + 1 })
  ]

  -- A temporary file is made, written, given its mode, closed, and renamed to the path; before the
  -- last of these calls has succeeded the file is as it was.
  unfoldable pub write_atomically : (Disk → Disk) → Exec Disk (Unit {0})
  unfolding io
  write_atomically put = do io; io; io; io; io; modify put

  -- The three files, in this order.
  unfoldable pub write_files : List Entry → Exec Disk (Unit {0})
  unfolding write_atomically dovecot_file mailbox_file domains_file
  write_files es = do
    write_atomically (λ d. record d { dovecot_users = some (dovecot_file es) })
    write_atomically (λ d. record d { postfix_mailbox_maps = some (mailbox_file es) })
    write_atomically (λ d. record d { postfix_domains = some (domains_file es) })

  write_all : Result (List Entry) → Exec Disk (Unit {0})
  unfolding write_files
  write_all (ok es) d = write_files es d
  write_all (err e) d = (err e, d)

  unfoldable pub export : ExportConfig → List User → Exec Disk (Unit {0})
  unfolding io entries write_all
  export cfg users = do io; io; io; write_all (entries cfg users)
