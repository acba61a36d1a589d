-- ===== src/Syncer/Tests.antt =====
-- An export at a concrete table of users, and the theorems at it.
use ucware_mail_server.Base.{◌≡◌, refl, none, some, ◌==◌, if◌then◌else◌, List, [], ◌∷◌, arith}
use ucware_mail_server.Text.{Text, codes, text_eq, contains_byte}
use ucware_mail_server.Text.Numbers.{pos}
use ucware_mail_server.Text.Order.{sort, text_lt}
use ucware_mail_server.Sql.{Result, ok, err}
use ucware_mail_server.Store.Types.{User}
use ucware_mail_server.Syncer.{ExportConfig, Disk, Entry, entries, export, dovecot_file}
use ucware_mail_server.Syncer.Atomic.{OnDisk, Exports, export-Exports}
use ucware_mail_server.Syncer.Lookup.{account, passwd_lookup, passwd_lookup-account}

abbrev cfg : ExportConfig
cfg = record { mail_root = codes "/var/mail"; mail_uid = pos 5000; mail_gid = pos 5000 }

abbrev user_of : Text → Text → User
user_of email hash = record { email = email; password_hash = hash; created_at = 0 }

abbrev us : List User
us = user_of (codes "bo@x") (codes "h2") ∷ user_of (codes "al@x") (codes "h1") ∷ []

abbrev empty : Disk
empty = record {
  dovecot_users = none;
  postfix_mailbox_maps = none;
  postfix_domains = none;
  calls = 0;
}

abbrev exported : Disk
exported = (export (λ n. none) cfg (sort (λ u v. text_lt u.email v.email) us) empty).1

exported_files :
    (exported.dovecot_users
      ≡ some (
          codes
            "al@x:{BLF-CRYPT}h1:5000:5000::/var/mail/x/al::\nbo@x:{BLF-CRYPT}h2:5000:5000::/var/mail/x/bo::\n"))
    × (exported.postfix_mailbox_maps ≡ some (codes "al@x x/al/\nbo@x x/bo/\n"))
    × (exported.postfix_domains ≡ some (codes "x\n"))
unfolding export
exported_files = (refl, refl, refl)

made_of : Result (List Entry) → List Entry
made_of (ok es) = es
made_of (err _) = []

abbrev made : List Entry
unfolding entries made_of sort text_lt
made = made_of (entries cfg (sort (λ u v. text_lt u.email v.email) us))

abbrev exported-OnDisk : OnDisk cfg (sort (λ u v. text_lt u.email v.email) us) exported
unfolding export made entries dovecot_file
exported-OnDisk = record {
  made = made;
  of_users = refl;
  users_file = refl;
  maps_file = refl;
  domains = refl;
}

passwd_lookup-account_example :
    (file : Text) × (exported.dovecot_users ≡ some file)
    × (passwd_lookup file (codes "bo@x") ≡ account (codes "bo@x") us)
unfolding contains_byte made text_eq exported-OnDisk
passwd_lookup-account_example =
    passwd_lookup-account cfg us exported exported-OnDisk b'b' (codes "o@x")
      (refl, refl, (refl, refl, tt)) (refl, (refl, tt)) (omega arith)

export-Exports_example :
    Exports cfg us empty
      (export (λ n. if n == 9 then some (codes "disk full") else none) cfg us empty)
export-Exports_example =
    export-Exports (λ n. if n == 9 then some (codes "disk full") else none) cfg us empty
