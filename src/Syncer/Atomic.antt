-- ===== src/Syncer/Atomic.antt =====
-- What `Export` of cmd/mail-admin/app/internal/syncer/exporter.go leaves on the disk.
use ucware_mail_server.Base.{ℕ, ◌≡◌, inl, inr, refl, ◌∙◌, Option, some, List, Option-cases}
use ucware_mail_server.Text.{Text}
use ucware_mail_server.Sql.{Result, ok, err, Exec, and_then, ◌>>◌, modify, Result-cases}
use ucware_mail_server.Store.Types.{User}
use ucware_mail_server.Syncer.{
  ExportConfig, Disk, Entry, entries, io, write_atomically, write_files, write_all, export,
  dovecot_file, mailbox_file, domains_file,
}

pub record SameFiles (d d' : Disk) : Type 0 where
  pub same_users : d'.dovecot_users ≡ d.dovecot_users
  pub same_maps : d'.postfix_mailbox_maps ≡ d.postfix_mailbox_maps
  pub same_domains : d'.postfix_domains ≡ d.postfix_domains

-- The files are those of the users.
pub record OnDisk (cfg : ExportConfig) (us : List User) (d : Disk) : Type 0 where
  pub made : List Entry
  pub of_users : entries cfg us ≡ ok made
  pub users_file : d.dovecot_users ≡ some (dovecot_file made)
  pub maps_file : d.postfix_mailbox_maps ≡ some (mailbox_file made)
  pub domains : d.postfix_domains ≡ some (domains_file made)

-- An export that has failed: no file is written, or the first, or the first two.
pub data Stopped (cfg : ExportConfig) (us : List User) (d d' : Disk) : Type 0 where
  no_file : SameFiles d d' → Stopped cfg us d d'
  one_file :
      (es : List Entry)
      → entries cfg us ≡ ok es
      → SameFiles (record d { dovecot_users = some (dovecot_file es) }) d'
      → Stopped cfg us d d'
  two_files :
      (es : List Entry)
      → entries cfg us ≡ ok es
      → SameFiles
          (record d {
            dovecot_users = some (dovecot_file es);
            postfix_mailbox_maps = some (mailbox_file es);
          })
          d'
      → Stopped cfg us d d'

abbrev pub Exports : ExportConfig → List User → Disk → Result (Unit {0}) × Disk → Type 0
Exports cfg us d (ok _, d') = OnDisk cfg us d'
Exports cfg us d (err e, d') = Stopped cfg us d d'

-- The files after a step that has succeeded, and after one that has failed.
abbrev Steps : (Disk → Type 0) → (Disk → Type 0) → Result (Unit {0}) × Disk → Type 0
Steps P F (ok _, d) = P d
Steps P F (err e, d) = F d

and_then-Steps :
    (P Q F : Disk → Type 0) (k : Exec Disk (Unit {0})) (r : Result (Unit {0}) × Disk)
    → Steps P F r
    → ((d : Disk) → P d → Steps Q F (k d))
    → Steps Q F (and_then r (λ _. k))
and_then-Steps P Q F k (ok tt, d) h g = g d h
and_then-Steps P Q F k (err e, d) h g = h

weaken :
    (P F G : Disk → Type 0) (r : Result (Unit {0}) × Disk)
    → ((d : Disk) → F d → G d)
    → Steps P F r
    → Steps P G r
weaken P F G (ok tt, d) h k = k
weaken P F G (err e, d) h k = h d k

Steps-of : (P : Disk → Type 0) (r : Result (Unit {0}) × Disk) → P r.1 → Steps P P r
Steps-of P (ok tt, d) h = h
Steps-of P (err e, d) h = h

SameFiles-refl : (d : Disk) → SameFiles d d
SameFiles-refl d = record { same_users = refl; same_maps = refl; same_domains = refl }

SameFiles-trans : (d e f : Disk) → SameFiles d e → SameFiles e f → SameFiles d f
SameFiles-trans d e f h k = record {
  same_users = k.same_users ∙ h.same_users;
  same_maps = k.same_maps ∙ h.same_maps;
  same_domains = k.same_domains ∙ h.same_domains;
}

module _ (fault : ℕ → Option Text) where
  io-SameFiles : (e : Disk) → SameFiles e (io fault e).1
  unfolding io
  io-SameFiles e = elim (Option-cases (fault e.calls)) [
    | inl f ↦ rw (f, io) (record { same_users = refl; same_maps = refl; same_domains = refl })
    | inr (why, f) ↦
        rw (f, io) (record { same_users = refl; same_maps = refl; same_domains = refl })
  ]

  io-Steps : (d e : Disk) → SameFiles d e → Steps (SameFiles d) (SameFiles d) (io fault e)
  io-Steps d e h =
      Steps-of (SameFiles d) (io fault e) (SameFiles-trans d e (io fault e).1 h (io-SameFiles e))

  -- A step that keeps the files, before others.
  io_then :
      (d e : Disk) (Q F : Disk → Type 0) (k : Exec Disk (Unit {0}))
      → SameFiles d e
      → ((e' : Disk) → SameFiles d e' → F e')
      → ((e' : Disk) → SameFiles d e' → Steps Q F (k e'))
      → Steps Q F ((io fault >> k) e)
  io_then d e Q F k h f g =
      and_then-Steps (SameFiles d) Q F k (io fault e)
        (weaken (SameFiles d) (SameFiles d) F (io fault e) f (io-Steps d e h)) g

  write_atomically-Steps :
      (d e : Disk) (put : Disk → Disk) (Q : Disk → Type 0)
      → SameFiles d e
      → ((e' : Disk) → SameFiles d e' → Q (put e'))
      → Steps Q (SameFiles d) (write_atomically fault put e)
  unfolding write_atomically
  write_atomically-Steps d e put Q h g =
      io_then d e Q (SameFiles d) _ h (λ f s. s)
        λ e1 h1.
          io_then d e1 Q (SameFiles d) _ h1 (λ f s. s)
            λ e2 h2.
              io_then d e2 Q (SameFiles d) _ h2 (λ f s. s)
                λ e3 h3.
                  io_then d e3 Q (SameFiles d) _ h3 (λ f s. s)
                    λ e4 h4.
                      io_then d e4 Q (SameFiles d) (modify put) h4 (λ f s. s) λ e5 h5. g e5 h5

  -- The disk with the first file, and with the first two.
  abbrev with_users : List Entry → Disk → Disk
  with_users es d = record d { dovecot_users = some (dovecot_file es) }

  abbrev with_maps : List Entry → Disk → Disk
  with_maps es d = record d { postfix_mailbox_maps = some (mailbox_file es) }

  abbrev with_domains : List Entry → Disk → Disk
  with_domains es d = record d { postfix_domains = some (domains_file es) }

  users_put :
      (es : List Entry) (d e : Disk) → SameFiles d e → SameFiles (with_users es d) (with_users es e)
  users_put es d e h = record {
    same_users = refl;
    same_maps = h.same_maps;
    same_domains = h.same_domains;
  }

  maps_put :
      (es : List Entry) (d e : Disk) → SameFiles d e → SameFiles (with_maps es d) (with_maps es e)
  maps_put es d e h = record {
    same_users = h.same_users;
    same_maps = refl;
    same_domains = h.same_domains;
  }

  domains_put :
      (es : List Entry) (d e : Disk)
      → SameFiles d e
      → SameFiles (with_domains es d) (with_domains es e)
  domains_put es d e h = record {
    same_users = h.same_users;
    same_maps = h.same_maps;
    same_domains = refl;
  }

  module _ (cfg : ExportConfig) (us : List User) (es : List Entry)
      (of : entries cfg us ≡ ok es) where
    written_OnDisk :
        (d e : Disk)
        → SameFiles (with_domains es (with_maps es (with_users es d))) e
        → OnDisk cfg us e
    written_OnDisk d e h = record {
      made = es;
      of_users = of;
      users_file = h.same_users;
      maps_file = h.same_maps;
      domains = h.same_domains;
    }

    write_files-Steps :
        (d e : Disk)
        → SameFiles d e
        → Steps (OnDisk cfg us) (Stopped cfg us d) (write_files fault es e)
    unfolding write_files
    write_files-Steps d e h =
        let d1 = with_users es d in
        let d2 = with_maps es d1 in
        and_then-Steps (SameFiles d1) (OnDisk cfg us) (Stopped cfg us d) _
          (write_atomically fault (with_users es) e)
          (weaken (SameFiles d1) (SameFiles d) (Stopped cfg us d)
            (write_atomically fault (with_users es) e) (λ f s. no_file s)
            (write_atomically-Steps d e (with_users es) (SameFiles d1) h (users_put es d)))
          λ e1 h1.
            and_then-Steps (SameFiles d2) (OnDisk cfg us) (Stopped cfg us d) _
              (write_atomically fault (with_maps es) e1)
              (weaken (SameFiles d2) (SameFiles d1) (Stopped cfg us d)
                (write_atomically fault (with_maps es) e1) (λ f s. one_file es of s)
                (write_atomically-Steps d1 e1 (with_maps es) (SameFiles d2) h1 (maps_put es d1)))
              λ e2 h2.
                weaken (OnDisk cfg us) (SameFiles d2) (Stopped cfg us d)
                  (write_atomically fault (with_domains es) e2) (λ f s. two_files es of s)
                  (write_atomically-Steps d2 e2 (with_domains es) (OnDisk cfg us) h2
                    λ f s. written_OnDisk d (with_domains es f) (domains_put es d2 f s))

  write_all-Steps :
      (cfg : ExportConfig) (us : List User) (d e : Disk)
      → SameFiles d e
      → Steps (OnDisk cfg us) (Stopped cfg us d) (write_all fault (entries cfg us) e)
  unfolding write_all
  write_all-Steps cfg us d e h = elim (Result-cases (entries cfg us)) [
    | inl (es, f) ↦ rw f (write_files-Steps cfg us es f d e h)
    | inr (why, f) ↦ rw f (no_file h)
  ]

  export-Steps :
      (cfg : ExportConfig) (us : List User) (d : Disk)
      → Steps (OnDisk cfg us) (Stopped cfg us d) (export fault cfg us d)
  unfolding export
  export-Steps cfg us d =
      let stop : (f : Disk) → SameFiles d f → Stopped cfg us d f = λ f s. no_file s in
      io_then d d (OnDisk cfg us) (Stopped cfg us d) _ (SameFiles-refl d) stop λ e1 h1.
        io_then d e1 (OnDisk cfg us) (Stopped cfg us d) _ h1 stop λ e2 h2.
          io_then d e2 (OnDisk cfg us) (Stopped cfg us d) _ h2 stop
            λ e3 h3. write_all-Steps cfg us d e3 h3

  -- An export that succeeds leaves the three files of the users. One that fails has written none of
  -- them, or the first, or the first two, and leaves the others as they were: no file is in part.
  pub export-Exports :
      (cfg : ExportConfig) (us : List User) (d : Disk) → Exports cfg us d (export fault cfg us d)
  export-Exports cfg us d = exports (export fault cfg us d) (export-Steps cfg us d)
    where
      exports :
          (r : Result (Unit {0}) × Disk)
          → Steps (OnDisk cfg us) (Stopped cfg us d) r
          → Exports cfg us d r
      exports (ok tt, e) h = h
      exports (err why, e) h = h
