-- ===== src/Pop3/Session/Commit.antt =====
-- The UPDATE state: what `commitDeletions` removes from the archive.
use ucware_mail_server.Base.{
  ℕ, ◌≡◌, refl, sym, ap, ◌∙◌, inl, inr, Bool, true, false, not, ◌&&◌, ◌||◌, none, List, [], ◌∷◌,
  arith, if◌then◌else◌, filter, filter-filter, filter_all, filter_cong, Bool-cases, Option-cases,
}
use ucware_mail_server.Text.{text_eq, trim_space}
use ucware_mail_server.Sql.{delete_where}
use ucware_mail_server.Archive.{Message, Archive, delete_message}
use ucware_mail_server.Archive.Reads.{delete_message-messages, delete_message_fault}
use ucware_mail_server.Pop3.Maildrop.{Msg}
use ucware_mail_server.Pop3.Session.{Env, commit_deletions}

-- A row whose identifier a marked message names.
abbrev pub is_doomed : List Msg → Message → Bool
is_doomed [] x = false
is_doomed (m ∷ ms) x = (m.deleted && text_eq x.id (trim_space m.id)) || is_doomed ms x

abbrev pub survivors : List Msg → List Message → List Message
survivors ms = filter (λ x. not (is_doomed ms x))

abbrev spares : Msg → Message → Bool
spares m x = not (is_doomed (m ∷ []) x)

survivors-cons :
    (m : Msg) (ms : List Msg) (xs : List Message)
    → survivors (m ∷ ms) xs ≡ filter (spares m) (survivors ms xs)
survivors-cons m ms xs = sym (
    filter-filter (spares m) (λ x. not (is_doomed ms x)) (λ x. not (is_doomed (m ∷ ms) x)) xs
      (λ x. ground arith))

survivors-filter :
    (m : Msg) (ms : List Msg) (xs : List Message)
    → survivors ms (filter (spares m) xs) ≡ survivors (m ∷ ms) xs
survivors-filter m ms xs =
    filter-filter (λ x. not (is_doomed ms x)) (spares m) (λ x. not (is_doomed (m ∷ ms) x)) xs
      (λ x. ground arith)

survivors_unmarked :
    (m : Msg) (ms : List Msg) (xs : List Message)
    → m.deleted ≡ false
    → survivors (m ∷ ms) xs ≡ survivors ms xs
survivors_unmarked m ms xs d =
    filter_cong (λ x. not (is_doomed (m ∷ ms) x)) (λ x. not (is_doomed ms x)) xs (λ x. ground arith)

filter-spares_idem :
    (m : Msg) (xs : List Message) → filter (spares m) (filter (spares m) xs) ≡ filter (spares m) xs
filter-spares_idem m xs = filter-filter (spares m) (spares m) (spares m) xs (λ x. ground arith)

doomed_eq :
    (m : Msg) (xs : List Message)
    → m.deleted ≡ true
    → delete_where (λ x. text_eq x.id (trim_space m.id)) xs ≡ filter (spares m) xs
doomed_eq m xs d =
    filter_cong (λ x. not (text_eq x.id (trim_space m.id))) (spares m) xs (λ x. ground arith)

module _ (env : Env) where
  -- The archive after the deletion of one entry of the maildrop.
  abbrev after_one : Bool → Msg → Archive → Archive
  after_one b m a = if b then (delete_message env.sql m.id a).1 else a

  one-messages :
      (m : Msg) (a : Archive)
      → env.sql.fault a.statements ≡ none
      → (after_one m.deleted m a).messages ≡ filter (spares m) a.messages
  one-messages m a e = elim (Bool-cases m.deleted) [
    | inl d ↦
        ap (λ b. (after_one b m a).messages) d
        ∙ delete_message-messages env.sql m.id a e
        ∙ doomed_eq m a.messages d
    | inr d ↦
        ap (λ b. (after_one b m a).messages) d
        ∙ sym (filter_all (spares m) a.messages (λ x. ground arith))
  ]

  -- Where the database fails no statement, the commit leaves exactly the messages that no marked
  -- entry of the maildrop names, in their order.
  pub commit_deletions-messages :
      (ms : List Msg) (a : Archive)
      → ((n : ℕ) → env.sql.fault n ≡ none)
      → (commit_deletions env ms a).messages ≡ survivors ms a.messages
  unfolding commit_deletions
  commit_deletions-messages [] a h = sym (filter_all (λ x. true) a.messages (λ x. refl))
  commit_deletions-messages (m ∷ ms) a h =
      commit_deletions-messages ms (after_one m.deleted m a) h
      ∙ ap (survivors ms) (one-messages m a (h a.statements))
      ∙ survivors-filter m ms a.messages

  one-spared :
      (m : Msg) (a : Archive)
      → filter (spares m) (after_one m.deleted m a).messages ≡ filter (spares m) a.messages
  one-spared m a = elim (Option-cases (env.sql.fault a.statements)) [
    | inl e ↦ ap (filter (spares m)) (one-messages m a e) ∙ filter-spares_idem m a.messages
    | inr (why, e) ↦ elim (Bool-cases m.deleted) [
      | inl d ↦
          ap (λ b. filter (spares m) (after_one b m a).messages) d
          ∙ ap (filter (spares m)) (delete_message_fault env.sql m.id a e)
      | inr d ↦ ap (λ b. filter (spares m) (after_one b m a).messages) d
    ]
  ]

  -- Whatever statements fail, the commit removes no message but those that marked entries name.
  pub survivors-commit_deletions :
      (ms : List Msg) (a : Archive)
      → survivors ms (commit_deletions env ms a).messages ≡ survivors ms a.messages
  unfolding commit_deletions
  survivors-commit_deletions [] a = refl
  survivors-commit_deletions (m ∷ ms) a =
      survivors-cons m ms (commit_deletions env ms (after_one m.deleted m a)).messages
      ∙ ap (filter (spares m)) (survivors-commit_deletions ms (after_one m.deleted m a))
      ∙ sym (survivors-cons m ms (after_one m.deleted m a).messages)
      ∙ sym (survivors-filter m ms (after_one m.deleted m a).messages)
      ∙ ap (survivors ms) (one-spared m a)
      ∙ survivors-filter m ms a.messages
