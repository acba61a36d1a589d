-- ===== src/Pop3/Serve/Frame.antt =====
-- What the commands of the TRANSACTION state leave alone.
use ucware_mail_server.Base.{
  ℕ, ◌≡◌, ◌≢◌, refl, inl, inr, Option, none, some, List, Bool-cases, Option-cases,
}
use ucware_mail_server.Text.{Text, is_empty, contains_byte}
use ucware_mail_server.Text.Numbers.{ℤ, pos, negsuc}
use ucware_mail_server.Sql.{Result, ok, err}
use ucware_mail_server.Archive.{Message, Archive, get_message}
use ucware_mail_server.Archive.Reads.{SameTables, same_refl, get_message-SameTables}
use ucware_mail_server.Pop3.Maildrop.{Msg, parse_index, mark, unmark_all}
use ucware_mail_server.Pop3.Maildrop.Numbers.{
  parse_index-eq-some_iff, unmark_all-mark, unmark_all-unmark_all,
}
use ucware_mail_server.Pop3.Session.{Env, Session}
use ucware_mail_server.Pop3.Serve.{
  Verb, user, pass, quit, stats, list, uidl, retr, top, dele, rset, noop, unknown, txn_step,
  retr_step, top_at, deleted_at, list_one, retrieved, topped,
}

-- `unmark_all` of the maildrop is the snapshot that was taken at login.
pub record Frame (s t : Session) : Type 0 where
  pub phase_same : t.phase ≡ s.phase
  pub fails_same : t.auth_fails ≡ s.auth_fails
  pub user_same : t.user_email ≡ s.user_email
  pub store_same : t.store ≡ s.store
  pub tables : SameTables t.archive s.archive
  pub snapshot : unmark_all t.messages ≡ unmark_all s.messages

abbrev framed : (s : Session) (ms : List Msg) (a : Archive) (out : List Text) → Session
framed s ms a out = record s { messages = ms; archive = a; out = out }

frame :
    (s : Session) (ms : List Msg) (a : Archive) (out : List Text)
    → SameTables a s.archive
    → unmark_all ms ≡ unmark_all s.messages
    → Frame s (framed s ms a out)
frame s ms a out h e = record {
  phase_same = refl;
  fails_same = refl;
  user_same = refl;
  store_same = refl;
  tables = h;
  snapshot = e;
}

said : (s : Session) (out : List Text) → Frame s (record s { out = out })
said s out = frame s s.messages s.archive out (same_refl s.archive) refl

list_one-Frame :
    (show : Msg → Text) (s : Session) (o : Option (ℕ × Msg)) → Frame s (list_one show s o)
unfolding list_one
list_one-Frame show s none = said s _
list_one-Frame show s (some (idx, m)) = said s _

retrieved-Frame :
    (s : Session) (a : Archive) (r : Result Message)
    → SameTables a s.archive
    → Frame s (retrieved (record s { archive = a }) r)
unfolding retrieved
retrieved-Frame s a (err e) h = frame s s.messages a _ h refl
retrieved-Frame s a (ok m) h = frame s s.messages a _ h refl

topped-Frame :
    (n : ℕ) (s : Session) (a : Archive) (r : Result Message)
    → SameTables a s.archive
    → Frame s (topped n (record s { archive = a }) r)
unfolding topped
topped-Frame n s a (err e) h = frame s s.messages a _ h refl
topped-Frame n s a (ok m) h = frame s s.messages a _ h refl

deleted_at-Frame : (s : Session) (raw : Text) → Frame s (deleted_at s (parse_index raw s.messages))
unfolding deleted_at
deleted_at-Frame s raw = elim (Option-cases (parse_index raw s.messages)) [
  | inl e ↦ rw (e, deleted_at) (said s _)
  | inr ((idx, m), e) ↦
      rw (e, deleted_at)
        (frame s (mark idx m s.messages) s.archive _ (same_refl s.archive)
          (unmark_all-mark s.messages idx m ((parse_index-eq-some_iff raw s.messages idx m).0 e).1))
]

module _ (env : Env) where
  retr_step-Frame : (s : Session) (o : Option (ℕ × Msg)) → Frame s (retr_step env s o)
  unfolding retr_step
  retr_step-Frame s none = said s _
  retr_step-Frame s (some (idx, m)) =
      retrieved-Frame s (get_message env.sql m.id s.archive).1 _
        (get_message-SameTables env.sql m.id s.archive)

  top_at-Frame : (s : Session) (o : Option (ℕ × Msg)) (n : Option ℤ) → Frame s (top_at env s o n)
  unfolding top_at
  top_at-Frame s (some (idx, m)) (some (pos n)) =
      topped-Frame n s (get_message env.sql m.id s.archive).1 _
        (get_message-SameTables env.sql m.id s.archive)
  top_at-Frame s (some (idx, m)) (some (negsuc n)) = said s _
  top_at-Frame s (some (idx, m)) none = said s _
  top_at-Frame s none n = said s _

  -- No command of the TRANSACTION state but `QUIT` touches the mailboxes and messages of the
  -- archive, the user store, the state or the user, and the snapshot of the maildrop stays: `DELE`
  -- and `RSET` only change marks.
  pub txn_step-Frame :
      (v : Verb) (arg : Text) (s : Session) → v ≢ quit → Frame s (txn_step env v arg s)
  unfolding txn_step
  txn_step-Frame stats arg s n = said s _
  txn_step-Frame list arg s n = elim (Bool-cases (is_empty arg)) [
    | inl e ↦ rw e (said s _)
    | inr e ↦ rw e (list_one-Frame _ s _)
  ]
  txn_step-Frame uidl arg s n = elim (Bool-cases (is_empty arg)) [
    | inl e ↦ rw e (said s _)
    | inr e ↦ rw e (list_one-Frame _ s _)
  ]
  txn_step-Frame retr arg s n = retr_step-Frame s _
  txn_step-Frame top arg s n = elim (Bool-cases (contains_byte b' ' arg)) [
    | inl e ↦ rw e (top_at-Frame s _ _)
    | inr e ↦ rw e (said s _)
  ]
  txn_step-Frame dele arg s n = deleted_at-Frame s arg
  txn_step-Frame rset arg s n =
      frame s (unmark_all s.messages) s.archive _ (same_refl s.archive)
        (unmark_all-unmark_all s.messages)
  txn_step-Frame noop arg s n = said s _
  txn_step-Frame quit arg s n = absurd (n refl)
  txn_step-Frame user arg s n = said s _
  txn_step-Frame pass arg s n = said s _
  txn_step-Frame unknown arg s n = said s _
