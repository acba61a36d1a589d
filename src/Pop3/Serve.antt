-- ===== src/Pop3/Serve.antt =====
-- `serve` of cmd/mail-admin/app/pop3_server.go: one line is one command. Idle timeouts and broken
-- connections end the input early, which is one more input here.
pub mod Access
pub mod Frame
use ucware_mail_server.Base.{
  ℕ, ◌+◌, true, false, not, ◌||◌, Option, none, some, List, [], ◌∷◌, ◌++◌, if◌then◌else◌,
}
use ucware_mail_server.Text.{
  Text, codes, text_eq, is_empty, to_lower, to_upper, trim_space, trim_eol, cut, contains_byte,
}
use ucware_mail_server.Text.Numbers.{ℤ, pos, negsuc, format_int, atoi}
use ucware_mail_server.Text.Lines.{complete_lines}
use ucware_mail_server.Sql.{Result, ok, err}
use ucware_mail_server.Store.Types.{Store}
use ucware_mail_server.Archive.{Message, Archive, get_message}
use ucware_mail_server.Pop3.Maildrop.{Msg, stat, parse_index, mark, unmark_all}
use ucware_mail_server.Pop3.Wire.{dot_data, top_lines, final_dot, crlf}
use ucware_mail_server.Pop3.Session.{
  Env, Phase, auth, txn, closed, Session, write, reply_ok, reply_err, close, log_in,
  commit_deletions,
}

pub data Verb : Type 0 where
  user pass quit stats list uidl retr top dele rset noop unknown : Verb

-- The labels of the two `switch` statements.
unfoldable pub verb_of : Text → Verb
unfolding text_eq
verb_of v =
    if text_eq v (codes "USER")
    then user
    else if text_eq v (codes "PASS")
    then pass
    else if text_eq v (codes "QUIT")
    then quit
    else if text_eq v (codes "STAT")
    then stats
    else if text_eq v (codes "LIST")
    then list
    else if text_eq v (codes "UIDL")
    then uidl
    else if text_eq v (codes "RETR")
    then retr
    else if text_eq v (codes "TOP")
    then top
    else if text_eq v (codes "DELE")
    then dele
    else if text_eq v (codes "RSET")
    then rset
    else if text_eq v (codes "NOOP")
    then noop
    else unknown

abbrev pub no_such : Session → Session
no_such = reply_err (codes "no such message")

-- The reply `%d %d` or `%d %s`.
abbrev pair : ℕ → Text → Text
pair n t = format_int n ++ (b' ' ∷ t)

-- One line for each message that is not marked, with its number.
unfoldable pub listing : (Msg → Text) → ℕ → List Msg → List Text
unfolding format_int
listing show n [] = []
listing show n (m ∷ ms) =
    let rest = listing show (n + 1) ms in
    if m.deleted then rest else ((pair n (show m)) ++ crlf) ∷ rest

abbrev octets : ℕ × ℕ → Text
octets (n, total) = format_int n ++ (codes " messages (" ++ (format_int total ++ codes " octets)"))

abbrev size_text : Msg → Text
size_text m = format_int m.size

abbrev id_text : Msg → Text
id_text m = m.id

list_one : (Msg → Text) → Session → Option (ℕ × Msg) → Session
unfolding format_int
list_one show s none = no_such s
list_one show s (some (idx, m)) = reply_ok (pair (idx + 1) (show m)) s

retrieved : Session → Result Message → Session
unfolding dot_data format_int
retrieved s (err _) = reply_err (codes "fetch error") s
retrieved s (ok m) =
    write (dot_data m.raw_mime) (reply_ok (format_int m.size_bytes ++ codes " octets") s)

topped : ℕ → Session → Result Message → Session
unfolding dot_data top_lines
topped n s (err _) = reply_err (codes "fetch error") s
topped n s (ok m) = write (dot_data (top_lines m.raw_mime n)) (reply_ok [] s)

deleted_at : Session → Option (ℕ × Msg) → Session
unfolding mark format_int
deleted_at s none = no_such s
deleted_at s (some (idx, m)) =
    reply_ok (codes "message " ++ (format_int (idx + 1) ++ codes " deleted"))
      (record s { messages = mark idx m s.messages })

module _ (env : Env) where
  unfoldable pub auth_step : Verb → Text → Session → Session
  unfolding log_in to_lower
  auth_step user arg s =
      if is_empty arg
      then reply_err (codes "missing username") s
      else reply_ok [] (record s { pending_user = to_lower arg })
  auth_step pass arg s =
      if is_empty s.pending_user
      then reply_err (codes "USER required first") s
      else log_in env s arg
  auth_step quit arg s = close (reply_ok (codes "bye") s)
  auth_step _ arg s = reply_err (codes "unknown command") s

  retr_step : Session → Option (ℕ × Msg) → Session
  unfolding retrieved get_message
  retr_step s none = no_such s
  retr_step s (some (idx, m)) =
      let got = get_message env.sql m.id s.archive in retrieved (record s { archive = got.1 }) got.0

  top_at : Session → Option (ℕ × Msg) → Option ℤ → Session
  unfolding topped get_message
  top_at s (some (idx, m)) (some (pos n)) =
      let got = get_message env.sql m.id s.archive in topped n (record s { archive = got.1 }) got.0
  top_at s _ _ = reply_err (codes "invalid arguments") s

  unfoldable pub txn_step : Verb → Text → Session → Session
  unfolding stat listing list_one parse_index retr_step top_at deleted_at unmark_all
      commit_deletions format_int cut contains_byte
  txn_step stats arg s = reply_ok (pair (stat s.messages).0 (format_int (stat s.messages).1)) s
  txn_step list arg s =
      if is_empty arg
      then write (listing size_text 1 s.messages ++ final_dot ∷ [])
          (reply_ok (octets (stat s.messages)) s)
      else list_one size_text s (parse_index arg s.messages)
  txn_step uidl arg s =
      if is_empty arg
      then write (listing id_text 1 s.messages ++ final_dot ∷ []) (reply_ok [] s)
      else list_one id_text s (parse_index arg s.messages)
  txn_step retr arg s = retr_step s (parse_index arg s.messages)
  txn_step top arg s =
      if not (contains_byte b' ' arg)
      then reply_err (codes "syntax: TOP msg n") s
      else top_at s (parse_index (cut b' ' arg).0 s.messages) (atoi (trim_space (cut b' ' arg).1))
  txn_step dele arg s = deleted_at s (parse_index arg s.messages)
  txn_step rset arg s =
      let ms = unmark_all s.messages in
      reply_ok (codes "maildrop has " ++ octets (stat ms)) (record s { messages = ms })
  txn_step noop arg s = reply_ok [] s
  txn_step quit arg s =
      close
        (reply_ok (codes "bye") (record s { archive = commit_deletions env s.messages s.archive }))
  txn_step _ arg s = reply_err (codes "unknown command") s

  unfoldable pub command : Phase → Verb → Text → Session → Session
  unfolding auth_step txn_step
  command auth v arg s = auth_step v arg s
  command txn v arg s = txn_step v arg s
  command closed v arg s = s

  -- One round of the loop.
  unfoldable pub step : Session → Text → Session
  unfolding command verb_of to_upper trim_space trim_eol cut
  step s line =
      let parts = cut b' ' (trim_eol line) in
      command s.phase (verb_of (to_upper (trim_space parts.0))) (trim_space parts.1) s

  unfoldable pub run : Session → List Text → Session
  run s [] = s
  run s (line ∷ lines) = elim s.phase [ closed ↦ s | _ ↦ run (step s line) lines ]

  -- A connection: the greeting, then the lines of the input.
  unfoldable pub serve : Store → Archive → Text → Session
  unfolding run step complete_lines
  serve store archive input =
      run
        (reply_ok (codes "POP3 server ready") (record {
          phase = auth;
          pending_user = [];
          auth_fails = 0;
          user_email = [];
          messages = [];
          store = store;
          archive = archive;
          out = [];
        }))
        (complete_lines input)
