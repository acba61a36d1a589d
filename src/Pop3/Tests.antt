-- ===== src/Pop3/Tests.antt =====
-- Connections at concrete inputs, and the theorems at them.
use ucware_mail_server.Base.{
  ◌+◌, ◌≡◌, ◌≢◌, ◌↔◌, inl, refl, false, none, some, List, [], ◌∷◌, ◌++◌, map, arith, get_elem?,
}
use ucware_mail_server.Text.{Text, codes, text_eq, to_upper, trim_space, cut, trim_eol}
use ucware_mail_server.Text.Lines.{split, crlf_to_lf}
use ucware_mail_server.Text.Numbers.{pos, atoi}
use ucware_mail_server.Store.Types.{Store}
use ucware_mail_server.Archive.{Message, Archive}
use ucware_mail_server.Archive.Reads.{SameTables}
use ucware_mail_server.Pop3.Maildrop.{Msg, parse_index}
use ucware_mail_server.Pop3.Maildrop.Numbers.{parse_index-eq-some_iff}
use ucware_mail_server.Pop3.Wire.{dot_data, top_lines, split_header}
use ucware_mail_server.Pop3.Wire.Framing.{receive, receive-dot_data}
use ucware_mail_server.Pop3.Wire.Top.{header_and_body, header_and_first, top_lines-header_and_first}
use ucware_mail_server.Pop3.Session.{Env, auth, txn, closed, Session, commit_deletions}
use ucware_mail_server.Pop3.Session.Commit.{survivors, survivors-commit_deletions}
use ucware_mail_server.Pop3.Session.LogIn.{Authentic, FewFails}
use ucware_mail_server.Pop3.Serve.{run, step, quit, dele, pass, txn_step, verb_of}
use ucware_mail_server.Pop3.Serve.Frame.{Frame, txn_step-Frame}
use ucware_mail_server.Pop3.Serve.Access.{
  verb_in, arg_in, run-FewFails, run-SameTables, run_quit, step-Authentic,
}

abbrev env : Env
env = record {
  fault = λ n. none;
  sql = record {
    fault = λ n. none;
    new_id = λ n. n ∷ [];
    order_mailboxes = λ bs. bs;
    order_messages = λ ms. ms;
  };
  bcrypt_ok = text_eq;
  inbound = codes "INBOX";
}

abbrev message : Text → Text → Message
message id raw = record {
  id = id;
  mailbox_id = codes "b1";
  direction = codes "inbound";
  from_addr = codes "bob@x";
  to_addr = codes "al@x";
  subject = [];
  raw_mime = raw;
  text_body = [];
  size_bytes = 7;
  received_at = 0;
  created_at = 0;
}

abbrev inbox : Archive
inbox = record {
  mailboxes =
      record { id = codes "b1"; user_email = codes "al@x"; name = codes "Inbox"; created_at = 0 }
      ∷ [];
  messages = message (codes "m1") (codes "a") ∷ message (codes "m2") (codes "b") ∷ [];
  statements = 0;
  ids = 0;
}

abbrev al_only : Store
al_only = record {
  users = record { email = codes "al@x"; password_hash = codes "pw"; created_at = 0 } ∷ [];
  admin_users = [];
  audit_logs = [];
  refresh_tokens = [];
  totp_challenges = [];
  oauth2_states = [];
  statements = 0;
}

abbrev fresh : Session
fresh = record {
  phase = auth;
  pending_user = [];
  auth_fails = 0;
  user_email = [];
  messages = [];
  store = al_only;
  archive = inbox;
  out = [];
}

abbrev dialogue : List Text
dialogue = codes "USER al@x\r\n" ∷ codes "PASS pw\r\n" ∷ codes "DELE 1\r\n" ∷ []

dialogue_txn : (run env fresh dialogue).phase ≡ txn
unfolding run step atoi
dialogue_txn = refl

dialogue_open : (run env fresh dialogue).phase ≢ closed
dialogue_open e = absurd (ground (arith, dialogue_txn, e))

is_quit : verb_in (codes "QUIT\r\n") ≡ quit
unfolding verb_of to_upper trim_space cut trim_eol
is_quit = refl

-- What is left after the `QUIT` is the message that is not marked.
left_test :
    survivors (run env fresh dialogue).messages inbox.messages
    ≡ message (codes "m2") (codes "b") ∷ []
unfolding run step atoi
left_test = refl

run_quit_example :
    (run env fresh (dialogue ++ codes "QUIT\r\n" ∷ [])).archive.messages
    ≡ survivors (run env fresh dialogue).messages inbox.messages
run_quit_example = run_quit env fresh dialogue (codes "QUIT\r\n") dialogue_txn is_quit (λ n. refl)

run-SameTables_example : SameTables (run env fresh dialogue).archive inbox
run-SameTables_example = run-SameTables env fresh dialogue dialogue_open

run-FewFails_example : FewFails (run env fresh dialogue)
run-FewFails_example = run-FewFails env fresh dialogue (inl (omega arith))

-- After `USER`.
abbrev named : Session
named = record fresh { pending_user = codes "al@x" }

pass_opens : (step env named (codes "PASS pw\r\n")).phase ≡ txn
unfolding step
pass_opens = refl

step-Authentic_example :
    (verb_in (codes "PASS pw\r\n") ≡ pass)
    × Authentic env (codes "al@x") (arg_in (codes "PASS pw\r\n")) al_only.users
    × ((step env named (codes "PASS pw\r\n")).user_email ≡ codes "al@x")
step-Authentic_example = step-Authentic env named (codes "PASS pw\r\n") refl pass_opens

abbrev dotted : Text
dotted = codes ".\r\n..b\n"

receive-dot_data_example :
    receive (dot_data dotted ++ [])
    ≡ some (map (λ l. l ++ codes "\r\n") (split b'\n' (crlf_to_lf dotted)), [])
receive-dot_data_example = receive-dot_data dotted []

abbrev two_msgs : List Msg
two_msgs =
    record { id = codes "m1"; size = 7; deleted = false }
    ∷ record { id = codes "m2"; size = 5; deleted = false }
    ∷ []

parse_index-eq-some_iff_example :
    (parse_index (codes " 2") two_msgs
      ≡ some (1, record { id = codes "m2"; size = 5; deleted = false }))
    ↔ ((atoi (trim_space (codes " 2")) ≡ some (pos (1 + 1)))
        × (get_elem? two_msgs 1 ≡ some (record { id = codes "m2"; size = 5; deleted = false }))
        × (false ≡ false))
parse_index-eq-some_iff_example =
    parse_index-eq-some_iff (codes " 2") two_msgs 1
      (record { id = codes "m2"; size = 5; deleted = false })

survivors-commit_deletions_example :
    survivors two_msgs (commit_deletions env two_msgs inbox).messages
    ≡ survivors two_msgs inbox.messages
survivors-commit_deletions_example = survivors-commit_deletions env two_msgs inbox

txn_step-Frame_example : Frame fresh (txn_step env dele (codes "1") fresh)
txn_step-Frame_example = txn_step-Frame env dele (codes "1") fresh (λ e. cc)

abbrev mail_text : Text
mail_text = codes "A: b\n\nx\ny"

top_lines_test : top_lines mail_text 1 ≡ codes "A: b\n\nx"
unfolding top_lines split_header crlf_to_lf
top_lines_test = refl

top_lines-header_and_first_example :
    top_lines mail_text 1
    ≡ header_and_first mail_text 1 (header_and_body (split b'\n' (crlf_to_lf mail_text)))
top_lines-header_and_first_example = top_lines-header_and_first mail_text 1
