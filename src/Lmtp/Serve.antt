-- ===== src/Lmtp/Serve.antt =====
-- `lmtpSession` and `serve` of cmd/mail-admin/app/lmtp_server.go. A broken or idle connection ends
-- the input early, which is one more input here.
pub mod Envelope
use ucware_mail_server.Base.{
  ℕ, zero, suc, ◌+◌, Bool, true, false, Option, none, some, List, [], ◌∷◌, ◌++◌, map, leb,
  if◌then◌else◌, length,
}
use ucware_mail_server.Text.{Text, codes, text_eq, is_empty, to_upper, trim_space, trim_eol, cut}
use ucware_mail_server.Text.Numbers.{format_int}
use ucware_mail_server.Text.Lines.{complete_lines}
use ucware_mail_server.Sql.{Result, ok, err}
use ucware_mail_server.Archive.{Archive}
use ucware_mail_server.Lmtp.Address.{extract_lmtp_angle}
use ucware_mail_server.Lmtp.DotData.{Read, done, too_large, eof, read_dot_data}
use ucware_mail_server.Lmtp.Delivery.{Env, deliver_one}

-- `out` holds the replies, in order.
pub record Session : Type 0 where
  pub archive : Archive
  pub from : Text
  pub rcpts : List Text
  pub out : List Text

-- After a command: go on with the lines that are left, or return.
pub data Next : Type 0 where
  go_on : Session → List Text → Next
  stop : Session → Next

pub data Verb : Type 0 where
  lhlo mail rcpt data_verb rset noop quit unknown : Verb

-- The labels of the `switch` statement.
unfoldable pub verb_of : Text → Verb
unfolding text_eq
verb_of v =
    if text_eq v (codes "LHLO")
    then lhlo
    else if text_eq v (codes "MAIL")
    then mail
    else if text_eq v (codes "RCPT")
    then rcpt
    else if text_eq v (codes "DATA")
    then data_verb
    else if text_eq v (codes "RSET")
    then rset
    else if text_eq v (codes "NOOP")
    then noop
    else if text_eq v (codes "QUIT")
    then quit
    else unknown

abbrev pub line_of : Text → Text
line_of s = s ++ codes "\r\n"

abbrev pub reply : Text → Session → Session
reply t s = record s { out = s.out ++ line_of t ∷ [] }

abbrev pub replies : List Text → Session → Session
replies ts s = record s { out = s.out ++ map line_of ts }

abbrev pub max_rcpts : ℕ
max_rcpts = 100

-- A limit of 0 means 50 MB.
abbrev pub limit_of : ℕ → ℕ
limit_of zero = 52428800
limit_of (suc n) = suc n

abbrev domain_of : Text → Text
domain_of [] = codes "localhost"
domain_of (c ∷ s) = c ∷ s

abbrev too_many_bytes : Text
too_many_bytes = codes "552 Message too large or read error"

abbrev no_rcpts : List Text → Bool
no_rcpts [] = true
no_rcpts (_ ∷ _) = false

delivery_reply : Text → Result (Unit {0}) → Text
delivery_reply r (ok _) = codes "250 Ok: delivered to " ++ r
delivery_reply r (err _) = codes "451 Temporary delivery failure"

module _ (env : Env) where
  -- The loop over the recipients: the archive after it, and one reply for each.
  unfoldable pub deliver_all : Text → Text → ℕ → List Text → Archive → Archive × List Text
  unfolding deliver_one delivery_reply
  deliver_all from raw received_at [] a = (a, [])
  deliver_all from raw received_at (r ∷ rs) a =
      let one = deliver_one env from raw r received_at a in
      let later = deliver_all from raw received_at rs one.1 in
      (later.0, delivery_reply r one.0 ∷ later.1)

  refuse_all : Session → List Text → Session
  refuse_all s rcpts = replies (map (λ _. too_many_bytes) rcpts) s

  -- The envelope is cleared in `s`; `from` and `rcpts` are its snapshot.
  unfoldable pub after_read : Session → Text → List Text → Read → Next
  unfolding refuse_all deliver_all
  after_read s from rcpts (done raw lines) =
      let sent = deliver_all from raw (env.received s.archive.ids) rcpts s.archive in
      go_on (replies sent.1 (record s { archive = sent.0 })) lines
  after_read s from rcpts (too_large lines) = go_on (refuse_all s rcpts) lines
  after_read s from rcpts eof = go_on (refuse_all s rcpts) []

  unfoldable pub data_step : Session → List Text → Next
  unfolding after_read read_dot_data
  data_step s lines =
      if is_empty s.from
      then go_on (reply (codes "503 Need MAIL command first") s) lines
      else if no_rcpts s.rcpts
      then go_on (reply (codes "503 Need RCPT command first") s) lines
      else after_read
          (record (reply (codes "354 End data with <CR><LF>.<CR><LF>") s) { from = []; rcpts = [] })
          s.from s.rcpts (read_dot_data (limit_of env.max_message_bytes) [] lines)

  unfoldable pub command : Verb → Text → Session → List Text → Next
  unfolding data_step extract_lmtp_angle format_int
  command lhlo arg s lines =
      go_on
        (replies
          ((codes "250-" ++ domain_of env.domain)
            ∷ (codes "250-SIZE " ++ format_int (limit_of env.max_message_bytes))
            ∷ codes "250 8BITMIME"
            ∷ [])
          s)
        lines
  command mail arg s lines =
      go_on (reply (codes "250 Ok") (record s { from = extract_lmtp_angle arg; rcpts = [] })) lines
  command rcpt arg s lines =
      if leb max_rcpts (length s.rcpts)
      then go_on (reply (codes "452 Too many recipients") s) lines
      else go_on
          (reply (codes "250 Ok") (record s { rcpts = s.rcpts ++ extract_lmtp_angle arg ∷ [] }))
          lines
  command data_verb arg s lines = data_step s lines
  command rset arg s lines =
      go_on (reply (codes "250 Ok") (record s { from = []; rcpts = [] })) lines
  command noop arg s lines = go_on (reply (codes "250 Ok") s) lines
  command quit arg s lines = stop (reply (codes "221 Bye") s)
  command unknown arg s lines = go_on (reply (codes "500 Command unrecognized") s) lines

  -- One round of the loop, with the lines after the command's.
  unfoldable pub step : Session → Text → List Text → Next
  unfolding command verb_of to_upper trim_space trim_eol cut
  step s line lines =
      let parts = cut b' ' (trim_eol line) in
      command (verb_of (to_upper (trim_space parts.0))) parts.1 s lines

  -- `none` means that the fuel ran out.
  unfoldable pub run : ℕ → Session → List Text → Option Session
  unfolding step
  run zero s lines = none
  run (suc fuel) s [] = some s
  run (suc fuel) s (line ∷ lines) = elim (step s line lines) [
    | go_on s' rest ↦ run fuel s' rest
    | stop s' ↦ some s'
  ]

  unfoldable pub serve : Archive → Text → Option Session
  unfolding run complete_lines
  serve a input =
      let lines = complete_lines input in
      run (length lines + 1)
        (reply (codes "220 " ++ (domain_of env.domain ++ codes " LMTP ready"))
          (record { archive = a; from = []; rcpts = []; out = [] }))
        lines
