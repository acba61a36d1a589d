-- ===== src/Lmtp/Tests.antt =====
-- Sessions at concrete inputs, and the theorems at them.
use ucware_mail_server.Base.{◌≡◌, refl, true, none, some, List, [], ◌∷◌, ◌++◌, map, arith, length}
use ucware_mail_server.Text.{Text, codes, text_eq, trim_eol}
use ucware_mail_server.Archive.{Archive}
use ucware_mail_server.Lmtp.DotData.{done, is_final, read_dot_data}
use ucware_mail_server.Lmtp.DotData.Framing.{
  stuff, body, NoneFinal, end_of_data, Bounded, read_dot_data-stuffed, read_dot_data_lone_dot,
  read_dot_data-Bounded,
}
use ucware_mail_server.Lmtp.Delivery.{Env, deliver_one}
use ucware_mail_server.Lmtp.Delivery.Stored.{Delivers, deliver_one-Delivers}
use ucware_mail_server.Lmtp.Serve.{Session, deliver_all, run}
use ucware_mail_server.Lmtp.Serve.Envelope.{FewRcpts, Reported, deliver_all-Reported, run_total}

abbrev env : Env
env = record {
  sql = record {
    fault = λ n. none;
    new_id = λ n. n ∷ [];
    order_mailboxes = λ bs. bs;
    order_messages = λ ms. ms;
  };
  clock = λ n. n;
  received = λ n. n;
  parse_mime = λ raw. ([], raw);
  inbound = codes "INBOX";
  domain = codes "mx";
  max_message_bytes = 100;
}

abbrev bare : Archive
bare = record { mailboxes = []; messages = []; statements = 0; ids = 0 }

-- A message with a line that starts with a dot, and commands behind it.
abbrev dotted : List Text
dotted = codes "a\r" ∷ codes ".b\r" ∷ []

abbrev behind : List Text
behind = codes "QUIT\r" ∷ []

dotted-NoneFinal : NoneFinal dotted
unfolding trim_eol text_eq
dotted-NoneFinal = (refl, (refl, tt))

lone-is_final : is_final (codes ".\r") ≡ true
unfolding trim_eol text_eq
lone-is_final = refl

read_dot_data-stuffed_example :
    read_dot_data 100 [] (map stuff dotted ++ (end_of_data ∷ behind)) ≡ done (body dotted) behind
read_dot_data-stuffed_example =
    read_dot_data-stuffed 100 dotted behind dotted-NoneFinal (omega arith)

read_dot_data_lone_dot_example :
    read_dot_data 100 [] (map stuff (dotted ++ codes ".\r" ∷ behind) ++ (end_of_data ∷ []))
    ≡ done (body dotted) (map stuff behind ++ (end_of_data ∷ []))
read_dot_data_lone_dot_example =
    read_dot_data_lone_dot 100 dotted (codes ".\r") behind [] dotted-NoneFinal lone-is_final
      (omega arith)

read_dot_data-Bounded_example : Bounded 3 2 (read_dot_data 3 [] dotted)
read_dot_data-Bounded_example = read_dot_data-Bounded 3 dotted

deliver_one-Delivers_example :
    Delivers
      (codes "bob@x")
      (codes "a")
      (codes "al@x")
      bare
      (deliver_one env (codes "bob@x") (codes "a") (codes "al@x") 0 bare)
deliver_one-Delivers_example =
    deliver_one-Delivers env (codes "bob@x") (codes "a") (codes "al@x") 0 bare

abbrev two_rcpts : List Text
two_rcpts = codes "al@x" ∷ codes "" ∷ []

deliver_all-Reported_example :
    (length (deliver_all env (codes "bob@x") (codes "a") 0 two_rcpts bare).1 ≡ 2)
    × Reported bare
        (deliver_all env (codes "bob@x") (codes "a") 0 two_rcpts bare).0
        (deliver_all env (codes "bob@x") (codes "a") 0 two_rcpts bare).1
deliver_all-Reported_example = deliver_all-Reported env (codes "bob@x") (codes "a") 0 two_rcpts bare

abbrev fresh : Session
fresh = record { archive = bare; from = []; rcpts = []; out = [] }

run_total_example :
    (t : Session) × (run env 3 fresh (codes "NOOP\r\n" ∷ behind) ≡ some t) × FewRcpts t
run_total_example = run_total env 3 fresh (codes "NOOP\r\n" ∷ behind) (omega arith) (omega arith)
