-- ===== src/Mail/Tests.antt =====
-- A message on its way from LMTP to POP3, and the theorem at it.
use ucware_mail_server.Base.{◌≤◌, ◌≡◌, refl, none, [], ◌∷◌, arith, length, filter, length-filter-le}
use ucware_mail_server.Text.{Text, codes, text_eq, trim_space}
use ucware_mail_server.Archive.{Message, Archive}
use ucware_mail_server.Lmtp.Delivery.{Env, deliver_one}
use ucware_mail_server.Pop3.Session.{load_mailbox}
use ucware_mail_server.Mail.Inbox.{Reorders}
use ucware_mail_server.Mail.Retrieval.{Sound, pop3_of, Shown, load_mailbox-deliver_one}

abbrev env : Env
env = record {
  sql = record {
    fault = λ n. none;
    new_id = λ n. n ∷ [];
    order_mailboxes = λ bs. bs;
    order_messages = λ ms. ms;
  };
  clock = λ n. n;
  received = λ n. n;
  parse_mime = λ raw. ([], raw);
  inbound = codes "INBOX";
  domain = codes "mx";
  max_message_bytes = 100;
}

same-Reorders : {A : Type 0} → Reorders {A = A} (λ xs. xs)
same-Reorders = record { forth = λ x xs h. h; back = λ x xs h. h; same_length = λ xs. refl }

env-Sound : Sound env
unfolding trim_space
env-Sound = record {
  no_fault = λ n. refl;
  mailboxes = same-Reorders;
  messages = same-Reorders;
  trimmed = refl;
}

abbrev bare : Archive
bare = record { mailboxes = []; messages = []; statements = 0; ids = 0 }

abbrev after : Archive
unfolding deliver_one
after = (deliver_one env (codes "bo@y") (codes "hi") (codes "al@x") 7 bare).1

one_message : length after.messages ≡ 1
unfolding deliver_one after trim_space
one_message = refl

few : (id : Text) → length (filter (λ (m : Message). text_eq m.mailbox_id id) after.messages) ≤ 1000
few id = omega (arith, length-filter-le (λ m. text_eq m.mailbox_id id) after.messages, one_message)

load_mailbox-deliver_one_example :
    (m : Message) × (after.messages ≡ m ∷ [])
    × (m.raw_mime ≡ codes "hi")
    × Shown m (load_mailbox (pop3_of env (λ n. none) text_eq) (codes "al@x") after).0
unfolding deliver_one after trim_space
load_mailbox-deliver_one_example =
    load_mailbox-deliver_one env env-Sound (codes "al@x") (λ n. none) text_eq (codes "bo@y")
      (codes "hi") 7 bare after refl refl few
