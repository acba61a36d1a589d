-- ===== src/Archive/Tests.antt =====
-- Runs of the archive's operations, and the theorems at concrete inputs.
use ucware_mail_server.Base.{◌≡◌, refl, map, none, [], ◌∷◌}
use ucware_mail_server.Text.{Text, codes, text_eq, trim_space, to_lower}
use ucware_mail_server.Archive.{
  CreateMessageInput, Archive, Sql, create_mailbox, create_message, delete_message,
}
use ucware_mail_server.Archive.Integrity.Rows.{IsValid}
use ucware_mail_server.Archive.Integrity.{
  start, creates_mailbox, creates_message, deletes_message, Reach-IsValid,
}
use ucware_mail_server.Archive.Rebind.{rebind, numbered, rebind-numbered}
use ucware_mail_server.Text.Lines.{split}
use ucware_mail_server.Text.Numbers.{format_int}

abbrev sql : Sql
sql = record {
  fault = λ n. none;
  new_id = λ n. n ∷ [];
  order_mailboxes = λ bs. bs;
  order_messages = λ ms. ms;
}

abbrev bare : Archive
bare = record { mailboxes = []; messages = []; statements = 0; ids = 0 }

abbrev letter : CreateMessageInput
letter = record {
  mailbox_id = 0 ∷ 32 ∷ [];
  direction = codes "Inbound ";
  from_addr = codes "bo@x";
  to_addr = codes "al@x";
  subject = codes " hello";
  raw_mime = [];
  text_body = [];
  size_bytes = 0;
  received_at = 4;
}

abbrev filled : Archive
filled =
    (create_message sql 6 letter (create_mailbox sql 5 (codes "Al@x ") (codes "INBOX") bare).1).1

-- The message is stored.
filled_test : map (λ m. m.direction) filled.messages ≡ codes "inbound" ∷ []
unfolding create_mailbox create_message text_eq trim_space to_lower
filled_test = refl

Reach-IsValid_example : IsValid sql (delete_message sql (codes "m1") filled).1
Reach-IsValid_example = Reach-IsValid sql (
    deletes_message (codes "m1")
      (creates_message 6 letter (creates_mailbox 5 (codes "Al@x ") (codes "INBOX") (start 0 0))))

abbrev query : Text
query = codes "id=? or $ and a=? limit ?"

rebind_test : rebind (codes "oracle") query ≡ codes "id=:1 or $ and a=:2 limit :3"
unfolding rebind text_eq format_int
rebind_test = refl

rebind-numbered_example :
    (rebind (codes "postgres") query ≡ numbered b'$' 1 (split b'?' query))
    × (rebind (codes "oracle") query ≡ numbered b':' 1 (split b'?' query))
    × (rebind (codes "mysql") query ≡ query)
rebind-numbered_example = rebind-numbered query
