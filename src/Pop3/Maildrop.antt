-- ===== src/Pop3/Maildrop.antt =====
-- `pop3Msg`, `stat`, `parseIndex` and the changes of `deleted` in cmd/mail-admin/app/pop3_server.go.
-- A size is a natural number, and so is the total, which at most 1000 messages keep far below 2 ^ 63.
pub mod Numbers
use ucware_mail_server.Base.{
  ℕ, suc, ◌+◌, ◌-◌, Bool, true, false, ◌||◌, Option, none, some, List, [], ◌∷◌, ltb, if◌then◌else◌,
  length, get_elem?, set,
}
use ucware_mail_server.Text.{Text, trim_space}
use ucware_mail_server.Text.Numbers.{ℤ, pos, negsuc, atoi}

pub record Msg : Type 0 where
  pub id : Text
  pub size : ℕ
  pub deleted : Bool

-- The number of messages that are not marked, and their octets.
unfoldable pub stat : List Msg → ℕ × ℕ
stat [] = (0, 0)
stat (m ∷ ms) = if m.deleted then stat ms else (suc (stat ms).0, m.size + (stat ms).1)

-- `s.messages[idx].deleted`: a marked message is not given.
unmarked : ℕ → Option Msg → Option (ℕ × Msg)
unmarked idx none = none
unmarked idx (some m) = if m.deleted then none else some (idx, m)

at_number : List Msg → Option ℤ → Option (ℕ × Msg)
unfolding unmarked
at_number ms none = none
at_number ms (some (negsuc _)) = none
at_number ms (some (pos n)) =
    if ltb n 1 || ltb (length ms) n then none else unmarked (n - 1) (get_elem? ms (n - 1))

-- The index, with the message that every caller reads there.
unfoldable pub parse_index : Text → List Msg → Option (ℕ × Msg)
unfolding at_number
parse_index raw ms = at_number ms (atoi (trim_space raw))

unfoldable pub mark : ℕ → Msg → List Msg → List Msg
mark idx m ms = set ms idx (record m { deleted = true })

unfoldable pub unmark_all : List Msg → List Msg
unmark_all [] = []
unmark_all (m ∷ ms) = record m { deleted = false } ∷ unmark_all ms
