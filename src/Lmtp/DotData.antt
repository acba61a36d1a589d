-- ===== src/Lmtp/DotData.antt =====
-- `readLMTPDotData` of cmd/mail-admin/app/lmtp_server.go. The input is the list of the lines that
-- are left, each without its newline; a line without one is at the end of the input and not read.
pub mod Framing
use ucware_mail_server.Base.{
  ℕ, ◌+◌, Bool, true, false, List, [], ◌∷◌, ◌++◌, ltb, if◌then◌else◌, length,
}
use ucware_mail_server.Text.{Text, codes, text_eq, has_prefix, trim_eol}

-- The data and the lines after them, or an error: too many bytes, with the lines after the one that
-- was too much, or the end of the input.
pub data Read : Type 0 where
  done : Text → List Text → Read
  too_large : List Text → Read
  eof : Read

-- A line that starts with two dots loses one.
unfoldable pub undot : Text → Text
undot [] = []
undot (c ∷ l) = if has_prefix (c ∷ l) (codes "..") then l else c ∷ l

abbrev pub is_final : Text → Bool
is_final line = text_eq (trim_eol line) (codes ".")

-- A line as it goes into the buffer.
abbrev pub ended : Text → Text
ended line = line ++ codes "\n"

unfoldable pub read_dot_data : ℕ → Text → List Text → Read
unfolding undot has_prefix text_eq trim_eol
read_dot_data max_bytes buf [] = eof
read_dot_data max_bytes buf (line ∷ lines) =
    let more = read_dot_data max_bytes (buf ++ ended (undot line)) lines in
    if is_final (undot line)
    then done buf lines
    else if ltb max_bytes (length (buf ++ ended (undot line)))
    then too_large lines
    else more
