-- ===== src/Pop3/Wire.antt =====
-- Replies of cmd/mail-admin/app/pop3_server.go: `ok`, `err`, `writePOP3DotData` and `topLines`.
-- Each write is one element of a list.
pub mod Framing
pub mod Top
use ucware_mail_server.Base.{
  ℕ, zero, suc, ◌+◌, ◌&&◌, Option, none, some, List, [], ◌∷◌, ◌++◌, map, ltb, ◌==◌, if◌then◌else◌,
  length, take,
}
use ucware_mail_server.Text.{Text, codes, cut, contains_byte, has_prefix}
use ucware_mail_server.Text.Lines.{split, join, crlf_to_lf}

abbrev pub crlf : Text
crlf = codes "\r\n"

abbrev pub ok_line : Text → Text
ok_line [] = codes "+OK" ++ crlf
ok_line (c ∷ s) = codes "+OK " ++ ((c ∷ s) ++ crlf)

abbrev pub err_line : Text → Text
err_line s = codes "-ERR " ++ (s ++ crlf)

abbrev pub final_dot : Text
final_dot = codes ".\r\n"

unfoldable pub stuff : Text → Text
unfolding has_prefix
stuff line = (if has_prefix line (codes ".") then b'.' ∷ line else line) ++ crlf

unfoldable pub dot_data : Text → List Text
unfolding stuff split crlf_to_lf
dot_data raw = map stuff (split b'\n' (crlf_to_lf raw)) ++ final_dot ∷ []

onto_header : ℕ → Option (Text × Text) → Option (Text × Text)
onto_header c none = none
onto_header c (some (h, b)) = some (c ∷ h, b)

-- The text up to and with the first empty line, and what follows it.
unfoldable pub split_header : Text → Option (Text × Text)
unfolding onto_header
split_header [] = none
split_header (c ∷ []) = none
split_header (c ∷ d ∷ s) =
    let rest = split_header (d ∷ s) in
    if c == b'\n' && d == b'\n' then some (c ∷ d ∷ [], s) else onto_header c rest

-- `strings.SplitN(s, sep, n)` with a one-byte separator: at most `n` pieces, the last one unsplit.
unfoldable pub split_n : ℕ → ℕ → Text → List Text
unfolding cut contains_byte
split_n sep zero s = []
split_n sep (suc zero) s = s ∷ []
split_n sep (suc (suc n)) s =
    let rest = split_n sep (suc n) (cut sep s).1 in
    if contains_byte sep s then (cut sep s).0 ∷ rest else s ∷ []

first_lines : ℕ → List Text → List Text
first_lines n ls = if ltb n (length ls) then take n ls else ls

top_of : Text → ℕ → Option (Text × Text) → Text
unfolding first_lines split_n join
top_of raw n none = raw
top_of raw n (some (header, body)) =
    if n == 0
    then header
    else header ++ join (codes "\n") (first_lines n (split_n b'\n' (n + 1) body))

unfoldable pub top_lines : Text → ℕ → Text
unfolding crlf_to_lf split_header top_of
top_lines raw n = top_of raw n (split_header (crlf_to_lf raw))
