-- ===== src/Pop3/Wire/Framing.antt =====
-- A multi-line reply against a client that follows RFC 1939: it reads up to the line that is a
-- single dot and takes the first dot off every other line that starts with one.
use ucware_mail_server.Base.{
  ◌≡◌, refl, false, Option, none, some, List, [], ◌∷◌, ◌++◌, map, arith, ◌==◌, if◌then◌else◌,
}
use mathlib.Core.List.{append_assoc}
use ucware_mail_server.Text.{Text, text_eq}
use ucware_mail_server.Text.Equality.{text_eq_self}
use ucware_mail_server.Text.Lines.{split, crlf_to_lf}
use ucware_mail_server.Pop3.Wire.{stuff, crlf, dot_data, final_dot}

abbrev undot : Text → Text
undot [] = []
undot (c ∷ s) = if c == b'.' then s else c ∷ s

abbrev onto_lines : Text → Option (List Text × List Text) → Option (List Text × List Text)
onto_lines l none = none
onto_lines l (some (ls, rest)) = some (l ∷ ls, rest)

-- The lines received, and what follows the reply; `none` if the reply does not end.
unfoldable pub receive : List Text → Option (List Text × List Text)
receive [] = none
receive (l ∷ ls) =
    let more = receive ls in
    if text_eq l final_dot then some ([], ls) else onto_lines (undot l) more

stuff-ne-final_dot : (l : Text) → text_eq (stuff l) final_dot ≡ false
unfolding stuff text_eq
stuff-ne-final_dot [] = refl
stuff-ne-final_dot (c ∷ []) = ground arith
stuff-ne-final_dot (c ∷ d ∷ l) = ground arith

undot-stuff : (l : Text) → undot (stuff l) ≡ l ++ crlf
unfolding stuff
undot-stuff [] = refl
undot-stuff (c ∷ l) = ground arith

receive-stuffed :
    (ls rest : List Text)
    → receive (map stuff ls ++ (final_dot ∷ rest)) ≡ some (map (λ l. l ++ crlf) ls, rest)
unfolding receive
receive-stuffed [] rest = rw (text_eq_self final_dot)
receive-stuffed (l ∷ ls) rest = rw (stuff-ne-final_dot l, receive-stuffed ls rest, undot-stuff l)

-- Whatever bytes the message holds and whatever is sent after it, a client gets exactly its lines:
-- those of the message with every CRLF read as LF, none of them taken for the end of the reply.
pub receive-dot_data :
    (raw : Text) (rest : List Text)
    → receive (dot_data raw ++ rest)
      ≡ some (map (λ l. l ++ crlf) (split b'\n' (crlf_to_lf raw)), rest)
unfolding dot_data
receive-dot_data raw rest =
    rw (append_assoc (map stuff (split b'\n' (crlf_to_lf raw))) (final_dot ∷ []) rest)
      (receive-stuffed (split b'\n' (crlf_to_lf raw)) rest)
