-- ===== src/Lmtp/DotData/Framing.antt =====
-- What `readLMTPDotData` reads of data that a sender has dot-stuffed as RFC 5321 says: a line that
-- starts with a dot gets one more, and the end is a line with a single dot.
use ucware_mail_server.Base.{
  ℕ, suc, ◌≤◌, ◌<◌, ◌≡◌, refl, ap, ◌∙◌, inl, inr, true, false, List, [], ◌∷◌, ◌++◌, map, arith, ltb,
  ◌==◌, if◌then◌else◌, length, length-append, Bool-cases,
}
use mathlib.Core.List.{append-nil, append_assoc}
use ucware_mail_server.Text.{Text, codes, text_eq, has_prefix, trim_eol}
use ucware_mail_server.Lmtp.DotData.{
  Read, done, too_large, eof, undot, is_final, ended, read_dot_data,
}

pub stuff : Text → Text
stuff [] = []
stuff (c ∷ l) = if c == b'.' then b'.' ∷ c ∷ l else c ∷ l

undot-stuff : (l : Text) → undot (stuff l) ≡ l
unfolding undot stuff has_prefix
undot-stuff [] = refl
undot-stuff (c ∷ []) = ground arith
undot-stuff (c ∷ d ∷ l) = ground arith

-- The bytes of lines.
abbrev pub body : List Text → Text
body [] = []
body (l ∷ ls) = ended l ++ body ls

-- No line is a single dot, possibly with a carriage return.
abbrev pub NoneFinal : List Text → Type 0
NoneFinal [] = Unit {0}
NoneFinal (l ∷ ls) = (is_final l ≡ false) × NoneFinal ls

abbrev pub end_of_data : Text
end_of_data = codes ".\r"

end_of_data-is_final : is_final (undot end_of_data) ≡ true
unfolding undot has_prefix text_eq trim_eol
end_of_data-is_final = refl

read-cons :
    (max : ℕ) (buf l : Text) (ls : List Text)
    → is_final l ≡ false
    → length (buf ++ ended l) ≤ max
    → read_dot_data max buf (stuff l ∷ ls) ≡ read_dot_data max (buf ++ ended l) ls
unfolding read_dot_data
read-cons max buf l ls n h = rw (undot-stuff l, n) (ground arith)

read-last :
    (max : ℕ) (buf l : Text) (ls : List Text)
    → is_final (undot l) ≡ true
    → read_dot_data max buf (l ∷ ls) ≡ done buf ls
unfolding read_dot_data
read-last max buf l ls h = rw h

-- Up to the first line that is taken for the end, all is read.
read-until :
    (max : ℕ) (buf : Text) (ls : List Text) (l : Text) (more : List Text)
    → NoneFinal ls
    → is_final (undot l) ≡ true
    → length (buf ++ body ls) ≤ max
    → read_dot_data max buf (map stuff ls ++ (l ∷ more)) ≡ done (buf ++ body ls) more
read-until max buf [] l more n f h = rw append-nil (read-last max buf l more f)
read-until max buf (x ∷ ls) l more n f h =
    let assoc = append_assoc buf (ended x) (body ls) in
    read-cons max buf x (map stuff ls ++ (l ∷ more)) n.0
      (omega (arith, length-append (buf ++ ended x) (body ls), ap length assoc))
    ∙ read-until max (buf ++ ended x) ls l more n.1 f (omega (arith, ap length assoc))
    ∙ ap (λ b. done b more) assoc

-- A stuffed message of at most `max` bytes, none of whose lines is a single dot, is read back byte
-- for byte, and the reader stops right behind the end marker.
pub read_dot_data-stuffed :
    (max : ℕ) (ls more : List Text)
    → NoneFinal ls
    → length (body ls) ≤ max
    → read_dot_data max [] (map stuff ls ++ (end_of_data ∷ more)) ≡ done (body ls) more
read_dot_data-stuffed max ls more n h =
    read-until max [] ls end_of_data more n end_of_data-is_final h

map-append_cons :
    (ls : List Text) (d : Text) (ms more : List Text)
    → map stuff (ls ++ d ∷ ms) ++ more ≡ map stuff ls ++ (stuff d ∷ (map stuff ms ++ more))
map-append_cons [] d ms more = refl
map-append_cons (l ∷ ls) d ms more = ap (◌∷◌ (stuff l)) (map-append_cons ls d ms more)

-- A line of the message that is a single dot is sent as two dots, and the reader takes it for the
-- end all the same: the message is cut off there, and its other lines, the end marker included, are
-- left in the input, where the command loop reads them.
pub read_dot_data_lone_dot :
    (max : ℕ) (ls : List Text) (d : Text) (ms more : List Text)
    → NoneFinal ls
    → is_final d ≡ true
    → length (body ls) ≤ max
    → read_dot_data max [] (map stuff (ls ++ d ∷ ms) ++ (end_of_data ∷ more))
      ≡ done (body ls) (map stuff ms ++ (end_of_data ∷ more))
read_dot_data_lone_dot max ls d ms more n f h =
    ap (read_dot_data max []) (map-append_cons ls d ms (end_of_data ∷ more))
    ∙ read-until max [] ls (stuff d) (map stuff ms ++ (end_of_data ∷ more)) n
        (ap is_final (undot-stuff d) ∙ f) h

-- What holds of a read: bounded data, and fewer lines left.
abbrev pub Bounded : ℕ → ℕ → Read → Type 0
Bounded max n (done raw rest) = (length raw ≤ max) × (length rest < n)
Bounded max n (too_large rest) = length rest < n
Bounded max n eof = Unit {0}

Bounded-suc : (max n : ℕ) (r : Read) → Bounded max n r → Bounded max (suc n) r
Bounded-suc max n (done raw rest) b = omega arith
Bounded-suc max n (too_large rest) b = omega arith
Bounded-suc max n eof b = tt

read-Bounded :
    (max : ℕ) (buf : Text) (lines : List Text)
    → length buf ≤ max
    → Bounded max (length lines) (read_dot_data max buf lines)
unfolding read_dot_data
read-Bounded max buf [] h = tt
read-Bounded max buf (l ∷ ls) h = elim (Bool-cases (is_final (undot l))) [
  | inl f ↦ rw f (h, omega arith)
  | inr g ↦ elim (Bool-cases (ltb max (length (buf ++ ended (undot l))))) [
    | inl big ↦ rw (g, big) (omega arith)
    | inr fits ↦
        rw (g, fits)
          (Bounded-suc max (length ls) _
            (read-Bounded max (buf ++ ended (undot l)) ls (ground arith)))
  ]
]

-- Whatever is sent, the data handed on are at most `max` bytes, and each read uses up a line.
pub read_dot_data-Bounded :
    (max : ℕ) (lines : List Text) → Bounded max (length lines) (read_dot_data max [] lines)
read_dot_data-Bounded max lines = read-Bounded max [] lines (omega arith)
