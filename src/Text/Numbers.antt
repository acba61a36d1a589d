-- ===== src/Text/Numbers.antt =====
-- `fmt` with `%d` and `strconv.Atoi`, on an `int` of 64 bits.
use ucware_mail_server.Base.{
  ℕ, zero, suc, ◌+◌, ◌-◌, ◌*◌, ◌/◌, ◌%◌, ◌≤◌, ◌<◌, ◌≡◌, refl, Bool, true, false, ◌&&◌, Option, none,
  some, [], ◌∷◌, arith, leb, ◌==◌, if◌then◌else◌,
}
use ucware_mail_server.Text.{Text, codes}

-- `negsuc n` is -(n + 1).
pub data ℤ : Type 0 where
  pos : ℕ → ℤ
  negsuc : ℕ → ℤ

-- The digits of `n` before those of `out`.
unfoldable pub digits : ℕ → ℕ → Text → Text
digits zero n out = out
digits (suc f) n out =
    let rest = digits f (n / 10) ((b'0' + n % 10) ∷ out) in
    if n / 10 == 0 then (b'0' + n % 10) ∷ out else rest

-- A number has fewer digits than itself plus one.
unfoldable pub format_int : ℕ → Text
unfolding digits
format_int n = digits (suc n) n []

is_digit : ℕ → Bool
is_digit c = leb b'0' c && leb c b'9'

scan : Text → ℕ → Option ℕ
unfolding is_digit
scan [] n = some n
scan (c ∷ s) n = let rest = scan s (n * 10 + (c - b'0')) in if is_digit c then rest else none

abbrev pub max_int : ℕ
max_int = 9223372036854775807

in_range : Bool → Option ℕ → Option ℤ
in_range negative none = none
in_range false (some n) = if leb n max_int then some (pos n) else none
in_range true (some zero) = some (pos 0)
in_range true (some (suc n)) = if leb n max_int then some (negsuc n) else none

unsigned : Bool → Text → Option ℤ
unfolding scan in_range
unsigned negative [] = none
unsigned negative (c ∷ s) = in_range negative (scan (c ∷ s) 0)

unfoldable pub atoi : Text → Option ℤ
unfolding unsigned
atoi [] = none
atoi (c ∷ s) =
    if c == b'-'
    then unsigned true s
    else if c == b'+'
    then unsigned false s
    else unsigned false (c ∷ s)

format_int_test : format_int 5040 ≡ codes "5040"
unfolding format_int
format_int_test = refl

atoi_test :
    (atoi (codes "-12") ≡ some (negsuc 11))
    × (atoi (codes "+7") ≡ some (pos 7))
    × (atoi (codes "") ≡ none)
    × (atoi (codes "1x") ≡ none)
    × (atoi (codes "9223372036854775808") ≡ none)
unfolding atoi
atoi_test = (refl, refl, refl, refl, refl)

-- Reading the digits of `n` from zero reads `n` and goes on with what follows.
scan-digits : (f n : ℕ) (out : Text) → n < f → scan (digits f n out) 0 ≡ scan out n
unfolding digits scan
scan-digits zero n out h = absurd (omega arith)
scan-digits (suc f) n out h = ground (arith, scan-digits f (n / 10) ((b'0' + n % 10) ∷ out))

-- The print starts with a digit.
abbrev pub StartsDigit : Text → Type 0
StartsDigit [] = ⊥
StartsDigit (c ∷ _) = (b'0' ≤ c) × (c ≤ b'9')

digits-StartsDigit : (f n : ℕ) (out : Text) → n < f → StartsDigit (digits f n out)
unfolding digits
digits-StartsDigit zero n out h = absurd (omega arith)
digits-StartsDigit (suc f) n out h =
    ground (arith, digits-StartsDigit f (n / 10) ((b'0' + n % 10) ∷ out))

atoi_digits :
    (s : Text) (n : ℕ) → StartsDigit s → scan s 0 ≡ some n → n ≤ max_int → atoi s ≡ some (pos n)
unfolding atoi
atoi_digits [] n h e b = absurd h
atoi_digits (c ∷ s) n h e b = ground arith

-- A printed number is read back.
pub atoi-format_int : (n : ℕ) → n ≤ max_int → atoi (format_int n) ≡ some (pos n)
unfolding format_int scan
atoi-format_int n h =
    atoi_digits (format_int n) n (digits-StartsDigit (suc n) n [] (omega arith))
      (scan-digits (suc n) n [] (omega arith)) h

-- `%d` of an `int`.
abbrev pub format_signed : ℤ → Text
format_signed (pos n) = format_int n
format_signed (negsuc n) = b'-' ∷ format_int (n + 1)
