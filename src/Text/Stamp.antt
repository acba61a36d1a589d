-- ===== src/Text/Stamp.antt =====
-- Timestamps as `time.RFC3339Nano` writes them. An instant is a number of nanoseconds; the fraction
-- of a second is written without its final zeros, and not at all if it is zero, so the order of the
-- texts is not the order of the instants. The seconds are written in a fixed width.
use ucware_mail_server.Base.{
  ℕ, zero, suc, ◌+◌, ◌/◌, ◌%◌, Bool, ◌&&◌, ◌||◌, [], ◌∷◌, ◌++◌, ltb, ◌==◌, if◌then◌else◌,
}
use ucware_mail_server.Text.{Text, codes, trim_right_by}
use ucware_mail_server.Text.Order.{text_lt}

abbrev pub second : ℕ
second = 1000000000

-- `n` in `width` digits.
unfoldable pub padded : ℕ → ℕ → Text → Text
padded zero n out = out
padded (suc width) n out = padded width (n / 10) ((b'0' + n % 10) ∷ out)

-- What stands behind the seconds.
unfoldable pub fraction : ℕ → Text
unfolding padded trim_right_by
fraction nanos =
    if nanos == 0
    then codes "Z"
    else b'.' ∷ (trim_right_by (λ c. c == b'0') (padded 9 nanos []) ++ codes "Z")

-- `a < b` on the texts of two instants.
unfoldable pub stamp_lt : ℕ → ℕ → Bool
unfolding fraction text_lt
stamp_lt a b =
    ltb (a / second) (b / second)
    || (a / second == b / second && text_lt (fraction (a % second)) (fraction (b % second)))
