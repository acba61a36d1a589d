-- ===== src/Envx.antt =====
-- cmd/mail-admin/app/infra/envx/envx.go. An environment is a function from names to texts, empty for
-- a variable that is not set.
use ucware_mail_server.Base.{
  Bool, true, false, ◌||◌, Option, none, some, [], ◌∷◌, ◌++◌, if◌then◌else◌,
}
use ucware_mail_server.Text.{Text, codes, text_eq, is_empty, to_lower, trim_space}
use ucware_mail_server.Text.Numbers.{ℤ, atoi}
use ucware_mail_server.Sql.{failed, Result, ok, err}

-- A value that is set, or the fallback.
or_fallback : Text → Text → Text
or_fallback [] fallback = fallback
or_fallback (c ∷ v) fallback = c ∷ v

-- `atoi` failed; the text of its error is left out.
int_or_error : Text → Option ℤ → Result ℤ
int_or_error key none = err (failed (codes "invalid int env " ++ key))
int_or_error key (some n) = ok n

int_given : Text → Text → ℤ → Result ℤ
unfolding int_or_error atoi
int_given key [] fallback = ok fallback
int_given key (c ∷ v) fallback = int_or_error key (atoi (c ∷ v))

is_yes : Text → Bool
unfolding text_eq
is_yes v =
    text_eq v (codes "1")
    || text_eq v (codes "true")
    || text_eq v (codes "yes")
    || text_eq v (codes "y")
    || text_eq v (codes "on")

is_no : Text → Bool
unfolding text_eq
is_no v =
    text_eq v (codes "0")
    || text_eq v (codes "false")
    || text_eq v (codes "no")
    || text_eq v (codes "n")
    || text_eq v (codes "off")

bool_given : Text → Text → Bool → Result Bool
unfolding is_yes is_no
bool_given key v fallback =
    if is_empty v
    then ok fallback
    else if is_yes v
    then ok true
    else if is_no v
    then ok false
    else err (failed (codes "invalid bool env " ++ (key ++ (codes ": " ++ v))))

module _ (environ : Text → Text) where
  unfoldable pub get : Text → Text → Text
  unfolding or_fallback trim_space
  get key fallback = or_fallback (trim_space (environ key)) fallback

  unfoldable pub get_int : Text → ℤ → Result ℤ
  unfolding int_given trim_space
  get_int key fallback = int_given key (trim_space (environ key)) fallback

  unfoldable pub get_bool : Text → Bool → Result Bool
  unfolding bool_given to_lower trim_space
  get_bool key fallback = bool_given key (to_lower (trim_space (environ key))) fallback
