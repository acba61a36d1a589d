-- ===== src/RateLimit/Tests.antt =====
-- Runs of the limiter, and the theorems at concrete inputs.
use ucware_mail_server.Base.{
  ℕ, suc, ◌+◌, ◌<◌, ◌≤◌, ◌↔◌, false, ◌≡◌, refl, true, some, [], ◌∷◌, arith, length,
}
use Prim.Native.Nat.{min}
use ucware_mail_server.Text.{Text, codes, text_eq, to_lower, trim_space}
use ucware_mail_server.Dict.{lookup, insert}
use ucware_mail_server.RateLimit.{Bucket, FixedWindow, new_fixed_window, bucket_key, allow}
use ucware_mail_server.RateLimit.Window.{
  IsValid, new_fixed_window-IsValid, allow-IsValid, allow-eq-false_iff, run, run_window,
}

abbrev two_a_minute : FixedWindow
two_a_minute = new_fixed_window 2 0

abbrev ip : Text
ip = codes " 10.0.0.1"

-- The third request in the minute is refused, and the one after it opens a new window.
run_test : (run two_a_minute ip (5 ∷ 6 ∷ 7 ∷ [])).1 ≡ 2
unfolding run allow new_fixed_window bucket_key to_lower trim_space text_eq lookup insert
run_test = refl

later_test : (allow (run two_a_minute ip (5 ∷ 6 ∷ 7 ∷ [])).0 ip 60000000005).1 ≡ true
unfolding run allow new_fixed_window bucket_key to_lower trim_space text_eq lookup insert
later_test = refl

empty_key_test : bucket_key (codes " ") ≡ codes "global"
unfolding bucket_key to_lower trim_space
empty_key_test = refl

allow-IsValid_example : IsValid (allow two_a_minute ip 5).0
allow-IsValid_example = allow-IsValid two_a_minute ip 5 (new_fixed_window-IsValid 2 0)

run_window_example :
    (run two_a_minute ip (5 ∷ 6 ∷ 7 ∷ [])).1 ≡ min (suc (length {A = ℕ} (6 ∷ 7 ∷ []))) 2
unfolding new_fixed_window lookup
run_window_example =
    run_window two_a_minute ip 5 (6 ∷ 7 ∷ []) (new_fixed_window-IsValid 2 0) refl (omega arith)

allow-eq-false_iff_example : ((allow two_a_minute ip 5).1 ≡ false) ↔ (
    (b : Bucket) × (lookup (bucket_key ip) two_a_minute.buckets ≡ some b)
    × (5 < b.window_start + two_a_minute.window_dur)
    × (two_a_minute.max ≤ b.count))
allow-eq-false_iff_example = allow-eq-false_iff two_a_minute ip 5
