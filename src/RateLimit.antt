-- ===== src/RateLimit.antt =====
-- cmd/mail-admin/app/infra/ratelimit/fixed_window.go. An instant is a number of nanoseconds; the
-- mutex makes each call of `Allow` one step.
pub mod Window
mod Tests
use ucware_mail_server.Base.{
  ℕ, ◌+◌, Bool, true, false, Option, none, some, List, [], ◌∷◌, ltb, leb, ◌==◌, if◌then◌else◌,
}
use ucware_mail_server.Text.{Text, codes, is_empty, to_lower, trim_space}
use ucware_mail_server.Dict.{Map, lookup, insert}

pub record Bucket : Type 0 where
  pub window_start : ℕ
  pub count : ℕ

pub record FixedWindow : Type 0 where
  pub buckets : Map Bucket
  pub max : ℕ
  pub window_dur : ℕ

abbrev pub minute : ℕ
minute = 60000000000

-- Arguments below 1 and durations up to 0 are replaced; the model has no negative ones.
unfoldable pub new_fixed_window : ℕ → ℕ → FixedWindow
new_fixed_window max window_dur = record {
  buckets = [];
  max = if ltb max 1 then 1 else max;
  window_dur = if leb window_dur 0 then minute else window_dur;
}

unfoldable pub bucket_key : Text → Text
bucket_key key =
    let key' = trim_space (to_lower key) in if is_empty key' then codes "global" else key'

abbrev fresh_bucket : ℕ → Bucket
fresh_bucket now = record { window_start = now; count = 1 }

-- `!ok || now.Sub(b.windowStart) >= l.windowDur`
abbrev pub is_stale : FixedWindow → Option Bucket → ℕ → Bool
is_stale l none now = true
is_stale l (some b) now = leb (b.window_start + l.window_dur) now

-- The part of `Allow` under the mutex, for the bucket found under the key.
unfoldable pub allow_bucket : FixedWindow → Text → ℕ → Option Bucket → FixedWindow × Bool
allow_bucket l key now none = (record l { buckets = insert key (fresh_bucket now) l.buckets }, true)
allow_bucket l key now (some b) =
    if is_stale l (some b) now
    then (record l { buckets = insert key (fresh_bucket now) l.buckets }, true)
    else if leb l.max b.count
    then (l, false)
    else (record l { buckets = insert key (record b { count = b.count + 1 }) l.buckets }, true)

unfoldable pub allow : FixedWindow → Text → ℕ → FixedWindow × Bool
unfolding allow_bucket
allow l key now = allow_bucket l (bucket_key key) now (lookup (bucket_key key) l.buckets)
