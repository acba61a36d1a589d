-- ===== src/RateLimit/Window.antt =====
-- What the limiter promises: never more than `max` requests of a key in a window.
use ucware_mail_server.Base.{
  ℕ, suc, ◌+◌, ◌-◌, ◌≤◌, ◌<◌, ◌≡◌, ◌≢◌, ◌↔◌, refl, ap, ◌∙◌, inl, inr, Bool, true, false, Option,
  none, some, List, [], ◌∷◌, arith, leb, if◌then◌else◌, length, Bool-cases, Option-cases,
}
use Prim.Native.Nat.{min}
use ucware_mail_server.Text.{Text}
use ucware_mail_server.Text.Equality.{text_eq_iff}
use ucware_mail_server.Dict.{lookup, insert, lookup-insert, lookup-insert_self}
use ucware_mail_server.RateLimit.{
  Bucket, FixedWindow, new_fixed_window, bucket_key, is_stale, allow_bucket, allow,
}

abbrev pub InBounds : FixedWindow → Option Bucket → Type 0
InBounds l none = Unit {0}
InBounds l (some b) = (1 ≤ b.count) × (b.count ≤ l.max)

pub record IsValid (l : FixedWindow) : Type 0 where
  pub max_pos : 1 ≤ l.max
  pub dur_pos : 1 ≤ l.window_dur
  pub bounded : (key : Text) → InBounds l (lookup key l.buckets)

pub new_fixed_window-IsValid : (max dur : ℕ) → IsValid (new_fixed_window max dur)
unfolding new_fixed_window lookup
new_fixed_window-IsValid max dur = record {
  max_pos = ground arith;
  dur_pos = ground arith;
  bounded = λ key. tt;
}

allow_bucket-InBounds :
    (l : FixedWindow) (k : Text) (now : ℕ) (o : Option Bucket) (j : Text)
    → 1 ≤ l.max
    → InBounds l o
    → InBounds l (lookup j l.buckets)
    → InBounds l (lookup j (allow_bucket l k now o).0.buckets)
unfolding allow_bucket
allow_bucket-InBounds l k now none j m b h =
    ground (arith, lookup-insert k j (record { window_start = now; count = 1 }) l.buckets)
allow_bucket-InBounds l k now (some c) j m b h = ground (
  arith,
  lookup-insert k j (record { window_start = now; count = 1 }) l.buckets,
  lookup-insert k j (record c { count = c.count + 1 }) l.buckets,
)

allow_bucket-config :
    (l : FixedWindow) (k : Text) (now : ℕ) (o : Option Bucket)
    → ((allow_bucket l k now o).0.max ≡ l.max)
      × ((allow_bucket l k now o).0.window_dur ≡ l.window_dur)
unfolding allow_bucket
allow_bucket-config l k now none = (refl, refl)
allow_bucket-config l k now (some b) = (ground arith, ground arith)

-- A call keeps the limit and the duration.
pub allow-config :
    (l : FixedWindow) (key : Text) (now : ℕ)
    → ((allow l key now).0.max ≡ l.max) × ((allow l key now).0.window_dur ≡ l.window_dur)
unfolding allow
allow-config l key now = allow_bucket-config l (bucket_key key) now _

InBounds-max : (l m : FixedWindow) (o : Option Bucket) → m.max ≡ l.max → InBounds l o → InBounds m o
InBounds-max l m none e b = tt
InBounds-max l m (some c) e b = omega arith

-- Every call keeps a well-formed limiter well-formed: no count of any key passes `max`.
pub allow-IsValid :
    (l : FixedWindow) (key : Text) (now : ℕ) → IsValid l → IsValid (allow l key now).0
unfolding allow
allow-IsValid l key now v = record {
  max_pos = omega (arith, (allow-config l key now).0);
  dur_pos = omega (arith, (allow-config l key now).1);
  bounded = λ j. InBounds-max l (allow l key now).0 _ (allow-config l key now).0 (
      allow_bucket-InBounds l (bucket_key key) now _ j v.max_pos (v.bounded (bucket_key key))
        (v.bounded j));
}

-- A request is refused exactly if its key has a live window that has used up its `max` requests.
pub allow-eq-false_iff :
    (l : FixedWindow) (key : Text) (now : ℕ)
    → ((allow l key now).1 ≡ false) ↔ (
        (b : Bucket) × (lookup (bucket_key key) l.buckets ≡ some b)
        × (now < b.window_start + l.window_dur)
        × (l.max ≤ b.count))
unfolding allow allow_bucket
allow-eq-false_iff l key now = elim (Option-cases (lookup (bucket_key key) l.buckets)) [
  | inl e ↦ rw (e, allow_bucket) ((λ h. cc), λ h. cc h.1)
  | inr (b, e) ↦
      rw (e, allow_bucket) ((λ h. (b, refl, ground arith, ground arith)), λ h. ground (arith, h.1))
]

lookup-allow_bucket_other :
    (l : FixedWindow) (k : Text) (now : ℕ) (o : Option Bucket) (j : Text)
    → j ≢ k
    → lookup j (allow_bucket l k now o).0.buckets ≡ lookup j l.buckets
unfolding allow_bucket
lookup-allow_bucket_other l k now none j ne =
    ground (
      arith,
      lookup-insert k j (record { window_start = now; count = 1 }) l.buckets,
      text_eq_iff k j,
    )
lookup-allow_bucket_other l k now (some b) j ne = ground (
  arith,
  lookup-insert k j (record { window_start = now; count = 1 }) l.buckets,
  lookup-insert k j (record b { count = b.count + 1 }) l.buckets,
  text_eq_iff k j,
)

-- A call for one key leaves the buckets of all other keys alone.
pub lookup-allow_other :
    (l : FixedWindow) (key : Text) (now : ℕ) (j : Text)
    → j ≢ bucket_key key
    → lookup j (allow l key now).0.buckets ≡ lookup j l.buckets
unfolding allow
lookup-allow_other l key now j ne = lookup-allow_bucket_other l (bucket_key key) now _ j ne

-- The requests of one key at the given instants: what is left, and how many were let through.
unfoldable pub run : FixedWindow → Text → List ℕ → FixedWindow × ℕ
run l key [] = (l, 0)
run l key (t ∷ ts) =
    let first = allow l key t in
    let later = run first.0 key ts in (later.0, if first.1 then suc later.1 else later.1)

abbrev pub AllBefore : ℕ → List ℕ → Type 0
AllBefore deadline [] = Unit {0}
AllBefore deadline (t ∷ ts) = (t < deadline) × AllBefore deadline ts

-- A call in the live window `b` of its key.
abbrev after_call : FixedWindow → Text → Bucket → FixedWindow × Bool
after_call l key b = if leb l.max b.count then (l, false) else (
  record l { buckets = insert (bucket_key key) (record b { count = b.count + 1 }) l.buckets },
  true,
)

allow_live :
    (l : FixedWindow) (key : Text) (t : ℕ) (b : Bucket)
    → lookup (bucket_key key) l.buckets ≡ some b
    → t < b.window_start + l.window_dur
    → allow l key t ≡ after_call l key b
unfolding allow allow_bucket
allow_live l key t b e h = rw (e, allow_bucket) (ground arith)

run_live :
    (l : FixedWindow) (key : Text) (ts : List ℕ) (b : Bucket)
    → lookup (bucket_key key) l.buckets ≡ some b
    → AllBefore (b.window_start + l.window_dur) ts
    → (run l key ts).1 ≡ min (length ts) (l.max - b.count)
unfolding run
run_live l key [] b e h = omega arith
run_live l key (t ∷ ts) b e h =
    rw (allow_live l key t b e h.0) (elim (Bool-cases (leb l.max b.count)) [
      | inl full ↦ rw full (run_live l key ts b e h.1 ∙ ground arith)
      | inr room ↦ rw room (
          ap suc (
            run_live
              (record l {
                buckets = insert (bucket_key key) (record b { count = b.count + 1 }) l.buckets;
              })
              key ts (record b { count = b.count + 1 })
              (lookup-insert_self (bucket_key key) _ l.buckets) h.1)
          ∙ ground arith)
    ])

-- A request with no live window opens one.
allow_fresh :
    (l : FixedWindow) (key : Text) (t : ℕ)
    → is_stale l (lookup (bucket_key key) l.buckets) t ≡ true
    → allow l key t ≡ (
      record l {
        buckets = insert (bucket_key key) (record { window_start = t; count = 1 }) l.buckets;
      },
      true,
    )
unfolding allow allow_bucket
allow_fresh l key t h = elim (Option-cases (lookup (bucket_key key) l.buckets)) [
  | inl e ↦ rw (e, allow_bucket)
  | inr (b, e) ↦ rw (e, allow_bucket) (let h' = rw e at h in rw h')
]

-- If a key of a well-formed limiter has no live window at the instant `t`, then of its request at `t` and any further ones
-- before `t + window_dur`, in any number, exactly the first `max` are let through.
pub run_window :
    (l : FixedWindow) (key : Text) (t : ℕ) (ts : List ℕ)
    → IsValid l
    → is_stale l (lookup (bucket_key key) l.buckets) t ≡ true
    → AllBefore (t + l.window_dur) ts
    → (run l key (t ∷ ts)).1 ≡ min (suc (length ts)) l.max
unfolding run
run_window l key t ts v h before = rw (allow_fresh l key t h) (
    ap suc (
      run_live _ key ts (record { window_start = t; count = 1 })
        (lookup-insert_self (bucket_key key) _ l.buckets) before)
    ∙ omega (arith, v.max_pos))
