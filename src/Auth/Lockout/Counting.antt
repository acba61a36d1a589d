-- ===== src/Auth/Lockout/Counting.antt =====
-- What a run of failed logins does to the lock of an email.
use ucware_mail_server.Base.{
  ℕ, suc, ◌+◌, ◌*◌, ◌<◌, ◌≤◌, ◌≡◌, ◌≢◌, refl, ap, inl, inr, true, Option, none, some, List, [], ◌∷◌,
  leb, arith, Bool-cases, length,
}
use ucware_mail_server.Text.{Text}
use ucware_mail_server.Dict.{lookup, insert, lookup-insert_self, lookup-insert_other}
use ucware_mail_server.RateLimit.{minute}
use ucware_mail_server.Auth.State.{Config, Env, Service, is_valid_email}
use ucware_mail_server.Auth.Lockout.{
  key_of, failures_of, is_locked_until, check_lock, count_failure, is_login_locked,
  register_login_failure,
}

check_lock-store :
    (key : Text) (t : ℕ) (o : Option ℕ) (s : Service) → (check_lock key t o s).0.store ≡ s.store
unfolding check_lock
check_lock-store key t none s = refl
check_lock-store key t (some until) s = ground arith

module _ (env : Env) (c : Config) where
  -- Failed logins of one email at the given times.
  unfoldable pub fail_at : Text → List ℕ → Service → Service
  unfolding register_login_failure
  fail_at email [] s = s
  fail_at email (t ∷ ts) s = fail_at email ts (register_login_failure env c email t s)

  -- The failures that are counted for an email.
  abbrev pub count_of : Text → Service → ℕ
  count_of email s = failures_of (lookup (key_of email) s.login_failures)

  abbrev pub lock_of : Text → Service → Option ℕ
  lock_of email s = lookup (key_of email) s.login_locked_until

  register-below :
      (email : Text) (t : ℕ) (s : Service)
      → is_valid_email env (key_of email) ≡ true
      → lock_of email s ≡ none
      → suc (count_of email s) < c.login_fail_threshold
      → register_login_failure env c email t s ≡ record s {
        login_failures = insert (key_of email) (suc (count_of email s)) s.login_failures;
      }
  unfolding register_login_failure count_failure is_locked_until
  register-below email t s valid free below = rw (valid, free) (ground (arith, below))

  register-at :
      (email : Text) (t : ℕ) (s : Service)
      → is_valid_email env (key_of email) ≡ true
      → lock_of email s ≡ none
      → c.login_fail_threshold ≤ suc (count_of email s)
      → register_login_failure env c email t s ≡ record s {
        login_locked_until =
            insert (key_of email) (t + c.login_lock_minutes * minute) s.login_locked_until;
        login_failures = insert (key_of email) 0 s.login_failures;
      }
  unfolding register_login_failure count_failure is_locked_until
  register-at email t s valid free above = rw (valid, free) (ground (arith, above))

  abbrev pub last_of : ℕ → List ℕ → ℕ
  last_of t [] = t
  last_of t (u ∷ us) = last_of u us

  -- From a well-formed email that is not locked, the failed logins that bring its count to the threshold lock
  -- it for `login_lock_minutes` from the last of them on.
  pub fail_at-locks :
      (email : Text) (t : ℕ) (ts : List ℕ) (s : Service)
      → is_valid_email env (key_of email) ≡ true
      → lock_of email s ≡ none
      → count_of email s + suc (length ts) ≡ c.login_fail_threshold
      → lock_of email (fail_at email (t ∷ ts) s)
        ≡ some (last_of t ts + c.login_lock_minutes * minute)
  unfolding fail_at
  fail_at-locks email t [] s valid free total =
      rw (register-at email t s valid free (omega (arith, total)))
        (lookup-insert_self (key_of email) (t + c.login_lock_minutes * minute) s.login_locked_until)
  fail_at-locks email t (u ∷ us) s valid free total =
      rw (fail_at, register-below email t s valid free (omega (arith, total)))
        (fail_at-locks email u us
          (record s {
            login_failures = insert (key_of email) (suc (count_of email s)) s.login_failures;
          })
          valid free
          (rw (lookup-insert_self (key_of email) (suc (count_of email s)) s.login_failures)
            (omega (arith, total))))

  -- An email whose lock lies ahead is locked, and the service stays as it is.
  pub is_login_locked-ahead :
      (email : Text) (now until : ℕ) (s : Service)
      → is_valid_email env (key_of email) ≡ true
      → lock_of email s ≡ some until
      → now < until
      → is_login_locked env email now s ≡ (s, true)
  unfolding is_login_locked check_lock
  is_login_locked-ahead email now until s valid locked ahead =
      rw (valid, locked) (ground (arith, ahead))

  -- The count and the lock of an email are as before.
  abbrev pub Untouched : Text → Service → Service → Type 0
  Untouched email s s' =
      (count_of email s' ≡ count_of email s) × (lock_of email s' ≡ lock_of email s)

  count_failure-other :
      (email other : Text) (t n : ℕ) (s : Service)
      → key_of email ≢ key_of other
      → Untouched other s (count_failure c (key_of email) t n s)
  unfolding count_failure
  count_failure-other email other t n s differ = elim (Bool-cases (leb c.login_fail_threshold n)) [
    | inl e ↦ rw e (
      ap failures_of (lookup-insert_other (key_of email) (key_of other) 0 s.login_failures differ),
      lookup-insert_other (key_of email) (key_of other) (t + c.login_lock_minutes * minute)
          s.login_locked_until differ,
    )
    | inr e ↦ rw e (
      ap failures_of (lookup-insert_other (key_of email) (key_of other) n s.login_failures differ),
      refl,
    )
  ]

  -- A failed login of an email changes neither the count nor the lock of another.
  pub register_login_failure-other :
      (email other : Text) (t : ℕ) (s : Service)
      → key_of email ≢ key_of other
      → Untouched other s (register_login_failure env c email t s)
  unfolding register_login_failure
  register_login_failure-other email other t s differ =
      elim (Bool-cases (is_valid_email env (key_of email))) [
        | inr e ↦ rw e (refl, refl)
        | inl e ↦ elim (Bool-cases (is_locked_until (lock_of email s) t)) [
          | inl l ↦ rw (e, l) (refl, refl)
          | inr l ↦ rw (e, l) (count_failure-other email other t (suc (count_of email s)) s differ)
        ]
      ]

  -- The check of the lock leaves the store alone.
  pub is_login_locked-store :
      (email : Text) (t : ℕ) (s : Service) → (is_login_locked env email t s).0.store ≡ s.store
  unfolding is_login_locked check_lock
  is_login_locked-store email t s = elim (Bool-cases (is_valid_email env (key_of email))) [
    | inr e ↦ rw e refl
    | inl e ↦ rw e (check_lock-store (key_of email) t (lock_of email s) s)
  ]
