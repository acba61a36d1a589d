-- ===== src/Http/AccessLog/Laws.antt =====
-- What the access log of cmd/mail-admin/app/infra/httpx/httpx.go says of a response.
use ucware_mail_server.Base.{
  ℕ, ◌+◌, ◌==◌, ◌≡◌, refl, List, [], ◌∷◌, arith, ◌∙◌, Bool-cases, inl, inr, false,
}
use ucware_mail_server.Http.AccessLog.{
  Call, write_header, write, ResponseRecorder, or_ok, record_call, record_calls, recorded,
}

-- The calls of a handler that writes these many bytes, one piece after the other.
abbrev pub writes : List ℕ → List Call
writes [] = []
writes (n ∷ ns) = write n ∷ writes ns

abbrev pub sum : List ℕ → ℕ
sum [] = 0
sum (n ∷ ns) = n + sum ns

or_ok-or_ok : (s : ℕ) → or_ok (or_ok s) ≡ or_ok s
or_ok-or_ok s = elim (Bool-cases (s == 0)) [ inl e ↦ rw e refl | inr e ↦ rw (e, e) refl ]

record_calls-writes :
    (ns : List ℕ) (r : ResponseRecorder)
    → (or_ok (record_calls (writes ns) r).status ≡ or_ok r.status)
      × ((record_calls (writes ns) r).bytes ≡ r.bytes + sum ns)
unfolding record_calls
record_calls-writes [] r = (refl, ground arith)
record_calls-writes (n ∷ ns) r =
    let rest = record_calls-writes ns (record_call (write n) r) in
    (rest.0 ∙ or_ok-or_ok r.status, ground (arith, rest))

abbrev recorder : ℕ → ℕ → ResponseRecorder
recorder status bytes = record { status = status; bytes = bytes }

-- Where a handler names the status of its answer first, and not as 0, or not at all, the line has
-- the status that was named or 200, and the number of bytes written.
pub recorded-named :
    (code : ℕ) (ns : List ℕ)
    → (code == 0) ≡ false
    → recorded (write_header code ∷ writes ns) ≡ record { status = code; bytes = sum ns }
unfolding recorded record_calls
recorded-named code ns h =
    let rest = record_calls-writes ns (recorder code 0) in
    let named : or_ok code ≡ code = rw h refl in
    let total : (record_calls (writes ns) (recorder code 0)).bytes ≡ sum ns =
      ground (arith, rest) in
    rw (rest.0 ∙ named, total) refl

pub recorded-writes : (ns : List ℕ) → recorded (writes ns) ≡ record { status = 200; bytes = sum ns }
unfolding recorded
recorded-writes ns =
    let rest = record_calls-writes ns (recorder 0 0) in
    let total : (record_calls (writes ns) (recorder 0 0)).bytes ≡ sum ns = ground (arith, rest) in
    rw (rest.0, total) refl
