-- ===== src/Lmtp/Serve/Envelope.antt =====
-- The envelope, the replies of a transaction, and that the loop ends.
use ucware_mail_server.Base.{
  ℕ, zero, suc, ◌+◌, ◌≤◌, ◌<◌, ◌≡◌, refl, sym, ap, ◌∙◌, inl, inr, Option, some, List, [], ◌∷◌, ◌++◌,
  arith, leb, if◌then◌else◌, length, length-append, Bool-cases,
}
use mathlib.Core.List.{append_assoc}
use ucware_mail_server.Text.{Text, codes, is_empty, has_prefix}
use ucware_mail_server.Sql.{Error, Result, ok, err}
use ucware_mail_server.Archive.{Message, Archive}
use ucware_mail_server.Lmtp.Address.{extract_lmtp_angle}
use ucware_mail_server.Lmtp.DotData.{Read, done, too_large, eof}
use ucware_mail_server.Lmtp.DotData.Framing.{Bounded, read_dot_data-Bounded}
use ucware_mail_server.Lmtp.Delivery.{Env, deliver_one}
use ucware_mail_server.Lmtp.Delivery.Stored.{Delivers, deliver_one-Delivers}
use ucware_mail_server.Lmtp.Serve.{
  Session, Next, go_on, stop, Verb, lhlo, mail, rcpt, data_verb, rset, noop, quit, unknown,
  max_rcpts, limit_of, no_rcpts, delivery_reply, deliver_all, refuse_all, after_read, data_step,
  command, step, run,
}

-- A predicate of the session that goes on or stops.
abbrev pub Of : (Session → Type 0) → Next → Type 0
Of P (go_on s _) = P s
Of P (stop s) = P s

abbrev pub FewRcpts : Session → Type 0
FewRcpts s = length s.rcpts ≤ max_rcpts

-- The lines left after a command are fewer than before it.
abbrev Shorter : ℕ → Next → Type 0
Shorter n (go_on _ rest) = length rest ≤ n
Shorter n (stop _) = Unit {0}

-- How many replies report a delivery.
abbrev pub accepted : List Text → ℕ
accepted [] = 0
accepted (r ∷ rs) = (if has_prefix r (codes "250") then 1 else 0) + accepted rs

accepted_ok :
    (r : Text) (u : Unit {0}) (rs : List Text)
    → accepted (delivery_reply r (ok u) ∷ rs) ≡ suc (accepted rs)
unfolding delivery_reply has_prefix
accepted_ok r u rs = omega arith

accepted_err :
    (r : Text) (e : Error) (rs : List Text) → accepted (delivery_reply r (err e) ∷ rs) ≡ accepted rs
unfolding delivery_reply has_prefix
accepted_err r e rs = omega arith

-- The messages `new` are the ones that the archive `b` has more than `a`, one for each report.
pub record Reported (a b : Archive) (rs : List Text) : Type 0 where
  pub new : List Message
  pub stored : b.messages ≡ new ++ a.messages
  pub counted : length new ≡ accepted rs

one-Reported :
    (from raw r : Text) (a b : Archive) (d : Result (Unit {0}) × Archive) (rs : List Text)
    → Delivers from raw r a d
    → Reported d.1 b rs
    → Reported a b (delivery_reply r d.0 ∷ rs)
one-Reported from raw r a b (ok u, c) rs d later = record {
  new = later.new ++ d.0 ∷ [];
  stored = later.stored ∙ rw d.1 (sym (append_assoc later.new (d.0 ∷ []) a.messages));
  counted = omega (arith, length-append later.new (d.0 ∷ []), later.counted, accepted_ok r u rs);
}
one-Reported from raw r a b (err x, c) rs e later = record {
  new = later.new;
  stored = later.stored ∙ ap (◌++◌ later.new) e;
  counted = omega (arith, later.counted, accepted_err r x rs);
}

module _ (env : Env) where
  -- After the data, each recipient gets one reply, and the archive has one message more for each
  -- reply that reports a delivery; no message that it held is lost.
  pub deliver_all-Reported :
      (from raw : Text) (received_at : ℕ) (rs : List Text) (a : Archive)
      → (length (deliver_all env from raw received_at rs a).1 ≡ length rs)
        × Reported a
            (deliver_all env from raw received_at rs a).0
            (deliver_all env from raw received_at rs a).1
  unfolding deliver_all
  deliver_all-Reported from raw t [] a = (refl, record { new = []; stored = refl; counted = refl })
  deliver_all-Reported from raw t (r ∷ rs) a =
      let one = deliver_one env from raw r t a in
      let later = deliver_all-Reported from raw t rs one.1 in
      (
        ap suc later.0,
        one-Reported from raw r a (deliver_all env from raw t rs one.1).0 one
            (deliver_all env from raw t rs one.1).1 (deliver_one-Delivers env from raw r t a)
            later.1,
      )

  after_read-FewRcpts :
      (s : Session) (from : Text) (rcpts : List Text) (r : Read)
      → FewRcpts s
      → Of FewRcpts (after_read env s from rcpts r)
  unfolding after_read refuse_all
  after_read-FewRcpts s from rcpts (done raw rest) h = h
  after_read-FewRcpts s from rcpts (too_large rest) h = h
  after_read-FewRcpts s from rcpts eof h = h

  data_step-FewRcpts :
      (s : Session) (lines : List Text) → FewRcpts s → Of FewRcpts (data_step env s lines)
  unfolding data_step
  data_step-FewRcpts s lines h = elim (Bool-cases (is_empty s.from)) [
    | inl e ↦ rw e h
    | inr e ↦ elim (Bool-cases (no_rcpts s.rcpts)) [
      | inl f ↦ rw (e, f) h
      | inr f ↦ rw (e, f) (after_read-FewRcpts _ s.from s.rcpts _ (omega arith))
    ]
  ]

  command-FewRcpts :
      (v : Verb) (arg : Text) (s : Session) (lines : List Text)
      → FewRcpts s
      → Of FewRcpts (command env v arg s lines)
  unfolding command
  command-FewRcpts rcpt arg s lines h = elim (Bool-cases (leb max_rcpts (length s.rcpts))) [
    | inl e ↦ rw e h
    | inr e ↦ rw e (ground (arith, length-append s.rcpts (extract_lmtp_angle arg ∷ [])))
  ]
  command-FewRcpts data_verb arg s lines h = data_step-FewRcpts s lines h
  command-FewRcpts lhlo arg s lines h = h
  command-FewRcpts mail arg s lines h = omega arith
  command-FewRcpts rset arg s lines h = omega arith
  command-FewRcpts noop arg s lines h = h
  command-FewRcpts quit arg s lines h = h
  command-FewRcpts unknown arg s lines h = h

  after_read-Shorter :
      (s : Session) (from : Text) (rcpts : List Text) (max n : ℕ) (r : Read)
      → Bounded max n r
      → Shorter n (after_read env s from rcpts r)
  unfolding after_read
  after_read-Shorter s from rcpts max n (done raw rest) h = omega arith
  after_read-Shorter s from rcpts max n (too_large rest) h = omega arith
  after_read-Shorter s from rcpts max n eof h = omega arith

  data_step-Shorter :
      (s : Session) (lines : List Text) → Shorter (length lines) (data_step env s lines)
  unfolding data_step
  data_step-Shorter s lines = elim (Bool-cases (is_empty s.from)) [
    | inl e ↦ rw e (omega arith)
    | inr e ↦ elim (Bool-cases (no_rcpts s.rcpts)) [
      | inl f ↦ rw (e, f) (omega arith)
      | inr f ↦
          rw (e, f)
            (after_read-Shorter _ s.from s.rcpts (limit_of env.max_message_bytes) (length lines) _
              (read_dot_data-Bounded (limit_of env.max_message_bytes) lines))
    ]
  ]

  command-Shorter :
      (v : Verb) (arg : Text) (s : Session) (lines : List Text)
      → Shorter (length lines) (command env v arg s lines)
  unfolding command
  command-Shorter rcpt arg s lines = elim (Bool-cases (leb max_rcpts (length s.rcpts))) [
    | inl e ↦ rw e (omega arith)
    | inr e ↦ rw e (omega arith)
  ]
  command-Shorter data_verb arg s lines = data_step-Shorter s lines
  command-Shorter quit arg s lines = tt
  command-Shorter lhlo arg s lines = omega arith
  command-Shorter _ arg s lines = omega arith

  -- The loop ends in a session with few recipients.
  abbrev Ends : Option Session → Type 0
  Ends o = (t : Session) × (o ≡ some t) × FewRcpts t

  resume : ℕ → Next → Option Session
  resume fuel (go_on s rest) = run env fuel s rest
  resume fuel (stop s) = some s

  resume-Ends :
      (fuel n : ℕ) (next : Next)
      → ((s : Session) (lines : List Text)
          → length lines < fuel
          → FewRcpts s
          → Ends (run env fuel s lines))
      → n < fuel
      → Shorter n next
      → Of FewRcpts next
      → Ends (resume fuel next)
  unfolding resume
  resume-Ends fuel n (go_on s rest) ih h short few = ih s rest (omega arith) few
  resume-Ends fuel n (stop s) ih h short few = (s, refl, few)

  run-suc :
      (fuel : ℕ) (s : Session) (l : Text) (lines : List Text)
      → run env (suc fuel) s (l ∷ lines) ≡ resume fuel (step env s l lines)
  unfolding run resume
  run-suc fuel s l lines = refl

  -- The loop ends with a session, with one round of fuel for each line and one more: no command
  -- reads more lines than there are. If the session had at most 100 recipients, it still does.
  pub run_total :
      (fuel : ℕ) (s : Session) (lines : List Text)
      → length lines < fuel
      → FewRcpts s
      → (t : Session) × (run env fuel s lines ≡ some t) × FewRcpts t
  run_total zero s lines h f = absurd (omega arith)
  run_total (suc fuel) s [] h f = unfold run in (s, refl, f)
  run_total (suc fuel) s (l ∷ lines) h f = rw (run-suc fuel s l lines) (
      resume-Ends fuel (length lines) (step env s l lines)
        (λ s' rest h' f'. run_total fuel s' rest h' f') (omega arith)
        (unfold step in command-Shorter _ _ s lines)
        (unfold step in command-FewRcpts _ _ s lines f))
