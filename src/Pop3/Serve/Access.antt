-- ===== src/Pop3/Serve/Access.antt =====
-- Who gets into the TRANSACTION state, how often a connection may try, and when it may delete.
use ucware_mail_server.Base.{
  ℕ, ◌<◌, ◌≡◌, ◌≢◌, ◌⊎◌, refl, sym, ap, ◌∙◌, inl, inr, none, List, [], ◌∷◌, ◌++◌, arith, Bool-cases,
}
use ucware_mail_server.Text.{Text, is_empty, to_upper, trim_space, trim_eol, cut}
use ucware_mail_server.Archive.Reads.{SameTables, same_refl, same_trans}
use ucware_mail_server.Pop3.Session.{
  Env, Phase, auth, txn, closed, Session, commit_deletions, max_auth_fails,
}
use ucware_mail_server.Pop3.Session.Commit.{survivors, commit_deletions-messages}
use ucware_mail_server.Pop3.Session.LogIn.{
  Authentic, log_in-Authentic, log_in-SameTables, FewFails, log_in-FewFails,
}
use ucware_mail_server.Pop3.Serve.{
  Verb, user, pass, quit, auth_step, txn_step, command, step, run, verb_of,
}
use ucware_mail_server.Pop3.Serve.Frame.{txn_step-Frame}

-- The command and the argument of a line.
abbrev pub verb_in : Text → Verb
verb_in line = verb_of (to_upper (trim_space (cut b' ' (trim_eol line)).0))

abbrev pub arg_in : Text → Text
arg_in line = trim_space (cut b' ' (trim_eol line)).1

quit-cases : (v : Verb) → (v ≡ quit) ⊎ (v ≢ quit)
quit-cases quit = inl refl
quit-cases user = inr (cc)
quit-cases _ = inr (cc)

closed-cases : (p : Phase) → (p ≡ closed) ⊎ (p ≢ closed)
closed-cases closed = inl refl
closed-cases auth = inr (cc)
closed-cases txn = inr (cc)

module _ (env : Env) where
  auth_step-SameTables :
      (v : Verb) (arg : Text) (s : Session) → SameTables (auth_step env v arg s).archive s.archive
  unfolding auth_step
  auth_step-SameTables pass arg s = elim (Bool-cases (is_empty s.pending_user)) [
    | inl e ↦ rw e (same_refl s.archive)
    | inr e ↦ rw e (log_in-SameTables env s arg)
  ]
  auth_step-SameTables user arg s = elim (Bool-cases (is_empty arg)) [
    | inl e ↦ rw e (same_refl s.archive)
    | inr e ↦ rw e (same_refl s.archive)
  ]
  auth_step-SameTables _ arg s = same_refl s.archive

  auth_step-FewFails :
      (v : Verb) (arg : Text) (s : Session)
      → s.auth_fails < max_auth_fails
      → FewFails (auth_step env v arg s)
  unfolding auth_step
  auth_step-FewFails pass arg s h = elim (Bool-cases (is_empty s.pending_user)) [
    | inl e ↦ rw e (inl h)
    | inr e ↦ rw e (log_in-FewFails env s arg h)
  ]
  auth_step-FewFails user arg s h = elim (Bool-cases (is_empty arg)) [
    | inl e ↦ rw e (inl h)
    | inr e ↦ rw e (inl h)
  ]
  auth_step-FewFails _ arg s h = inl h

  txn_step-FewFails :
      (v : Verb) (arg : Text) (s : Session)
      → s.auth_fails < max_auth_fails
      → FewFails (txn_step env v arg s)
  txn_step-FewFails v arg s h = elim (quit-cases v) [
    | inl e ↦ rw e (inl (unfold txn_step in h))
    | inr e ↦ inl (omega (arith, (txn_step-Frame env v arg s e).fails_same))
  ]

  command-FewFails :
      (p : Phase) (v : Verb) (arg : Text) (s : Session)
      → p ≡ s.phase
      → FewFails s
      → FewFails (command env p v arg s)
  unfolding command
  command-FewFails auth v arg s e (inl h) = auth_step-FewFails v arg s h
  command-FewFails txn v arg s e (inl h) = txn_step-FewFails v arg s h
  command-FewFails auth v arg s e (inr (h, c)) = cc
  command-FewFails txn v arg s e (inr (h, c)) = cc
  command-FewFails closed v arg s e h = h

  step-FewFails : (s : Session) (line : Text) → FewFails s → FewFails (step env s line)
  unfolding step
  step-FewFails s line h = command-FewFails s.phase _ _ s refl h

  run_closed : (s : Session) (lines : List Text) → s.phase ≡ closed → run env s lines ≡ s
  unfolding run
  run_closed s [] e = refl
  run_closed s (l ∷ lines) e = rw e

  run_open :
      (s : Session) (line : Text) (lines : List Text)
      → s.phase ≢ closed
      → run env s (line ∷ lines) ≡ run env (step env s line) lines
  unfolding run
  run_open s line lines n = ground arith

  -- A connection fails to authenticate at most three times, and is closed at the third failure,
  -- whatever lines it sends.
  pub run-FewFails : (s : Session) (lines : List Text) → FewFails s → FewFails (run env s lines)
  unfolding run
  run-FewFails s [] h = h
  run-FewFails s (l ∷ lines) h = elim (closed-cases s.phase) [
    | inl e ↦ rw (run_closed s (l ∷ lines) e) h
    | inr n ↦ rw (run_open s l lines n) (run-FewFails (step env s l) lines (step-FewFails s l h))
  ]

  txn_step_quit :
      (arg : Text) (s : Session)
      → ((txn_step env quit arg s).phase ≡ closed)
        × ((txn_step env quit arg s).archive ≡ commit_deletions env s.messages s.archive)
  unfolding txn_step
  txn_step_quit arg s = (refl, refl)

  command-SameTables :
      (p : Phase) (v : Verb) (arg : Text) (s : Session)
      → (command env p v arg s).phase ≢ closed
      → SameTables (command env p v arg s).archive s.archive
  unfolding command
  command-SameTables auth v arg s n = auth_step-SameTables v arg s
  command-SameTables closed v arg s n = same_refl s.archive
  command-SameTables txn v arg s n = elim (quit-cases v) [
    | inl e ↦ absurd (n (ap (λ w. (txn_step env w arg s).phase) e ∙ (txn_step_quit arg s).0))
    | inr e ↦ (txn_step-Frame env v arg s e).tables
  ]

  step-SameTables :
      (s : Session) (line : Text)
      → (step env s line).phase ≢ closed
      → SameTables (step env s line).archive s.archive
  unfolding step
  step-SameTables s line n = command-SameTables s.phase _ _ s n

  -- A connection that breaks off before its `QUIT` leaves every mailbox and message in the archive.
  pub run-SameTables :
      (s : Session) (lines : List Text)
      → (run env s lines).phase ≢ closed
      → SameTables (run env s lines).archive s.archive
  unfolding run
  run-SameTables s [] n = same_refl s.archive
  run-SameTables s (l ∷ lines) n = elim (closed-cases s.phase) [
    | inl e ↦ absurd (n (ap (λ t. t.phase) (run_closed s (l ∷ lines) e) ∙ e))
    | inr going ↦
        let same = run_open s l lines going in
        let n' =
          λ (c : (run env (step env s l) lines).phase ≡ closed). n (ap (λ t. t.phase) same ∙ c) in
        let still = λ (c : (step env s l).phase ≡ closed).
          n' (ap (λ t. t.phase) (run_closed (step env s l) lines c) ∙ c) in
        rw same (same_trans (run-SameTables (step env s l) lines n') (step-SameTables s l still))
  ]

  run_one : (s : Session) (line : Text) → s.phase ≢ closed → run env s (line ∷ []) ≡ step env s line
  unfolding run
  run_one s line n = run_open s line [] n

  run-append : (s : Session) (ls ms : List Text) → run env s (ls ++ ms) ≡ run env (run env s ls) ms
  unfolding run
  run-append s [] ms = refl
  run-append s (l ∷ ls) ms = elim (closed-cases s.phase) [
    | inl e ↦
        rw (run_closed s (l ∷ (ls ++ ms)) e, run_closed s (l ∷ ls) e) (sym (run_closed s ms e))
    | inr n ↦ rw (run_open s l (ls ++ ms) n, run_open s l ls n) (run-append (step env s l) ls ms)
  ]

  step_quit :
      (s : Session) (line : Text)
      → s.phase ≡ txn
      → verb_in line ≡ quit
      → (step env s line).archive ≡ commit_deletions env s.messages s.archive
  unfolding step
  step_quit s line p v = rw (p, v) (txn_step_quit (arg_in line) s).1

  -- If a connection has reached the TRANSACTION state by some lines and then says `QUIT`, and the
  -- archive's database fails no statement, the messages of the archive are those that it held when the
  -- connection began, less exactly those whose entries of the maildrop are marked at the `QUIT`.
  pub run_quit :
      (s : Session) (lines : List Text) (line : Text)
      → (run env s lines).phase ≡ txn
      → verb_in line ≡ quit
      → ((n : ℕ) → env.sql.fault n ≡ none)
      → (run env s (lines ++ line ∷ [])).archive.messages
        ≡ survivors (run env s lines).messages s.archive.messages
  run_quit s lines line p v h =
      let t = run env s lines in
      let going = λ (c : t.phase ≡ closed). absurd (cc (p, c)) in
      ap (λ u. u.archive.messages) (run-append s lines (line ∷ []) ∙ run_one t line going)
      ∙ ap (λ a. a.messages) (step_quit t line p v)
      ∙ commit_deletions-messages env t.messages t.archive h
      ∙ ap (survivors t.messages) (run-SameTables s lines going).same_messages

  auth_step-txn :
      (v : Verb) (arg : Text) (s : Session)
      → s.phase ≡ auth
      → (auth_step env v arg s).phase ≡ txn
      → (v ≡ pass)
        × Authentic env s.pending_user arg s.store.users
        × ((auth_step env v arg s).user_email ≡ s.pending_user)
  unfolding auth_step
  auth_step-txn pass arg s p h = elim (Bool-cases (is_empty s.pending_user)) [
    | inl e ↦ absurd (ground arith)
    | inr e ↦ let done = log_in-Authentic env s arg (cc) (rw e at h) in (refl, done.0, rw e done.1)
  ]
  auth_step-txn user arg s p h = absurd (ground arith)
  auth_step-txn quit arg s p h = absurd (cc)
  auth_step-txn _ arg s p h = absurd (cc (p, h))

  -- A line takes a connection from the AUTHORIZATION to the TRANSACTION state only if it is a
  -- `PASS` whose argument matches the stored hash of the user that is pending; that user then is
  -- the user of the session.
  pub step-Authentic :
      (s : Session) (line : Text)
      → s.phase ≡ auth
      → (step env s line).phase ≡ txn
      → (verb_in line ≡ pass)
        × Authentic env s.pending_user (arg_in line) s.store.users
        × ((step env s line).user_email ≡ s.pending_user)
  unfolding step
  step-Authentic s line p h =
      let at_auth = ap (λ q. command env q (verb_in line) (arg_in line) s) p in
      let done =
        auth_step-txn (verb_in line) (arg_in line) s p
          (ap (λ t. t.phase) (sym at_auth ∙ unfold command in refl) ∙ h) in
      (done.0, done.1, ap (λ t. t.user_email) at_auth ∙ unfold command in done.2)
