-- ===== src/Store/Tokens/PopOnce.antt =====
-- An OAuth2 state is handed out once.
use ucware_mail_server.Base.{
  ℕ, ◌+◌, ◌≡◌, refl, inl, inr, Option, none, some, List, [], ◌∷◌, find?, Bool-cases,
}
use ucware_mail_server.Text.{Text}
use ucware_mail_server.Sql.{no_rows, err, delete_where}
use ucware_mail_server.Store.Types.{Oauth2State, Store, statement}
use ucware_mail_server.Store.Tokens.{is_state, drop_state, attempt, pop_oauth2_state}

find?-delete_state :
    (state : Text) (rows : List Oauth2State)
    → find? (is_state state) (delete_where (is_state state) rows) ≡ none
find?-delete_state state [] = refl
find?-delete_state state (st ∷ rows) = elim (Bool-cases (is_state state st)) [
  | inl e ↦ rw e (find?-delete_state state rows)
  | inr e ↦ rw (e, e) (find?-delete_state state rows)
]

module _ (fault : ℕ → Option Text) where
  pop-drops :
      (state : Text) (s : Store) (st : Oauth2State)
      → find? (is_state state) s.oauth2_states ≡ some st
      → fault s.statements ≡ none
      → fault (s.statements + 1) ≡ none
      → (pop_oauth2_state fault state s).1.oauth2_states
        ≡ delete_where (is_state state) s.oauth2_states
  unfolding pop_oauth2_state attempt drop_state
  pop-drops state s st m e f = rw (statement, e, m, statement, f) refl

  pop-missing :
      (state : Text) (s : Store)
      → find? (is_state state) s.oauth2_states ≡ none
      → fault s.statements ≡ none
      → (pop_oauth2_state fault state s).0 ≡ err no_rows
  unfolding pop_oauth2_state
  pop-missing state s m e = rw (statement, e, m) refl

  -- A stored state is handed out once: where the database fails no statement, the next request for
  -- the same state finds no row.
  pub pop_oauth2_state-again :
      (state : Text) (s : Store) (st : Oauth2State)
      → find? (is_state state) s.oauth2_states ≡ some st
      → ((n : ℕ) → fault n ≡ none)
      → (pop_oauth2_state fault state (pop_oauth2_state fault state s).1).0 ≡ err no_rows
  pop_oauth2_state-again state s st m quiet =
      pop-missing state (pop_oauth2_state fault state s).1
        (rw (pop-drops state s st m (quiet _) (quiet _)) (find?-delete_state state s.oauth2_states))
        (quiet _)
