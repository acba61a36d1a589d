-- ===== src/Mail/Inbox.antt =====
-- The mailbox that the delivery and the maildrop choose, whatever order the database lists in.
use ucware_mail_server.Base.{
  ℕ, zero, suc, ◌≤◌, ◌≡◌, ◌⊎◌, inl, inr, refl, ap, true, false, none, some, List, [], ◌∷◌, map,
  length, take, arith, Bool-cases,
}
use ucware_mail_server.Text.{Text, equal_fold, to_lower, trim_space}
use ucware_mail_server.Text.Equality.{text_eq_self}
use ucware_mail_server.Archive.{Mailbox, mailboxes_of, mailbox_of}
use ucware_mail_server.Lmtp.Delivery.{named}
use ucware_mail_server.Pop3.Session.{inbox_id}

abbrev pub In : {A : Type 0} → A → List A → Type 0
In x [] = ⊥
In x (y ∷ ys) = (x ≡ y) ⊎ In x ys

-- What `ORDER BY` does: the same rows, as many.
pub record Reorders {A : Type 0} (order : List A → List A) : Type 0 where
  pub forth : (x : A) (xs : List A) → In x xs → In x (order xs)
  pub back : (x : A) (xs : List A) → In x (order xs) → In x xs
  pub same_length : (xs : List A) → length (order xs) ≡ length xs

module _ (name : Text) where
  pub inbox_id-named :
      (bs : List Mailbox) (id : Text) → named name bs ≡ some id → inbox_id name bs ≡ id
  unfolding inbox_id named
  inbox_id-named [] id h = absurd cc
  inbox_id-named (b ∷ bs) id h = elim (Bool-cases (equal_fold b.name name)) [
    | inl e ↦ let same : b.id ≡ id = ground (arith, rw e at h) in rw e same
    | inr e ↦ rw e (inbox_id-named bs id (rw e at h))
  ]

  pub named_none :
      (bs : List Mailbox) (b : Mailbox)
      → named name bs ≡ none
      → In b bs
      → equal_fold b.name name ≡ false
  unfolding named
  named_none [] b h k = elim k [ ]
  named_none (c ∷ bs) b h k = elim (Bool-cases (equal_fold c.name name)) [
    | inl e ↦ absurd (ground (arith, rw e at h))
    | inr e ↦ elim k [ inl same ↦ rw same e | inr i ↦ named_none bs b (rw e at h) i ]
  ]

  -- The only mailbox of the name is the one that is found.
  inbox_id_only :
      (bs : List Mailbox) (b : Mailbox)
      → equal_fold b.name name ≡ true
      → In b bs
      → ((c : Mailbox) → In c bs → equal_fold c.name name ≡ true → c.id ≡ b.id)
      → inbox_id name bs ≡ b.id
  unfolding inbox_id
  inbox_id_only [] b h k only = elim k [ ]
  inbox_id_only (c ∷ bs) b h k only = elim (Bool-cases (equal_fold c.name name)) [
    | inl e ↦ rw e (only c (inl refl) e)
    | inr e ↦ rw e (inbox_id_only bs b h (later k e) (λ d i. only d (inr i)))
  ]
    where
      later : In b (c ∷ bs) → equal_fold c.name name ≡ false → In b bs
      later (inl same) e =
          let same_name : b.name ≡ c.name = ap (λ (m : Mailbox). m.name) same in
          let named_too : equal_fold c.name name ≡ true = rw (← same_name) h in
          absurd (ground (arith, named_too, e))
      later (inr i) e = i

  -- A new mailbox of the name, where there was none.
  pub inbox_id_new :
      (order : List Mailbox → List Mailbox)
      → Reorders order
      → (b : Mailbox) (bs : List Mailbox) → equal_fold b.name name ≡ true
      → named name (order bs) ≡ none
      → inbox_id name (order (b ∷ bs)) ≡ b.id
  inbox_id_new order o b bs h none_yet =
      inbox_id_only (order (b ∷ bs)) b h (o.forth b (b ∷ bs) (inl refl))
        λ c i e. which c e (o.back c (b ∷ bs) i)
    where
      which : (c : Mailbox) → equal_fold c.name name ≡ true → In c (b ∷ bs) → c.id ≡ b.id
      which c e (inl same) = ap (λ (m : Mailbox). m.id) same
      which c e (inr i) =
          absurd (ground (arith, e, named_none (order bs) c none_yet (o.forth c bs i)))

-- The mailboxes of a user with a new one of his.
pub mailboxes_of_new :
    (id : Text) (now : ℕ) (user name : Text) (bs : List Mailbox)
    → mailboxes_of user (mailbox_of id now user name ∷ bs)
      ≡ mailbox_of id now user name ∷ mailboxes_of user bs
mailboxes_of_new id now user name bs = ground (arith, text_eq_self (to_lower (trim_space user)))

pub take_all : {A : Type 0} (n : ℕ) (xs : List A) → length xs ≤ n → take n xs ≡ xs
take_all zero [] h = refl
take_all (suc n) [] h = refl
take_all zero (x ∷ xs) h = absurd (omega arith)
take_all (suc n) (x ∷ xs) h = ap (◌∷◌ x) (take_all n xs (omega (arith, h)))

pub In-map : {A B : Type 0} (f : A → B) (x : A) (xs : List A) → In x xs → In (f x) (map f xs)
In-map f x [] h = elim h [ ]
In-map f x (y ∷ xs) (inl e) = inl (ap f e)
In-map f x (y ∷ xs) (inr h) = inr (In-map f x xs h)
