-- ===== src/Text/Order/Finding.antt =====
-- Finding an element in a sorted list.
use ucware_mail_server.Base.{◌≤◌, ◌≡◌, refl, Bool, List, [], ◌∷◌, length, filter, find?, arith}
use ucware_mail_server.Text.Order.{sort, insert_sorted}

module _ {A : Type 0} (lt : A → A → Bool) (p : A → Bool) where
  count-insert_sorted :
      (a : A) (xs : List A) → length (filter p (insert_sorted lt a xs)) ≡ length (filter p (a ∷ xs))
  unfolding insert_sorted
  count-insert_sorted a [] = refl
  count-insert_sorted a (x ∷ xs) = ground (arith, count-insert_sorted a xs)

  pub count-sort : (xs : List A) → length (filter p (sort lt xs)) ≡ length (filter p xs)
  unfolding sort
  count-sort [] = refl
  count-sort (x ∷ xs) = ground (arith, count-insert_sorted x (sort lt xs), count-sort xs)

  find?-insert_sorted :
      (a : A) (xs : List A)
      → length (filter p (a ∷ xs)) ≤ 1
      → find? p (insert_sorted lt a xs) ≡ find? p (a ∷ xs)
  unfolding insert_sorted
  find?-insert_sorted a [] h = refl
  find?-insert_sorted a (x ∷ xs) h = ground (arith, h, find?-insert_sorted a xs)

  -- Sorting does not change what is found where at most one element passes.
  pub find?-sort : (xs : List A) → length (filter p xs) ≤ 1 → find? p (sort lt xs) ≡ find? p xs
  unfolding sort
  find?-sort [] h = refl
  find?-sort (x ∷ xs) h =
      ground (arith, h, find?-insert_sorted x (sort lt xs), find?-sort xs, count-sort xs)
