-- ===== src/Pop3/Maildrop/Numbers.antt =====
-- Message numbers: what `parseIndex` accepts, and what `DELE` and `RSET` do to `STAT`.
use ucware_mail_server.Base.{
  ℕ, zero, suc, ◌+◌, ◌-◌, ◌<◌, ◌≡◌, ◌≢◌, ◌↔◌, refl, ap, false, Option, none, some, List, [], ◌∷◌,
  arith, length, get_elem?,
}
use ucware_mail_server.Text.{Text, trim_space}
use ucware_mail_server.Text.Numbers.{ℤ, pos, negsuc, atoi}
use ucware_mail_server.Pop3.Maildrop.{Msg, stat, unmarked, at_number, parse_index, mark, unmark_all}

get_elem?-lt-length : (ms : List Msg) (i : ℕ) {m : Msg} → get_elem? ms i ≡ some m → i < length ms
get_elem?-lt-length [] i e = cc
get_elem?-lt-length (x ∷ ms) zero e = omega arith
get_elem?-lt-length (x ∷ ms) (suc i) e = omega (arith, get_elem?-lt-length ms i e)

unmarked-eq-some :
    (j : ℕ) (o : Option Msg) (i : ℕ) (m : Msg)
    → (unmarked j o ≡ some (i, m)) ↔ ((j ≡ i) × (o ≡ some m) × (m.deleted ≡ false))
unfolding unmarked
unmarked-eq-some j none i m = ((λ h. cc), λ h. cc h.1)
unmarked-eq-some j (some x) i m =
    ((λ h. (ground arith, ground arith, ground arith)), λ h. ground (arith, h.0, h.1, h.2))

at_number-eq-some :
    (ms : List Msg) (o : Option ℤ) (i : ℕ) (m : Msg)
    → (at_number ms o ≡ some (i, m))
      ↔ ((o ≡ some (pos (i + 1))) × (get_elem? ms i ≡ some m) × (m.deleted ≡ false))
unfolding at_number
at_number-eq-some ms none i m = ((λ h. cc), λ h. cc h.0)
at_number-eq-some ms (some (negsuc n)) i m = ((λ h. cc), λ h. cc h.0)
at_number-eq-some ms (some (pos zero)) i m = ((λ h. cc), λ h. ground (arith, h.0))
at_number-eq-some ms (some (pos (suc k))) i m =
    let iff = unmarked-eq-some (suc k - 1) (get_elem? ms (suc k - 1)) i m in
    (
      (λ h. ground (arith, iff.0)),
      λ h. ground (arith, iff.1, get_elem?-lt-length ms i h.1, h.0, h.1, h.2),
    )

-- `parseIndex` accepts an argument exactly if it reads as a number from 1 to the length of the
-- maildrop and the message of that number is not marked; the index is the number less 1.
pub parse_index-eq-some_iff :
    (raw : Text) (ms : List Msg) (i : ℕ) (m : Msg)
    → (parse_index raw ms ≡ some (i, m)) ↔ (
        (atoi (trim_space raw) ≡ some (pos (i + 1)))
        × (get_elem? ms i ≡ some m)
        × (m.deleted ≡ false))
unfolding parse_index
parse_index-eq-some_iff raw ms i m = at_number-eq-some ms (atoi (trim_space raw)) i m

-- Marking a message takes it, and its octets, off the count of `STAT`.
pub stat-mark :
    (ms : List Msg) (i : ℕ) (m : Msg)
    → get_elem? ms i ≡ some m
    → m.deleted ≡ false
    → stat ms ≡ (suc (stat (mark i m ms)).0, m.size + (stat (mark i m ms)).1)
unfolding stat mark
stat-mark [] i m e d = cc
stat-mark (x ∷ ms) zero m e d = ground arith
stat-mark (x ∷ ms) (suc i) m e d = ground (arith, stat-mark ms i m e d)

-- Marking leaves the other messages, and all numbers, as they are.
pub get_elem?-mark_other :
    (ms : List Msg) (i j : ℕ) (m : Msg) → i ≢ j → get_elem? (mark i m ms) j ≡ get_elem? ms j
unfolding mark
get_elem?-mark_other [] i j m n = refl
get_elem?-mark_other (x ∷ ms) zero zero m n = absurd (n refl)
get_elem?-mark_other (x ∷ ms) zero (suc j) m n = refl
get_elem?-mark_other (x ∷ ms) (suc i) zero m n = refl
get_elem?-mark_other (x ∷ ms) (suc i) (suc j) m n =
    get_elem?-mark_other ms i j m (λ e. n (ap suc e))

-- `RSET` undoes a `DELE`.
pub unmark_all-mark :
    (ms : List Msg) (i : ℕ) (m : Msg)
    → get_elem? ms i ≡ some m
    → unmark_all (mark i m ms) ≡ unmark_all ms
unfolding unmark_all mark
unmark_all-mark [] i m e = refl
unmark_all-mark (x ∷ ms) zero m e = ground arith
unmark_all-mark (x ∷ ms) (suc i) m e = ground (arith, unmark_all-mark ms i m e)

pub unmark_all-unmark_all : (ms : List Msg) → unmark_all (unmark_all ms) ≡ unmark_all ms
unfolding unmark_all
unmark_all-unmark_all [] = refl
unmark_all-unmark_all (m ∷ ms) = ground (arith, unmark_all-unmark_all ms)
