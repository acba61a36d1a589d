-- ===== src/Text/Path.antt =====
-- `filepath.Base`, `filepath.Clean` and `filepath.Join` on Unix, which work on the text alone.
use ucware_mail_server.Base.{Bool, true, false, ◌||◌, List, [], ◌∷◌, ◌==◌, ◌≡◌, refl, if◌then◌else◌}
use ucware_mail_server.Text.{Text, codes, text_eq, is_empty, trim_right_by}
use ucware_mail_server.Text.Lines.{split, join}

abbrev pub last_piece : List Text → Text
last_piece [] = []
last_piece (l ∷ []) = l
last_piece (l ∷ m ∷ ls) = last_piece (m ∷ ls)

or_slash : Text → Text
unfolding split
or_slash [] = codes "/"
or_slash (c ∷ s) = last_piece (split b'/' (c ∷ s))

unfoldable pub base : Text → Text
unfolding or_slash trim_right_by
base [] = codes "."
base (c ∷ s) = or_slash (trim_right_by (λ b. b == b'/') (c ∷ s))

-- `..` takes the last element off, unless there is none to take.
pop : Bool → List Text → List Text
unfolding text_eq
pop rooted [] = if rooted then [] else codes ".." ∷ []
pop rooted (t ∷ ts) = if text_eq t (codes "..") then codes ".." ∷ t ∷ ts else ts

push : Bool → List Text → Text → List Text
unfolding pop text_eq
push rooted ts t =
    if is_empty t || text_eq t (codes ".")
    then ts
    else if text_eq t (codes "..")
    then pop rooted ts
    else t ∷ ts

-- The elements, the last one first.
push_all : Bool → List Text → List Text → List Text
unfolding push
push_all rooted ts [] = ts
push_all rooted ts (u ∷ us) = push_all rooted (push rooted ts u) us

abbrev onto {ℓ} : {A : Type ℓ} → List A → List A → List A
onto [] ys = ys
onto (x ∷ xs) ys = onto xs (x ∷ ys)

render : Bool → List Text → Text
unfolding join
render true ts = b'/' ∷ join (codes "/") ts
render false [] = codes "."
render false (t ∷ ts) = join (codes "/") (t ∷ ts)

abbrev is_rooted : Text → Bool
is_rooted [] = false
is_rooted (c ∷ s) = c == b'/'

unfoldable pub clean : Text → Text
unfolding push_all render split
clean p = render (is_rooted p) (onto (push_all (is_rooted p) [] (split b'/' p)) [])

-- Empty elements are left out; without any other the path is empty.
unfoldable pub join_path : List Text → Text
unfolding clean join
join_path [] = []
join_path (e ∷ es) =
    let rest = join_path es in if is_empty e then rest else clean (join (codes "/") (e ∷ es))

clean_test : clean (codes "/a//b/../.././../c/") ≡ codes "/c"
unfolding clean
clean_test = refl

join_test : join_path ([] ∷ codes "x.kr" ∷ codes "a/../../b" ∷ []) ≡ codes "b"
unfolding join_path
join_test = refl

base_test : base (codes "a/b.txt//") ≡ codes "b.txt"
unfolding base
base_test = refl
