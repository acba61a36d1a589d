-- ===== src/Lmtp/Address.antt =====
-- `extractLMTPAngle` of cmd/mail-admin/app/lmtp_server.go.
use ucware_mail_server.Base.{
  ℕ, zero, suc, ◌+◌, ◌-◌, ◌≡◌, refl, Bool, Option, none, some, [], ◌∷◌, ltb, ◌==◌, if◌then◌else◌,
  take,
}
use ucware_mail_server.Text.{Text, codes, trim_space}

abbrev later : Option ℕ → Option ℕ
later none = none
later (some i) = some (suc i)

-- `strings.IndexByte`.
unfoldable pub index_byte : ℕ → Text → Option ℕ
index_byte b [] = none
index_byte b (c ∷ s) = let rest = index_byte b s in if c == b then some 0 else later rest

abbrev last_of : Bool → Option ℕ → Option ℕ
last_of here none = if here then some 0 else none
last_of here (some i) = some (suc i)

-- `strings.LastIndexByte`.
unfoldable pub last_index_byte : ℕ → Text → Option ℕ
last_index_byte b [] = none
last_index_byte b (c ∷ s) = last_of (c == b) (last_index_byte b s)

abbrev pub drop : ℕ → Text → Text
drop zero s = s
drop (suc n) [] = []
drop (suc n) (c ∷ s) = drop n s

-- `s[i:j]`.
abbrev pub slice : ℕ → ℕ → Text → Text
slice i j s = take (j - i) (drop i s)

after_colon : Text → Option ℕ → Text
after_colon s none = trim_space s
after_colon s (some i) = trim_space (drop (i + 1) s)

between : Text → Option ℕ → Option ℕ → Text
unfolding after_colon index_byte
between s (some i) (some j) =
    if ltb i j then trim_space (slice (i + 1) j s) else after_colon s (index_byte b':' s)
between s _ _ = after_colon s (index_byte b':' s)

unfoldable pub extract_lmtp_angle : Text → Text
unfolding between index_byte last_index_byte trim_space
extract_lmtp_angle s = between s (index_byte b'<' s) (last_index_byte b'>' s)

extract_lmtp_angle_tests :
    (extract_lmtp_angle (codes "FROM:< a@b >") ≡ codes "a@b")
    × (extract_lmtp_angle (codes "TO: a@b") ≡ codes "a@b")
    × (extract_lmtp_angle (codes "FROM:<>") ≡ [])
unfolding extract_lmtp_angle
extract_lmtp_angle_tests = (refl, refl, refl)
