-- ===== src/Iam/Email.antt =====
-- `strings.TrimSpace(strings.ToLower(email))`, over the runes of the text, as register.go,
-- login.go and update_me.go (internal/application/iam/usecase) write it.
pub mod Laws
use masterfabric_backend.Prelude.{
  ℕ, ◌+◌, Bool, ◌&&◌, ◌||◌, List, [], ◌∷◌, ltb, leb, ◌==◌, nat_eq, if◌then◌else◌, ◌++◌,
}
use masterfabric_backend.Prelude.Text.{Text}

-- `unicode.IsSpace`.
unfoldable pub is_space : ℕ → Bool
is_space c =
    (leb 9 c && leb c 13)
    || c == 32
    || c == 0x85
    || c == 0xa0
    || c == 0x1680
    || (leb 0x2000 c && leb c 0x200a)
    || c == 0x2028
    || c == 0x2029
    || c == 0x202f
    || c == 0x205f
    || c == 0x3000

unfoldable pub trim_left : Text → Text
trim_left [] = []
trim_left (c ∷ s) = let rest = trim_left s in if is_space c then rest else c ∷ s

-- The trailing blanks go: a blank with nothing kept behind it is dropped.
unfoldable pub trim_right : Text → Text
trim_right [] = []
trim_right (c ∷ s) =
    let rest = trim_right s in
    elim rest [ [] ↦ if is_space c then [] else c ∷ [] | d ∷ more ↦ c ∷ d ∷ more ]

unfoldable pub trim_space : Text → Text
trim_space s = trim_right (trim_left s)

module _ (lower_wide : ℕ → ℕ) where
  unfoldable pub lower_rune : ℕ → ℕ
  lower_rune c =
      if ltb c 128 then (if leb b'A' c && leb c b'Z' then c + 32 else c) else lower_wide c

  unfoldable pub to_lower : Text → Text
  to_lower [] = []
  to_lower (c ∷ s) = lower_rune c ∷ to_lower s

  unfoldable pub normalize_email : Text → Text
  normalize_email email = trim_space (to_lower email)
