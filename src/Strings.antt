-- ===== src/Strings.antt =====
-- The functions of Go's package strings that the code uses, on texts as lists of bytes. TrimSpace
-- and ToLower are those of texts in ASCII.
use tenantflow.Prelude.{
  ℕ, Text, Bool, true, false, ◌≡◌, refl, ◌&&◌, ◌||◌, ◌+◌, [], ◌∷◌, ◌++◌, leb, ◌==◌, if◌then◌else◌,
}

-- HasPrefix
unfoldable pub starts_with : Text → Text → Bool
starts_with s [] = true
starts_with [] (_ ∷ _) = false
starts_with (c ∷ s) (d ∷ p) = (c == d) && starts_with s p

-- Contains
unfoldable pub contains_text : Text → Text → Bool
contains_text [] p = starts_with [] p
contains_text (c ∷ s) p = starts_with (c ∷ s) p || contains_text s p

-- TrimPrefix of a prefix of one byte
unfoldable pub trim_byte : ℕ → Text → Text
trim_byte b [] = []
trim_byte b (c ∷ s) = if c == b then s else c ∷ s

-- tab, line feed, vertical tab, form feed, carriage return, space
abbrev pub is_space : ℕ → Bool
is_space c = leb 9 c && leb c 13 || c == 32

unfoldable pub trim_left : Text → Text
trim_left [] = []
trim_left (c ∷ s) = if is_space c then trim_left s else c ∷ s

abbrev is_empty : Text → Bool
is_empty [] = true
is_empty (_ ∷ _) = false

unfoldable pub trim_right : Text → Text
trim_right [] = []
trim_right (c ∷ s) = let r = trim_right s in if is_space c && is_empty r then [] else c ∷ r

-- TrimSpace
unfoldable pub trim_space : Text → Text
trim_space s = trim_left (trim_right s)

-- ToLower
unfoldable pub to_lower : Text → Text
to_lower [] = []
to_lower (c ∷ s) = (if leb b'A' c && leb c b'Z' then c + 32 else c) ∷ to_lower s

trim_right-space : (s : Text) → trim_right (s ++ (10 ∷ [])) ≡ trim_right s
unfolding trim_right
trim_right-space [] = refl
trim_right-space (c ∷ s) = cc (trim_right-space s)

-- A line feed at the end makes no difference.
pub trim_space-line : (s : Text) → trim_space (s ++ (10 ∷ [])) ≡ trim_space s
unfolding trim_space
trim_space-line s = cc (trim_right-space s)
