-- ===== src/Text.antt =====
-- C strings as lists of bytes, without the terminating NUL, and what util.c and keyval.c use of
-- <ctype.h> and <string.h> in the C locale. The children describe splitting and trimming.
pub mod Trim
use icmond.Prelude.{
  ℕ, zero, suc, ◌+◌, ◌-◌, Bool, true, false, not, ◌&&◌, ◌||◌, ltb, leb, ◌==◌, if◌then◌else◌, List,
  [], ◌∷◌,
}
use icmond.EventTypes.{Bytes}

-- isspace()
unfoldable pub is_space : ℕ → Bool
is_space c = c == b' ' || (leb 9 c && leb c 13)

-- UTIL_LIST_DELIMITERS and KEYVAL_LIST_DELIMITERS, ",;"; a NUL is tested for apart from these.
unfoldable pub is_delim : ℕ → Bool
is_delim c = c == b',' || c == b';'

abbrev pub backslash : ℕ
backslash = b'\\'

-- tolower()
unfoldable pub to_lower : ℕ → ℕ
to_lower c = if leb b'A' c && leb c b'Z' then c + 32 else c

-- strcmp(a, b) == 0
unfoldable pub str_eq : Bytes → Bytes → Bool
str_eq [] [] = true
str_eq (a ∷ s) (b ∷ t) = a == b && str_eq s t
str_eq _ _ = false

-- strcasecmp(a, b) == 0
unfoldable pub str_case_eq : Bytes → Bytes → Bool
unfolding to_lower
str_case_eq [] [] = true
str_case_eq (a ∷ s) (b ∷ t) = to_lower a == to_lower b && str_case_eq s t
str_case_eq _ _ = false

-- strlen(s) != 0
abbrev pub is_nonempty : Bytes → Bool
is_nonempty [] = false
is_nonempty (_ ∷ _) = true
