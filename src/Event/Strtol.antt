-- ===== src/Event/Strtol.antt =====
-- strtol() in base ten, for a long of 32 bits as on the Raspberry Pi, and int arithmetic of that width.
use icmond.Prelude.{
  ℕ, ◌+◌, ◌-◌, ◌*◌, ◌%◌, ◌≤◌, ◌≡◌, Bool, true, false, ◌&&◌, leb, ltb, ◌==◌, if◌then◌else◌, [], ◌∷◌,
  ℤ, pos, negsuc, sub_ℕ, arith,
}
use icmond.EventTypes.{Bytes}
use icmond.Text.Trim.{trim_front}

abbrev pub is_digit : ℕ → Bool
is_digit c = leb b'0' c && leb c b'9'

-- A number read on from `value`, whether it has a digit, and what follows it.
unfoldable pub read_digits : ℕ → Bool → Bytes → ℕ × Bool × Bytes
read_digits value any [] = (value, any, [])
read_digits value any (c ∷ s) =
    let more = read_digits (10 * value + (c - b'0')) true s in
    if is_digit c then more else (value, any, c ∷ s)

-- LONG_MAX
abbrev pub long_max : ℕ
long_max = 2147483647

pub record Strtol : Type 0 where
  pub value : ℤ
  pub rest : Bytes
  pub converted : Bool
  pub erange : Bool

-- The value of an optional minus sign and a number, LONG_MIN or LONG_MAX if it does not fit.
unfoldable pub saturate : Bool → ℕ → ℤ
saturate true n = sub_ℕ 0 (if ltb (long_max + 1) n then long_max + 1 else n)
saturate false n = pos (if ltb long_max n then long_max else n)

unfoldable pub out_of_range : Bool → ℕ → Bool
out_of_range true n = ltb (long_max + 1) n
out_of_range false n = ltb long_max n

-- The sign, and what follows it.
unfoldable pub read_sign : Bytes → Bool × Bytes
read_sign [] = (false, [])
read_sign (c ∷ s) =
    if c == b'-' then (true, s) else if c == b'+' then (false, s) else (false, c ∷ s)

-- strtol(s, &rest, 10); where nothing is converted, `rest` is `s`
unfoldable pub strtol : Bytes → Strtol
unfolding read_digits saturate out_of_range read_sign trim_front
strtol s =
    let (minus, t) = read_sign (trim_front s) in
    let (n, any, rest) = read_digits 0 false t in
    if any
    then record {
      value = saturate minus n;
      rest = rest;
      converted = true;
      erange = out_of_range minus n;
    }
    else record { value = pos 0; rest = s; converted = false; erange = false }

-- An integer as a 32-bit int, by wrap-around. (Overflow is undefined in C; this is what the target does.)
unfoldable pub wrap32 : ℤ → ℤ
wrap32 (pos n) = let r = n % 4294967296 in if leb r long_max then pos r else sub_ℕ r 4294967296
wrap32 (negsuc n) =
    let r = 4294967295 - n % 4294967296 in if leb r long_max then pos r else sub_ℕ r 4294967296

pub wrap32-small : (n : ℕ) → n ≤ long_max → wrap32 (pos n) ≡ pos n
unfolding wrap32
wrap32-small n h = ground arith
