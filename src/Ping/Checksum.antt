-- ===== src/Ping/Checksum.antt =====
-- The checksum makes the packet verify: the checksum of a packet that holds its own is zero.
use icmond.Prelude.{
  ℕ, zero, suc, ◌+◌, ◌*◌, ◌-◌, ◌/◌, ◌%◌, ◌≤◌, ◌<◌, ◌≡◌, refl, ◌∙◌, ap, Bool, true, not, List, [],
  ◌∷◌, ◌++◌, length, All, arith, ◌⊎◌, inl, inr, ltb, Bool-cases,
}
use icmond.Ping.{
  sum_words, fold_carry, checksum, low_byte, high_byte, fill, packet, prepared_packet, payload_size,
  icmp_echo,
}

abbrev pub IsByte : ℕ → Type 0
IsByte b = b < 256

-- The sum of the words, without a bound.
weight : List ℕ → ℕ
weight [] = 0
weight (byte ∷ []) = byte
weight (low ∷ (high ∷ more)) = low + 256 * high + weight more

sum_words-weight :
    (sum : ℕ) (bytes : List ℕ)
    → sum < 4294967296
    → sum_words sum bytes ≡ (sum + weight bytes) % 4294967296
unfolding sum_words weight
sum_words-weight sum [] h = omega arith
sum_words-weight sum (byte ∷ []) h = refl
sum_words-weight sum (low ∷ (high ∷ more)) h =
    sum_words-weight ((sum + (low + 256 * high)) % 4294967296) more (omega arith) ∙ omega arith

weight_bounded : (bytes : List ℕ) → All IsByte bytes → weight bytes ≤ 65535 * length bytes
unfolding weight
weight_bounded [] a = omega arith
weight_bounded (byte ∷ []) (b, a) = omega arith
weight_bounded (low ∷ (high ∷ more)) (l, (h, a)) = omega (arith, weight_bounded more a)

-- A word in a packet, behind an even number of bytes.
abbrev pub is_even : List ℕ → Bool
is_even [] = true
is_even (b ∷ bytes) = not (is_even bytes)

weight-word :
    (front back : List ℕ) (c : ℕ)
    → is_even front ≡ true
    → c < 65536
    → weight (front ++ (low_byte c ∷ (high_byte c ∷ back))) ≡ weight (front ++ (0 ∷ (0 ∷ back))) + c
unfolding weight
weight-word [] back c e h = omega arith
weight-word (b ∷ []) back c e h = cc
weight-word (low ∷ (high ∷ more)) back c e h =
    let even : is_even more ≡ true = ground arith in omega (arith, weight-word more back c even h)

-- checksum() of a sum.
abbrev complement : ℕ → ℕ
complement sum = (4294967295 - fold_carry sum) % 65536

carried :
    (sum : ℕ)
    → sum < 4294967296
    → let both = sum / 65536 + sum % 65536 in
      ((both < 65536) × (complement sum ≡ 65535 - both))
      ⊎ ((65536 ≤ both) × (complement sum ≡ 131070 - both))
carried sum h = elim (Bool-cases (ltb (sum / 65536 + sum % 65536) 65536)) [
  | inl low ↦ inl (ground arith, ground arith)
  | inr carry ↦ inr (ground arith, ground arith)
]

complement-zero : (sum : ℕ) → sum / 65536 + sum % 65536 ≡ 65535 → complement sum ≡ 0
complement-zero sum h = omega arith

split_low : (h l : ℕ) → l < 65536 → ((65536 * h + l) / 65536 ≡ h) × ((65536 * h + l) % 65536 ≡ l)
split_low h l b = (omega arith, omega arith)

-- Adding the complement of a sum makes its halves add up to all ones.
complement_sum :
    (sum : ℕ)
    → sum < 4294901760
    → (sum + complement sum) / 65536 + (sum + complement sum) % 65536 ≡ 65535
complement_sum sum h = elim (carried sum (omega arith)) [
  | inl (low, e) ↦
      let s : sum + complement sum ≡ 65536 * (sum / 65536) + (65535 - sum / 65536) = omega arith in
      let (q, r) = split_low (sum / 65536) (65535 - sum / 65536) (omega arith) in rw s (omega arith)
  | inr (carry, e) ↦
      let s : sum + complement sum ≡ 65536 * (sum / 65536 + 1) + (65534 - sum / 65536) =
        omega arith in
      let (q, r) = split_low (sum / 65536 + 1) (65534 - sum / 65536) (omega arith) in
      rw s (omega arith)
]

-- checksum() is the complement of the weight of the bytes, for fewer than 65536 of them.
checksum-complement :
    (bytes : List ℕ)
    → All IsByte bytes
    → length bytes < 65536
    → checksum bytes ≡ complement (weight bytes)
unfolding checksum
checksum-complement bytes b short =
    let bound = weight_bounded bytes b in
    let sum : sum_words 0 bytes ≡ weight bytes =
      sum_words-weight 0 bytes (omega arith) ∙ omega arith in
    rw sum refl

All-put :
    (front back : List ℕ) (x y : ℕ)
    → All IsByte (front ++ 0 ∷ (0 ∷ back))
    → x < 256
    → y < 256
    → All IsByte (front ++ x ∷ (y ∷ back))
All-put [] back x y (a, (b, h)) hx hy = (hx, (hy, h))
All-put (c ∷ front) back x y (a, h) hx hy = (a, All-put front back x y h hx hy)

length-put :
    (front back : List ℕ) (x y : ℕ)
    → length (front ++ x ∷ (y ∷ back)) ≡ length (front ++ 0 ∷ (0 ∷ back))
length-put [] back x y = refl
length-put (c ∷ front) back x y = ap suc (length-put front back x y)

-- For a packet of fewer than 65536 bytes whose checksum field, behind an even number of bytes, is zero:
-- when checksum() of the packet is put into the field, low byte first, checksum() of the packet is zero.
pub checksum_correct :
    (front back : List ℕ)
    → is_even front ≡ true
    → All IsByte (front ++ 0 ∷ (0 ∷ back))
    → length (front ++ 0 ∷ (0 ∷ back)) < 65536
    → let check = checksum (front ++ 0 ∷ (0 ∷ back)) in
      checksum (front ++ low_byte check ∷ (high_byte check ∷ back)) ≡ 0
checksum_correct front back even b short =
    let before = front ++ 0 ∷ (0 ∷ back) in
    let check = checksum before in
    let is_complement = checksum-complement before b short in
    let word = weight-word front back check even (rw is_complement (omega arith)) in
    let bound = weight_bounded before b in
    let halves = complement_sum (weight before) (omega arith) in
    let put =
      checksum-complement (front ++ low_byte check ∷ (high_byte check ∷ back))
        (All-put front back _ _ b (omega arith) (omega arith))
        (rw (length-put front back (low_byte check) (high_byte check)) short) in
    put ∙ rw word (rw is_complement (complement-zero _ halves))

fill-IsByte : (n i : ℕ) (bytes : List ℕ) → All IsByte bytes → All IsByte (fill n i ++ bytes)
unfolding fill
fill-IsByte zero i bytes b = b
fill-IsByte (suc n) i bytes b = (omega arith, fill-IsByte n (i + 1) bytes b)

length-fill : (n i : ℕ) (bytes : List ℕ) → length (fill n i ++ bytes) ≡ n + length bytes
unfolding fill
length-fill zero i bytes = omega arith
length-fill (suc n) i bytes = omega (arith, length-fill n (i + 1) bytes)

-- checksum() of the packet that icmp_prepare() makes is zero, for every process id.
pub checksum-prepared_packet : (pid : ℕ) → checksum (prepared_packet pid) ≡ 0
unfolding prepared_packet packet
checksum-prepared_packet pid =
    let payload = fill-IsByte (payload_size - 1) 0 (0 ∷ []) (omega arith, tt) in
    let size = length-fill (payload_size - 1) 0 (0 ∷ []) in
    checksum_correct (icmp_echo ∷ (0 ∷ []))
      (low_byte pid ∷ (high_byte pid ∷ (1 ∷ (0 ∷ (fill (payload_size - 1) 0 ++ 0 ∷ []))))) refl
      (
        omega arith,
        (
          omega arith,
          (
            omega arith,
            (omega arith, (omega arith, (omega arith, (omega arith, (omega arith, payload))))),
          ),
        ),
      )
      (omega (arith, size))
