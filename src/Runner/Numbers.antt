-- ===== src/Runner/Numbers.antt =====
-- parse_unsigned of apps/sched_runner.cpp, over 32-bit unsigned numbers.
use ece506scheduler.Base.{
  ℕ, zero, suc, ◌+◌, ◌-◌, ◌*◌, ◌/◌, ◌%◌, ◌^◌, ◌<◌, ltb, ◌≡◌, ◌∙◌, true, ◌||◌, [], ◌∷◌, ◌++◌, Text,
  digits, to_string, if◌then◌else◌, arith, ltb→lt, ap, ◌⊎◌, Bool-cases, inl, inr,
}

-- The loop, with the characters left and the result so far. Its arithmetic wraps.
unfoldable pub parse_from : ℕ → ℕ → Text → ℕ
parse_from default_value result [] = if ltb 0 result then result else default_value
parse_from default_value result (c ∷ value) =
    let rest = parse_from default_value ((result * 10 + (c - 48)) % 2 ^ 32) value in
    if ltb c 48 || ltb 57 c then default_value else rest

unfoldable pub parse_unsigned : Text → ℕ → ℕ
parse_unsigned value default_value = parse_from default_value 0 value

parse_end : (n default_value : ℕ) → 0 < n → parse_from default_value n [] ≡ n
unfolding parse_from
parse_end n d h = ground arith

parse_from-digit :
    (default_value result k : ℕ) (rest : Text)
    → k < 10
    → parse_from default_value result ((48 + k) ∷ rest)
      ≡ parse_from default_value ((result * 10 + k) % 2 ^ 32) rest
unfolding parse_from
parse_from-digit d r k rest h = let same : 48 + k - 48 ≡ k = omega arith in rw same (ground arith)

parse_from-digits :
    (fuel n default_value : ℕ) (rest : Text)
    → n < fuel
    → n < 2 ^ 32
    → parse_from default_value 0 (digits fuel n rest) ≡ parse_from default_value n rest
unfolding digits
parse_from-digits zero n d rest h small = elim h [ ]
parse_from-digits (suc fuel) n d rest h small = elim (Bool-cases (ltb n 10)) [
  | inl one ↦
      let same : (0 * 10 + n) % 2 ^ 32 ≡ n = omega arith in
      rw (digits, one)
        (parse_from-digit d 0 n rest (ltb→lt n 10 one) ∙ ap (λ r. parse_from d r rest) same)
  | inr more ↦
      let same : (n / 10 * 10 + n % 10) % 2 ^ 32 ≡ n = omega arith in
      rw (digits, more)
        (parse_from-digits fuel (n / 10) d ((48 + n % 10) ∷ rest) (ground arith) (omega arith)
          ∙ parse_from-digit d (n / 10) (n % 10) rest (omega arith)
          ∙ ap (λ r. parse_from d r rest) same)
]

-- A positive 32-bit number is read back from its decimal digits, whatever the default.
pub parse_unsigned-to_string :
    (n default_value : ℕ) → 0 < n → n < 2 ^ 32 → parse_unsigned (to_string n) default_value ≡ n
unfolding parse_unsigned to_string
parse_unsigned-to_string n d pos small =
    parse_from-digits (suc n) n d [] (omega arith) small ∙ parse_end n d pos

parse_from-bad :
    (before : Text) (c : ℕ) (after : Text) (result default_value : ℕ)
    → (ltb c 48 || ltb 57 c) ≡ true
    → parse_from default_value result (before ++ c ∷ after) ≡ default_value
unfolding parse_from
parse_from-bad [] c after r d bad = rw bad
parse_from-bad (b ∷ before) c after r d bad =
    ground (arith, parse_from-bad before c after ((r * 10 + (b - 48)) % 2 ^ 32) d bad)

-- A character that is no decimal digit, anywhere in the text, gives the default.
pub parse_unsigned-bad :
    (before : Text) (c : ℕ) (after : Text) (default_value : ℕ)
    → (c < 48) ⊎ (57 < c)
    → parse_unsigned (before ++ c ∷ after) default_value ≡ default_value
unfolding parse_unsigned
parse_unsigned-bad before c after d bad = parse_from-bad before c after 0 d (ground arith)
