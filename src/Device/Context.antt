-- ===== src/Device/Context.antt =====
-- context_from_task of src/accelerators.cpp: the address of an operation's context, which travels in
-- the task's parameters as a decimal text. std::stoull is modelled for texts that begin with a digit
-- and for those with no number at all; it skips no white space and reads no sign here.
use ece506scheduler.Base.{
  ℕ, zero, suc, ◌+◌, ◌-◌, ◌*◌, ◌/◌, ◌%◌, ◌^◌, ◌<◌, if_ind, lt→ltb, ltb, ltb→lt, ◌≡◌, refl, ◌∙◌, ap,
  Bool, true, false, ◌||◌, [], ◌∷◌, Option, none, some, Text, text, text_key, digits, to_string,
  lookup, is_empty, if◌then◌else◌, arith, Bool-cases, inl, inr,
}
use ece506scheduler.Task.{Task}

-- The longest run of digits, and whether there was one.
unfoldable pub read_digits : Bool → ℕ → Text → Option ℕ
read_digits seen value [] = if seen then some value else none
read_digits seen value (c ∷ rest) =
    let more = read_digits true (value * 10 + (c - 48)) rest in
    if ltb c 48 || ltb 57 c then (if seen then some value else none) else more

-- `none`: invalid_argument or out_of_range is thrown.
unfoldable pub stoull : Text → Option ℕ
stoull value = elim (read_digits false 0 value) [
  | none ↦ none
  | some n ↦ if ltb n (2 ^ 64) then some n else none
]

-- The outcome: an exception, nullptr or the address.
pub data Found : Type 0 where
  throws : Found
  nullptr : Found
  address : ℕ → Found

unfoldable pub context_from_task : Text → Task → Found
context_from_task key t = elim (lookup key t.params) [
  | none ↦ nullptr
  | some value ↦
      if is_empty value
      then nullptr
      else elim (stoull value) [ none ↦ throws | some raw ↦ address raw ]
]

abbrev pub zip_key : Text
zip_key = text "dash.zip_ctx"

abbrev pub fft_key : Text
fft_key = text "dash.fft_ctx"

read_end : (n : ℕ) → read_digits true n [] ≡ some n
unfolding read_digits
read_end n = refl

read_digits-digit :
    (seen : Bool) (value k : ℕ) (rest : Text)
    → k < 10
    → read_digits seen value ((48 + k) ∷ rest) ≡ read_digits true (value * 10 + k) rest
unfolding read_digits
read_digits-digit seen value k rest h =
    let same : 48 + k - 48 ≡ k = omega arith in rw same (ground arith)

read_digits-digits :
    (fuel n : ℕ) (rest : Text)
    → n < fuel
    → read_digits false 0 (digits fuel n rest) ≡ read_digits true n rest
unfolding digits
read_digits-digits zero n rest h = elim h [ ]
read_digits-digits (suc fuel) n rest h = elim (Bool-cases (ltb n 10)) [
  | inl one ↦
      let same : 0 * 10 + n ≡ n = omega arith in
      rw (digits, one)
        (read_digits-digit false 0 n rest (ltb→lt n 10 one)
          ∙ ap (λ r. read_digits true r rest) same)
  | inr more ↦
      let same : n / 10 * 10 + n % 10 ≡ n = omega arith in
      rw (digits, more)
        (read_digits-digits fuel (n / 10) ((48 + n % 10) ∷ rest) (ground arith)
          ∙ read_digits-digit true (n / 10) (n % 10) rest (omega arith)
          ∙ ap (λ r. read_digits true r rest) same)
]

-- An address of 64 bits is read back from its decimal digits.
pub stoull-to_string : (n : ℕ) → n < 2 ^ 64 → stoull (to_string n) ≡ some n
unfolding stoull to_string
stoull-to_string n small =
    let e : read_digits false 0 (to_string n) ≡ some n =
      read_digits-digits (suc n) n [] (omega arith) ∙ read_end n in
    rw (e, stoull, lt→ltb n (2 ^ 64) small)

digits-nonempty : (fuel n : ℕ) (rest : Text) → n < fuel → is_empty (digits fuel n rest) ≡ false
unfolding digits
digits-nonempty zero n rest h = elim h [ ]
digits-nonempty (suc fuel) n rest h =
    if_ind (λ (t : Text). is_empty t ≡ false) (ltb n 10) (λ _. refl)
      (λ more. digits-nonempty fuel (n / 10) ((48 + n % 10) ∷ rest) (ground arith))

pub to_string-nonempty : (n : ℕ) → is_empty (to_string n) ≡ false
unfolding to_string
to_string-nonempty n = digits-nonempty (suc n) n [] (omega arith)

-- zip_context and fft_context.
abbrev pub zip_context_of : Task → Found
zip_context_of t = context_from_task zip_key t

abbrev pub fft_context_of : Task → Found
fft_context_of t = context_from_task fft_key t
