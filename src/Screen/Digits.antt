-- ===== src/Screen/Digits.antt =====
-- The digits that `print_number` and `print_hex` print stand for the number.
use native.Mathlib.Nat.{pow-suc}
use os_simple.Base.{
  ℕ, zero, suc, ◌+◌, ◌-◌, ◌*◌, ◌/◌, ◌%◌, ◌^◌, ◌≤◌, ◌<◌, ◌≡◌, refl, ap, sym, ◌∙◌, true, false, List,
  [], ◌∷◌, Option, none, some, ◌==◌, ==_iff, ltb, if◌then◌else◌, get_or, leb, ◌&&◌, ◌≢◌, Bool,
  length, bit_and, arith, Bool-cases, inl, inr,
}
use os_simple.Base.Bits.{all_below, all_below_sound, bit_and_low}
use os_simple.Screen.{number_digits, number_text, hex_chars, hex_digits, hex_text}

-- The number that decimal digits stand for, read from the left after `acc`.
abbrev pub decimal_value : ℕ → List ℕ → ℕ
decimal_value acc [] = acc
decimal_value acc (c ∷ cs) = decimal_value (acc * 10 + (c - b'0')) cs

-- Every character is a decimal digit.
abbrev pub all_digits : List ℕ → Bool
all_digits [] = true
all_digits (c ∷ cs) = leb b'0' c && leb c b'9' && all_digits cs

-- The first character, if there is one, is not a zero.
abbrev pub NoLeadingZero : List ℕ → Type 0
NoLeadingZero [] = Unit {0}
NoLeadingZero (c ∷ cs) = c ≢ b'0'

digit_before :
    (d : ℕ) (buffer : List ℕ)
    → d < 10
    → all_digits buffer ≡ true
    → all_digits ((b'0' + d) ∷ buffer) ≡ true
digit_before d buffer h b =
    let low : leb b'0' (b'0' + d) ≡ true = ground arith in
    let high : leb (b'0' + d) b'9' ≡ true = ground arith in rw (low, high) b

none-some : (text : List ℕ) → none ≡ some text → ⊥
none-some text e = ground (arith, e)

number_digits-all_digits :
    (left num : ℕ) (buffer text : List ℕ)
    → all_digits buffer ≡ true
    → number_digits left num buffer ≡ some text
    → all_digits text ≡ true
unfolding number_digits
number_digits-all_digits zero num buffer text b e = elim (Bool-cases (num == 0)) [
  | inl done ↦ let same : buffer ≡ text = ground (arith, e) in rw (sym same) b
  | inr more ↦ absurd (none-some text (rw more at e))
]
number_digits-all_digits (suc left) num buffer text b e = elim (Bool-cases (num == 0)) [
  | inl done ↦ let same : buffer ≡ text = ground (arith, e) in rw (sym same) b
  | inr more ↦
      let rest : number_digits left (num / 10) ((b'0' + num % 10) ∷ buffer) ≡ some text =
        rw more at e in
      number_digits-all_digits left (num / 10) ((b'0' + num % 10) ∷ buffer) text
        (digit_before (num % 10) buffer (omega arith) b) rest
]

number_digits_first :
    (left num : ℕ) (buffer text : List ℕ)
    → num ≢ 0
    → number_digits left num buffer ≡ some text
    → NoLeadingZero text
unfolding number_digits
number_digits_first zero num buffer text ne e =
    let more : (num == 0) ≡ false = ground arith in absurd (none-some text (rw more at e))
number_digits_first (suc left) num buffer text ne e =
    let more : (num == 0) ≡ false = ground arith in
    let rest : number_digits left (num / 10) ((b'0' + num % 10) ∷ buffer) ≡ some text =
      rw more at e in
    elim (Bool-cases (num / 10 == 0)) [
      | inl last ↦
          let same : (b'0' + num % 10) ∷ buffer ≡ text =
            digits_end left (num / 10) ((b'0' + num % 10) ∷ buffer) text (ground arith) rest in
          let nothing : num / 10 ≡ 0 = ground arith in rw (sym same) (omega (arith, nothing))
      | inr further ↦
          number_digits_first left (num / 10) ((b'0' + num % 10) ∷ buffer) text (ground arith) rest
    ]
  where
    digits_end :
        (left num : ℕ) (buffer text : List ℕ)
        → num ≡ 0
        → number_digits left num buffer ≡ some text
        → buffer ≡ text
    digits_end zero num buffer text z e = ground (arith, e)
    digits_end (suc left) num buffer text z e = ground (arith, e)

-- `text` is what `print_number` leaves for `num` before `buffer`, in at most `k` characters.
abbrev Printed : ℕ → ℕ → List ℕ → Option (List ℕ) → Type 0
Printed k num buffer none = ⊥
Printed k num buffer (some text) =
    (decimal_value 0 text ≡ decimal_value num buffer) × (length text ≤ length buffer + k)

-- One digit more before the buffer.
Printed-step :
    (k num : ℕ) (buffer : List ℕ) (r : Option (List ℕ))
    → Printed k (num / 10) ((b'0' + num % 10) ∷ buffer) r
    → Printed (suc k) num buffer r
Printed-step k num buffer none p = p
Printed-step k num buffer (some text) p =
    let whole : num / 10 * 10 + (b'0' + num % 10 - b'0') ≡ num = omega arith in
    (p.0 ∙ ap (λ v. decimal_value v buffer) whole, omega (arith, p.1))

number_digits_lem :
    (k left num : ℕ) (buffer : List ℕ)
    → num < 10 ^ k
    → k ≤ left
    → Printed k num buffer (number_digits left num buffer)
unfolding number_digits
number_digits_lem zero zero num buffer h fit =
    let done : num ≡ 0 = omega arith in rw done (refl, omega arith)
number_digits_lem zero (suc left) num buffer h fit =
    let done : num ≡ 0 = omega arith in rw done (refl, omega arith)
number_digits_lem (suc k) zero num buffer h fit = elim fit [ ]
number_digits_lem (suc k) (suc left) num buffer h fit = elim (Bool-cases (num == 0)) [
  | inl done ↦
      let nothing : num ≡ 0 = ground arith in
      rw done (ap (λ v. decimal_value v buffer) (sym nothing), omega arith)
  | inr more ↦ rw more (
      Printed-step k num buffer _ (
        number_digits_lem k left (num / 10) ((b'0' + num % 10) ∷ buffer)
          (omega (arith, pow-suc 10 k)) (omega arith)))
]

Printed-some :
    (k num : ℕ) (r : Option (List ℕ))
    → Printed k num [] r
    → (text : List ℕ) × (r ≡ some text) × (decimal_value 0 text ≡ num) × (length text ≤ k)
Printed-some k num none p = absurd p
Printed-some k num (some text) p = (text, refl, p.0, omega (arith, p.1))

-- A `uint32_t` is printed as at most ten decimal digits that stand for it, without a leading zero
-- when it is not 0, and with no write past the buffer of twelve.
pub number_text_lem :
    (num : ℕ)
    → num < 2 ^ 32
    → (text : List ℕ) × (number_text num ≡ some text)
      × (all_digits text ≡ true)
      × (decimal_value 0 text ≡ num)
      × (num ≢ 0 → NoLeadingZero text)
      × (length text ≤ 10)
unfolding number_text
number_text_lem num h = elim (Bool-cases (num == 0)) [
  | inl none_left ↦
      let nothing : num ≡ 0 = ground arith in
      (b'0' ∷ [], rw none_left, refl, sym nothing, λ ne. absurd (ne nothing), omega arith)
  | inr more ↦
      let (text, e, value, short) =
        Printed-some 10 num _ (number_digits_lem 10 12 num [] (omega arith) (omega arith)) in
      (
        text,
        rw more e,
        number_digits-all_digits 12 num [] text refl e,
        value,
        λ ne. number_digits_first 12 num [] text ne e,
        short,
      )
]

abbrev hex_digit : ℕ → ℕ
hex_digit c = if ltb c 58 then c - 48 else c - 55

-- The number that hexadecimal digits stand for.
abbrev pub hex_value : ℕ → List ℕ → ℕ
hex_value acc [] = acc
hex_value acc (c ∷ cs) = hex_value (acc * 16 + hex_digit c) cs

hex_table : all_below 16 (λ d. hex_digit (get_or hex_chars d 0) == d) ≡ true
unfolding all_below
hex_table = refl

hex_char_lem : (d : ℕ) → d < 16 → hex_digit (get_or hex_chars d 0) ≡ d
hex_char_lem d h = (==_iff _ d).0 (all_below_sound 16 _ d hex_table h)

hex_digits_lem :
    (left value : ℕ) (buffer : List ℕ)
    → value < 16 ^ left
    → (hex_value 0 (hex_digits left value buffer) ≡ hex_value value buffer)
      × (length (hex_digits left value buffer) ≡ length buffer + left)
unfolding hex_digits
hex_digits_lem zero value buffer h =
    let none_left : value ≡ 0 = omega arith in rw none_left (refl, omega arith)
hex_digits_lem (suc left) value buffer h =
    let low : bit_and value 15 ≡ value % 16 = bit_and_low 4 value in
    let digit = hex_char_lem (value % 16) (omega arith) in
    let ih =
      hex_digits_lem left (value / 16) (get_or hex_chars (bit_and value 15) 0 ∷ buffer)
        (omega (arith, pow-suc 16 left)) in
    (ih.0 ∙ rw (low, digit) (ap (λ v. hex_value v buffer) (omega arith)), omega (arith, ih.1))

-- `print_hex` prints a `uint32_t` as `0x` and eight digits that stand for it.
pub hex_text_lem :
    (value : ℕ)
    → value < 2 ^ 32
    → (hex_text value ≡ b'0' ∷ b'x' ∷ hex_digits 8 value [])
      × (hex_value 0 (hex_digits 8 value []) ≡ value)
      × (length (hex_text value) ≡ 10)
unfolding hex_text
hex_text_lem value h =
    let digits = hex_digits_lem 8 value [] (omega arith) in
    (refl, digits.0, omega (arith, digits.1))
