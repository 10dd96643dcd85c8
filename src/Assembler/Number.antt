-- ===== src/Assembler/Number.antt =====
-- userspace/src/assembler.c: `parse_int`, with the `strtoull` of the C library that it calls.
use rpi_cpu_emulator_linux_d.Base.{ℕ, ◌+◌, ◌-◌, ◌*◌, ◌^◌, Bool, true, false, ◌&&◌, ◌||◌, not}
use rpi_cpu_emulator_linux_d.Base.{Option, none, some, [], ◌∷◌, ◌==◌, ltb, leb, if◌then◌else◌, u64}
use rpi_cpu_emulator_linux_d.Assembler.Text.{Text}

-- `isspace`
unfoldable pub is_space : ℕ → Bool
is_space c = (c == b' ') || leb b'\t' c && leb c b'\r'

-- The value of a digit or letter.
unfoldable pub digit_of : ℕ → Option ℕ
digit_of c =
    if leb b'0' c && leb c b'9'
    then some (c - b'0')
    else if leb b'a' c && leb c b'z'
    then some (c - b'a' + 10)
    else if leb b'A' c && leb c b'Z'
    then some (c - b'A' + 10)
    else none

-- The digit of a base, if the character is one.
unfoldable pub base_digit : ℕ → ℕ → Option ℕ
unfolding digit_of
base_digit base c = elim (digit_of c) [ none ↦ none | some d ↦ if ltb d base then some d else none ]

-- The value without a bound, from the value so far, and the text behind the digits.
unfoldable pub read_digits : ℕ → Text → ℕ → ℕ × Text
read_digits base [] acc = (acc, [])
read_digits base (c ∷ cs) acc = elim (base_digit base c) [
  | none ↦ (acc, c ∷ cs)
  | some d ↦ read_digits base cs (acc * base + d)
]

unfoldable pub skip_white : Text → Text
skip_white [] = []
skip_white (c ∷ cs) = let rest = skip_white cs in if is_space c then rest else c ∷ cs

-- What `strtoull` gives: its value, whether it saw a digit, whether it set `ERANGE`, and the text
-- that `endptr` points to if it saw a digit.
pub record Converted : Type 0 where
  pub value : ℕ
  pub has_digits : Bool
  pub out_of_range : Bool
  pub rest : Text

-- The digits behind the sign.
unfoldable pub convert : ℕ → Bool → Text → Converted
unfolding read_digits
convert base negative [] = record { value = 0; has_digits = false; out_of_range = false; rest = [] }
convert base negative (c ∷ cs) = elim (base_digit base c) [
  | none ↦ record { value = 0; has_digits = false; out_of_range = false; rest = c ∷ cs }
  | some d ↦
      let (n, rest) = read_digits base cs d in
      record {
        value = if leb (2 ^ 64) n then 2 ^ 64 - 1 else if negative then u64 (2 ^ 64 - n) else n;
        has_digits = true;
        out_of_range = leb (2 ^ 64) n;
        rest = rest;
      }
]

-- In base 16 a prefix `0x` is left out if a digit follows it.
unfoldable pub skip_prefix : ℕ → Text → Text
unfolding base_digit
skip_prefix base (z ∷ x ∷ c ∷ cs) = elim (base_digit base c) [
  | none ↦ z ∷ x ∷ c ∷ cs
  | some d ↦
      if (base == 16) && (z == b'0') && ((x == b'x') || (x == b'X')) then c ∷ cs else z ∷ x ∷ c ∷ cs
]
skip_prefix base s = s

unfoldable pub signed : ℕ → Text → Converted
unfolding convert skip_prefix
signed base [] = convert base false []
signed base (c ∷ cs) =
    if c == b'-'
    then convert base true (skip_prefix base cs)
    else if c == b'+'
    then convert base false (skip_prefix base cs)
    else convert base false (skip_prefix base (c ∷ cs))

unfoldable pub strtoull : ℕ → Text → Converted
unfolding signed skip_white
strtoull base str = signed base (skip_white str)

-- `none` is the result 0, which leaves the value as it was.
unfoldable pub parse_int : Text → Option ℕ
unfolding strtoull
parse_int str =
    let r = strtoull 10 str in
    if not r.has_digits || r.out_of_range
    then none
    else elim (r.rest) [ [] ↦ some r.value | _ ∷ _ ↦ none ]
