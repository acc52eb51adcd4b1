-- ===== src/Utils/Encoding.antt =====
-- internal/controller/utils/encoding.go, and the decoder that the shell command in
-- internal/controller/traps/filesystoken/deployment.go applies to its output.
use koney.Prelude.{ℕ, ◌+◌, ◌-◌, ◌*◌, ◌/◌, ◌%◌, ◌<◌, ◌≡◌, refl, [], ◌∷◌, ◌++◌, arith, length, All}
use koney.Utils.Bytes.{Bytes}

-- `fmt.Sprintf("%03o", int(char))` of a byte: three octal digits in ASCII.
abbrev format_03o : ℕ → Bytes
format_03o char = (b'0' + char / 64) ∷ (b'0' + char / 8 % 8) ∷ (b'0' + char % 8) ∷ []

-- utils.StringToOct
unfoldable pub string_to_oct : Bytes → Bytes
string_to_oct [] = []
string_to_oct (char ∷ s) = format_03o char ++ string_to_oct s

-- The loop `while [ $i -lt ${#oct_string} ]; do echo -e "\0$(expr substr $oct_string $i 3)\c"`:
-- three digits at a time, each group one byte. A rest of fewer than three digits is no group.
unfoldable pub decode_oct : Bytes → Bytes
decode_oct (a ∷ b ∷ c ∷ rest) = ((a - b'0') * 64 + (b - b'0') * 8 + (c - b'0')) ∷ decode_oct rest
decode_oct _ = []

abbrev pub IsOctalDigit : ℕ → Type 0
IsOctalDigit c = (b'0' - 1 < c) × (c < b'0' + 8)

abbrev pub IsByte : ℕ → Type 0
IsByte c = c < 256

byte_of_digits :
    (c : ℕ)
    → c < 256
    → ((b'0' + c / 64) - b'0') * 64 + ((b'0' + c / 8 % 8) - b'0') * 8 + ((b'0' + c % 8) - b'0') ≡ c
byte_of_digits c h = omega arith

-- For a text of bytes, decoding the octal text of StringToOct three digits at a time gives back
-- the bytes.
pub decode_oct-string_to_oct : (s : Bytes) → All IsByte s → decode_oct (string_to_oct s) ≡ s
unfolding decode_oct string_to_oct
decode_oct-string_to_oct [] h = refl
decode_oct-string_to_oct (c ∷ s) h = λ i. byte_of_digits c h.0 i ∷ decode_oct-string_to_oct s h.1 i

-- For a text of bytes, the octal text of StringToOct is three times as long and has octal digits
-- only.
pub string_to_oct-digits :
    (s : Bytes)
    → All IsByte s
    → All IsOctalDigit (string_to_oct s) × (length (string_to_oct s) ≡ 3 * length s)
unfolding string_to_oct
string_to_oct-digits [] h = (tt, omega arith)
string_to_oct-digits (c ∷ s) h =
    let ih = string_to_oct-digits s h.1 in
    ((omega arith, (omega arith, (omega arith, ih.0))), omega arith)
