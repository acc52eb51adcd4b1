-- ===== src/Utils/Hash.antt =====
-- internal/controller/utils/hash.go. MD5 itself is a parameter, a function of bytes.
use Prim.Native.String.{◌++◌ as ◌+++◌}
use text.Mathlib.TextLemmas.{append-eq-nil_iff}
use koney.Prelude.{
  ℕ, zero, suc, ◌/◌, ◌%◌, ◌≡◌, refl, String, List, [], ◌∷◌, length, arith, ◌==◌, eq_iff, false,
  Bool-cases, All, inl, inr,
}
use koney.Utils.Bytes.{Bytes, bytes}

digit_of : List String → ℕ → String
digit_of [] d = "f"
digit_of (s ∷ rest) zero = s
digit_of (s ∷ rest) (suc d) = digit_of rest d

-- The digit of a number below 16.
abbrev hex_digit : ℕ → String
hex_digit =
    digit_of
      ("0" ∷ "1" ∷ "2" ∷ "3" ∷ "4" ∷ "5" ∷ "6" ∷ "7" ∷ "8" ∷ "9" ∷ "a" ∷ "b" ∷ "c" ∷ "d" ∷ "e" ∷ [])

-- `fmt.Sprintf("%x", hash)`: two digits a byte.
unfoldable pub to_hex : Bytes → String
unfolding digit_of
to_hex [] = ""
to_hex (b ∷ rest) = ◌+++◌ (hex_digit (b / 16)) (◌+++◌ (hex_digit (b % 16)) (to_hex rest))

-- utils.Hash
unfoldable pub hash : (Bytes → Bytes) → String → String
hash md5 input = to_hex (md5 (bytes input))

digit_of-ne-nil :
    (digits : List String) (d : ℕ)
    → All (λ s. (s == "") ≡ false) digits
    → (digit_of digits d == "") ≡ false
unfolding digit_of
digit_of-ne-nil [] d h = refl
digit_of-ne-nil (s ∷ rest) zero h = h.0
digit_of-ne-nil (s ∷ rest) (suc d) h = digit_of-ne-nil rest d h.1

hex_digit-ne-nil : (d : ℕ) → (hex_digit d == "") ≡ false
hex_digit-ne-nil d = digit_of-ne-nil _ d (
  refl,
  (
    refl,
    (
      refl,
      (
        refl,
        (refl, (refl, (refl, (refl, (refl, (refl, (refl, (refl, (refl, (refl, (refl, tt))))))))))),
      ),
    ),
  ),
)

append-ne-nil : (s t : String) → (s == "") ≡ false → (◌+++◌ s t == "") ≡ false
append-ne-nil s t h = elim (Bool-cases (◌+++◌ s t == "")) [
  | inl e ↦
      cc
        (h, (eq_iff s "").1 ((append-eq-nil_iff {p = s} {q = t}).0 ((eq_iff (◌+++◌ s t) "").0 e)).0)
  | inr e ↦ e
]

to_hex-ne-nil : (b : Bytes) → length b ≡ 16 → (to_hex b == "") ≡ false
unfolding to_hex
to_hex-ne-nil [] h = absurd (omega arith)
to_hex-ne-nil (b ∷ rest) h = append-ne-nil _ _ (hex_digit-ne-nil (b / 16))

-- A digest of 16 bytes prints as a text that is not empty.
pub hash-ne-nil :
    (md5 : Bytes → Bytes) (s : String) → length (md5 (bytes s)) ≡ 16 → (hash md5 s == "") ≡ false
unfolding hash
hash-ne-nil md5 s h = to_hex-ne-nil (md5 (bytes s)) h
