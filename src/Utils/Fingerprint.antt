-- ===== src/Utils/Fingerprint.antt =====
-- internal/controller/utils/fingerprint.go. Koney encodes one constant, so a code is a number
-- that is not negative.
use koney.Prelude.{ℕ, zero, suc, ◌+◌, ◌/◌, ◌%◌, [], ◌∷◌, ◌++◌, eqb, if◌then◌else◌}
use koney.Utils.Bytes.{Bytes, bytes}

-- utils.KoneyFingerprint
abbrev pub koney_fingerprint : ℕ
koney_fingerprint = 1337

-- Digits of `n` in base `b`, most significant first, in front of `acc`; no digit for 0.
digits : ℕ → ℕ → ℕ → Bytes → Bytes
digits b zero n acc = acc
digits b (suc fuel) n acc =
    let more = digits b fuel (n / b) ((b'0' + n % b) ∷ acc) in if eqb n 0 then acc else more

-- `fmt.Sprintf("%d", n)` and `fmt.Sprintf("%b", n)`, at the bases 10 and 2. `n` itself is fuel
-- enough, since a division by the base makes a positive number smaller.
unfoldable pub format_base : ℕ → ℕ → Bytes
unfolding digits
format_base b n = if eqb n 0 then b'0' ∷ [] else digits b n n []

-- utils.EncodeFingerprintInEcho
unfoldable pub encode_fingerprint_in_echo : ℕ → Bytes
encode_fingerprint_in_echo code = bytes "KONEY_FINGERPRINT_" ++ format_base 10 code

-- The loop over the binary digits: `-u ` for 0 and `-uu ` for 1.
unfoldable pub cipher : Bytes → Bytes
cipher [] = []
cipher (bit ∷ rest) = (if eqb bit b'0' then bytes "-u " else bytes "-uu ") ++ cipher rest

-- `cipher[:len(cipher)-1]`
unfoldable pub drop_last : Bytes → Bytes
drop_last [] = []
drop_last (c ∷ []) = []
drop_last (c ∷ d ∷ rest) = c ∷ drop_last (d ∷ rest)

-- utils.EncodeFingerprintInCat
unfoldable pub encode_fingerprint_in_cat : ℕ → Bytes
encode_fingerprint_in_cat code = drop_last (cipher (format_base 2 code))
