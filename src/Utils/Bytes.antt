-- ===== src/Utils/Bytes.antt =====
-- The bytes of a Go string, `[]byte(s)`: its characters in UTF-8.
use Prim.Native.Char.{code}
use Prim.Native.String.append
use text.Mathlib.TextEquality.{starts_with_iff}
use koney.Prelude.{
  ℕ, ◌+◌, ◌/◌, ◌%◌, String, ◌≡◌, refl, List, [], ◌∷◌, ◌++◌, ltb, if◌then◌else◌, true, starts_with,
  sym, ap, ◌∙◌,
}

abbrev pub Bytes : Type 0
Bytes = List ℕ

utf8 : ℕ → Bytes
utf8 c =
    if ltb c 128
    then c ∷ []
    else if ltb c 2048
    then (192 + c / 64) ∷ (128 + c % 64) ∷ []
    else if ltb c 65536
    then (224 + c / 4096) ∷ (128 + c / 64 % 64) ∷ (128 + c % 64) ∷ []
    else (240 + c / 262144) ∷ (128 + c / 4096 % 64) ∷ (128 + c / 64 % 64) ∷ (128 + c % 64) ∷ []

unfoldable pub bytes : String → Bytes
unfolding utf8
bytes String.[] = []
bytes (String.◌∷◌ c s) = utf8 (code c) ++ bytes s

bytes_test : bytes "aé/" ≡ 97 ∷ 195 ∷ 169 ∷ 47 ∷ []
unfolding bytes
bytes_test = refl

-- The bytes of an absolute path begin with a slash.
pub bytes-absolute :
    (path : String) → starts_with path "/" ≡ true → (rest : Bytes) × (bytes path ≡ b'/' ∷ rest)
unfolding bytes utf8
bytes-absolute path e =
    let (rest, same) = (starts_with_iff path "/").0 e in
    (
      bytes rest,
      sym (
          ap bytes
            (sym (append.cons "/" "" rest ∙ ap (λ s. String.◌∷◌ "/" s) (append.nil rest)) ∙ same)),
    )
