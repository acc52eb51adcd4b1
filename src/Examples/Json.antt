-- ===== src/Examples/Json.antt =====
-- A sample encoding of recorded changes as a text, with which the laws of encoding/json hold: a line
-- for each container, trap and change, of which the number of its texts tells which it is.
use Prim.Native.Char.{Char, code}
use koney.Prelude.{◌≡◌, refl, List, [], ◌∷◌, String, eqb, if◌then◌else◌}

abbrev pub Line : Type 0
Line = List String

-- `cx` is the character x, `..` opens a text and `//` a line; it is read from its end.
put_char : List Line → Char → List Line
put_char ((s ∷ line) ∷ lines) c = (String.◌∷◌ c s ∷ line) ∷ lines
put_char lines c = lines

open_text : List Line → List Line
open_text (line ∷ lines) = ("" ∷ line) ∷ lines
open_text [] = []

pub decode : String → List Line
decode String.[] = []
decode (String.◌∷◌ t String.[]) = []
decode (String.◌∷◌ t (String.◌∷◌ c rest)) =
    let lines = decode rest in
    if eqb (code t) b'c'
    then put_char lines c
    else if eqb (code t) b'.'
    then open_text lines
    else [] ∷ lines

encode_text : String → String → String
encode_text String.[] rest = String.◌∷◌ "." (String.◌∷◌ "." rest)
encode_text (String.◌∷◌ c s) rest = String.◌∷◌ "c" (String.◌∷◌ c (encode_text s rest))

encode_line : Line → String → String
encode_line [] rest = String.◌∷◌ "/" (String.◌∷◌ "/" rest)
encode_line (s ∷ line) rest = encode_text s (encode_line line rest)

pub encode : List Line → String
encode [] = ""
encode (line ∷ lines) = encode_line line (encode lines)

decode-encode_text :
    (s rest : String) {line : Line} {lines : List Line}
    → decode rest ≡ line ∷ lines
    → decode (encode_text s rest) ≡ (s ∷ line) ∷ lines
unfolding decode encode_text put_char open_text
decode-encode_text String.[] rest e = rw e refl
decode-encode_text (String.◌∷◌ c s) rest e = rw (decode-encode_text s rest e) refl

decode-encode_line :
    (line : Line) (rest : String) → decode (encode_line line rest) ≡ line ∷ decode rest
unfolding decode encode_line
decode-encode_line [] rest = refl
decode-encode_line (s ∷ line) rest =
    decode-encode_text s (encode_line line rest) (decode-encode_line line rest)

pub decode-encode : (lines : List Line) → decode (encode lines) ≡ lines
unfolding encode decode
decode-encode [] = refl
decode-encode (line ∷ lines) = rw (decode-encode_line line (encode lines), decode-encode lines) refl
