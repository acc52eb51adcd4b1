-- ===== src/Examples/Traps.antt =====
-- Traps, annotations and encodings.
use koney.Api.Annotation.Equality.{SameTrap, equals_iff}
use koney.Api.Annotation.{TrapAnnotation}
use koney.Api.Trap.Valid.Accepts.{IsGoodTrap, filter-panics_iff, is_valid_iff}
use koney.Examples.{patterns, web_trap, nothing_filter, md5, deployed}
use koney.Annotations.Same.{
  convert_trap_to_trap_annotation, are_the_same_trap, are_the_same_trap-convert,
}
use koney.Api.Trap.Valid.{is_valid, filter_is_valid, valid, panics}
use koney.Utils.Encoding.{
  decode_oct, string_to_oct, IsOctalDigit, decode_oct-string_to_oct, string_to_oct-digits,
}
use koney.Utils.Conditions.{ConditionStatus}
use koney.Api.Status.{Status}
use koney.Utils.Hash.{hash, to_hex}
use koney.Api.Annotation.{equals_by_pointer}
use koney.Prelude.{
  ◌⊎◌, false, ◌≡◌, refl, ◌↔◌, [], none, some, true, ◌∷◌, arith, ℕ, All, length, ◌*◌, List, String,
}
use koney.Api.Trap.{trap_type}

-- The annotation of `web_trap` for a list of containers.
abbrev entry : List String → String → TrapAnnotation
entry containers now = record {
  deployment_strategy = "containerExec";
  containers = containers;
  created_at = now;
  updated_at = "";
  filesystem_honeytoken = record {
    file_path = "/run/secrets/token";
    file_content_hash = "0102030405060708090a0b0c0d0e0f10";
    read_only = true;
  };
  http_endpoint = record {};
  http_payload = record {};
}

abbrev one_condition : Status
one_condition = record {
  conditions = record deployed { status = ConditionStatus.is_false; last_transition_time = 3 } ∷ [];
}

decode_oct-string_to_oct_example :
    decode_oct (string_to_oct (b'k' ∷ b'\'' ∷ 255 ∷ [])) ≡ b'k' ∷ b'\'' ∷ 255 ∷ []
decode_oct-string_to_oct_example =
    decode_oct-string_to_oct (b'k' ∷ b'\'' ∷ 255 ∷ [])
      (omega arith, (omega arith, (omega arith, tt)))

string_to_oct-digits_example :
    All IsOctalDigit (string_to_oct (b'k' ∷ 255 ∷ []))
    × (length (string_to_oct (b'k' ∷ 255 ∷ [])) ≡ 3 * length {A = ℕ} (b'k' ∷ 255 ∷ []))
string_to_oct-digits_example =
    string_to_oct-digits (b'k' ∷ 255 ∷ []) (omega arith, (omega arith, tt))

is_valid_iff_example : (is_valid patterns web_trap ≡ valid) ↔ IsGoodTrap patterns web_trap
is_valid_iff_example = is_valid_iff patterns web_trap

filter-panics_iff_example :
    (filter_is_valid patterns nothing_filter ≡ panics)
    ↔ ((nothing_filter.namespaces ≡ some []) × (nothing_filter.selector ≡ none))
filter-panics_iff_example = filter-panics_iff patterns nothing_filter

equals_iff_example :
    (equals_by_pointer false (entry ("nginx" ∷ []) "old") (entry [] "new") true ≡ true)
    ↔ (false ≡ true) ⊎ SameTrap (entry ("nginx" ∷ []) "old") (entry [] "new") true
equals_iff_example = equals_iff false (entry ("nginx" ∷ []) "old") (entry [] "new") true

are_the_same_trap-convert_example :
    are_the_same_trap md5 (entry ("nginx" ∷ []) "now") web_trap ≡ true
unfolding convert_trap_to_trap_annotation trap_type hash to_hex
are_the_same_trap-convert_example =
    are_the_same_trap-convert md5 web_trap ("nginx" ∷ []) "now" refl refl refl
