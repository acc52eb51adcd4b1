-- ===== src/Examples/Records.antt =====
-- The sample encoding of recorded changes by lines, and theorems on the annotation of a resource.
use koney.Annotations.Resource.Updates.{Updated, update_containers_in_annotations-Updated}
use koney.Annotations.Changes.Removal.{IsTidy}
use koney.Cluster.{ObjectMeta}
use koney.Examples.Json.{Line, encode, decode, decode-encode}
use koney.Annotations.Resource.Laws.{
  IsJson, recorded, Added, recorded-add_trap_to_annotations_ne, remove_trap_annotations_lem,
  add_trap_to_annotations-Added,
}
use koney.Annotations.Resource.{
  Codec, read_changes, remove_trap_annotations, add_trap_to_annotations, annotation_key_changes,
  update_containers_in_annotations,
}
use koney.Api.Annotation.{TrapAnnotation, ChangeAnnotation}
use koney.Examples.{md5, meta, web_trap}
use koney.Api.Trap.{trap_type}
use koney.Annotations.Changes.{find_change}
use koney.Api.Annotation.{equals}
use koney.Prelude.{
  ◌≡◌, refl, List, [], ◌∷◌, String, Bool, true, false, some, none, lookup, keep, not,
}

-- What is read so far, from the end: containers and traps that still lack their owner, and changes.
record Pending : Type 0 where
  containers : List String
  traps : List TrapAnnotation
  changes : List ChangeAnnotation

trap_of : String → String → String → String → String → Bool → List String → TrapAnnotation
trap_of strategy created updated path digest read_only containers = record {
  deployment_strategy = strategy;
  containers = containers;
  created_at = created;
  updated_at = updated;
  filesystem_honeytoken = record {
    file_path = path;
    file_content_hash = digest;
    read_only = read_only;
  };
  http_endpoint = record {};
  http_payload = record {};
}

close_trap : Pending → (List String → TrapAnnotation) → Pending
close_trap p trap = record p { containers = []; traps = trap p.containers ∷ p.traps }

take_line : Line → Pending → Pending
take_line (name ∷ []) p = record p { containers = name ∷ p.containers }
take_line (policy ∷ _ ∷ []) p = record p {
  traps = [];
  changes = record { deception_policy_name = policy; traps = p.traps } ∷ p.changes;
}
take_line (s ∷ c ∷ u ∷ f ∷ d ∷ []) p = close_trap p (trap_of s c u f d false)
take_line (s ∷ c ∷ u ∷ f ∷ d ∷ _ ∷ []) p = close_trap p (trap_of s c u f d true)
take_line _ p = p

read : List Line → Pending
read [] = record { containers = []; traps = []; changes = [] }
read (line ∷ lines) = take_line line (read lines)

container_lines : List String → List Line → List Line
container_lines [] rest = rest
container_lines (name ∷ names) rest = (name ∷ []) ∷ container_lines names rest

flag : Bool → Line
flag true = "" ∷ []
flag false = []

trap_line : TrapAnnotation → Line
trap_line t =
    t.deployment_strategy
    ∷ t.created_at
    ∷ t.updated_at
    ∷ t.filesystem_honeytoken.file_path
    ∷ t.filesystem_honeytoken.file_content_hash
    ∷ flag t.filesystem_honeytoken.read_only

trap_lines : List TrapAnnotation → List Line → List Line
trap_lines [] rest = rest
trap_lines (t ∷ traps) rest = trap_line t ∷ container_lines t.containers (trap_lines traps rest)

change_lines : List ChangeAnnotation → List Line
change_lines [] = []
change_lines (c ∷ changes) =
    (c.deception_policy_name ∷ "" ∷ []) ∷ trap_lines c.traps (change_lines changes)

abbrev pending : List String → List TrapAnnotation → List ChangeAnnotation → Pending
pending containers traps changes = record {
  containers = containers;
  traps = traps;
  changes = changes;
}

read-container_lines :
    (names : List String) (rest : List Line) {traps : List TrapAnnotation}
    {changes : List ChangeAnnotation}
    → read rest ≡ pending [] traps changes
    → read (container_lines names rest) ≡ pending names traps changes
unfolding read container_lines take_line
read-container_lines [] rest e = e
read-container_lines (name ∷ names) rest e = rw (read-container_lines names rest e) refl

read-trap_line :
    (t : TrapAnnotation) (traps : List TrapAnnotation) (changes : List ChangeAnnotation)
    → take_line (trap_line t) (pending t.containers traps changes) ≡ pending [] (t ∷ traps) changes
unfolding take_line trap_line flag close_trap trap_of
read-trap_line t traps changes = go t.filesystem_honeytoken.read_only
  where
    go :
        (b : Bool)
        → take_line
            (t.deployment_strategy
              ∷ t.created_at
              ∷ t.updated_at
              ∷ t.filesystem_honeytoken.file_path
              ∷ t.filesystem_honeytoken.file_content_hash
              ∷ flag b)
            (pending t.containers traps changes)
          ≡ pending []
              (trap_of t.deployment_strategy t.created_at t.updated_at
                  t.filesystem_honeytoken.file_path t.filesystem_honeytoken.file_content_hash b
                  t.containers
                ∷ traps)
              changes
    go true = refl
    go false = refl

read-trap_lines :
    (traps : List TrapAnnotation) (rest : List Line) {changes : List ChangeAnnotation}
    → read rest ≡ pending [] [] changes
    → read (trap_lines traps rest) ≡ pending [] traps changes
unfolding read trap_lines
read-trap_lines [] rest e = e
read-trap_lines (t ∷ traps) rest {changes} e =
    rw (read-container_lines t.containers (trap_lines traps rest) (read-trap_lines traps rest e))
      (read-trap_line t traps changes)

read-change_lines :
    (changes : List ChangeAnnotation) → read (change_lines changes) ≡ pending [] [] changes
unfolding read change_lines take_line
read-change_lines [] = refl
read-change_lines (c ∷ changes) =
    rw (read-trap_lines c.traps (change_lines changes) (read-change_lines changes)) refl

abbrev codec : Codec
codec = record {
  marshal = λ changes. some (encode (change_lines changes));
  unmarshal = λ text. some ((read (decode text)).changes);
  md5 = md5;
}

read-encode :
    (changes : List ChangeAnnotation)
    → (read (decode (encode (change_lines changes)))).changes ≡ changes
read-encode changes = rw (decode-encode (change_lines changes), read-change_lines changes) refl

codec-IsJson : IsJson codec
codec-IsJson = record {
  total = λ changes. refl;
  back = λ changes text e. cc (e, read-encode changes);
}

-- What a policy has on record: the trap of `mounted_trap`'s path with its old content.
abbrev old_entry : TrapAnnotation
old_entry = trap_of "volumeMount" "old" "" "/run/secrets/token" "ab" false ("nginx" ∷ [])

abbrev old_changes : List ChangeAnnotation
old_changes =
    record { deception_policy_name = "other"; traps = old_entry ∷ [] }
    ∷ record { deception_policy_name = "policy"; traps = old_entry ∷ [] }
    ∷ []

abbrev resource : ObjectMeta
resource = record (meta "web-0") {
  annotations = some ((annotation_key_changes, encode (change_lines old_changes)) ∷ []);
}

read_changes-resource : read_changes codec resource ≡ some old_changes
unfolding read_changes lookup
read_changes-resource = codec-IsJson.back old_changes (encode (change_lines old_changes)) refl

add_trap_to_annotations-Added_example :
    let (error, after) =
      add_trap_to_annotations codec "now" resource "policy" web_trap ("nginx" ∷ "sidecar" ∷ []) in
    (error ≡ none)
    × ((traps : List TrapAnnotation) × (recorded codec after "policy" ≡ some traps)
        × Added codec web_trap ("nginx" ∷ "sidecar" ∷ []) (old_entry ∷ []) traps)
unfolding trap_type find_change
add_trap_to_annotations-Added_example =
    add_trap_to_annotations-Added codec codec-IsJson (λ b. refl) "now" resource "policy" web_trap
      ("nginx" ∷ "sidecar" ∷ []) read_changes-resource refl

recorded-add_trap_to_annotations_ne_example :
    recorded codec
      (add_trap_to_annotations codec "now" resource "policy" web_trap ("nginx" ∷ [])).1
      "other"
    ≡ recorded codec resource "other"
recorded-add_trap_to_annotations_ne_example =
    recorded-add_trap_to_annotations_ne codec codec-IsJson "now" resource "policy" "other" web_trap
      ("nginx" ∷ []) cc

remove_trap_annotations_lem_example :
    let (error, after) = remove_trap_annotations codec resource "policy" old_entry in
    (error ≡ none)
    × (recorded codec after "policy"
        ≡ some (keep (λ a. not (equals a old_entry false)) (old_entry ∷ [])))
    × ((new : List ChangeAnnotation) × (read_changes codec after ≡ some new) × IsTidy new)
unfolding find_change
remove_trap_annotations_lem_example =
    remove_trap_annotations_lem codec codec-IsJson resource "policy" "policy" old_entry
      read_changes-resource (refl, refl, (refl, refl, tt))

update_containers_in_annotations-Updated_example :
    let (error, after) =
      update_containers_in_annotations codec "now" resource "policy" old_entry ("sidecar" ∷ []) in
    (error ≡ none)
    × ((traps : List TrapAnnotation) × (recorded codec after "policy" ≡ some traps)
        × Updated old_entry ("sidecar" ∷ []) (old_entry ∷ []) traps)
unfolding find_change trap_of
update_containers_in_annotations-Updated_example =
    update_containers_in_annotations-Updated codec codec-IsJson "now" resource "policy" old_entry
      ("sidecar" ∷ []) read_changes-resource refl refl
