-- ===== src/Decoy/Exec.antt =====
-- deployDecoyWithContainerExec of internal/controller/traps/filesystoken/deployment.go and
-- removeDecoyWithContainerExec of removal.go. The command itself runs in the cluster; commands and
-- outputs are bytes.
pub mod Laws
use koney.Prelude.{
  ◌++◌, [], ◌∷◌, none, some, true, false, String, Option, List, Bool, if◌then◌else◌, eqb, ◌&&◌,
  ◌||◌,
}
use koney.Utils.Bytes.{Bytes, bytes}
use koney.Utils.Encoding.{string_to_oct}
use koney.Utils.Fingerprint.{
  koney_fingerprint, encode_fingerprint_in_echo, encode_fingerprint_in_cat,
}
use koney.Api.Trap.{Trap}
use koney.Cluster.{Pod}
use koney.Controller.Results.{Errors, text}
use koney.Effects.{Cluster, M, Run, Answer, execute, errors_of, ask, or_panic, lift, ◌>>=◌}

-- `s[:strings.LastIndex(s, "/")]`; without a slash the slice expression panics, `none`.
unfoldable pub directory_of : Bytes → Option Bytes
directory_of [] = none
directory_of (char ∷ s) = elim (directory_of s) [
  | some directory ↦ some (char ∷ directory)
  | none ↦ if eqb char b'/' then some [] else none
]

-- `strings.TrimSuffix(s, "\n")`
unfoldable pub trim_newline : Bytes → Bytes
trim_newline [] = []
trim_newline (char ∷ []) = if eqb char b'\n' then [] else char ∷ []
trim_newline (char ∷ next ∷ s) = char ∷ trim_newline (next ∷ s)

abbrev pub same_bytes : Bytes → Bytes → Bool
same_bytes [] [] = true
same_bytes (a ∷ s) (b ∷ t) = eqb a b && same_bytes s t
same_bytes _ _ = false

abbrev pub has_prefix : Bytes → Bytes → Bool
has_prefix [] s = true
has_prefix (a ∷ prefix) [] = false
has_prefix (a ∷ prefix) (b ∷ s) = eqb a b && has_prefix prefix s

-- `strings.Contains(s, part)`
abbrev pub contains_bytes : Bytes → Bytes → Bool
contains_bytes [] part = has_prefix part []
contains_bytes (char ∷ s) part = has_prefix part (char ∷ s) || contains_bytes s part

-- FilesystemHoneytokenReconciler.executeCommandInContainer, of which the stream is the cluster's.
abbrev pub execute_command_in_container : Cluster → Pod → String → List Bytes → M (Bytes × Answer)
execute_command_in_container c p container_name cmd =
    ask c.output (execute p.meta.namespace p.meta.name container_name cmd)

abbrev pub shell : Bytes → List Bytes
shell command = bytes "sh" ∷ bytes "-c" ∷ command ∷ []

-- The command that writes the file: its content in octal, or nothing.
unfoldable pub write_command : Bytes → Bytes → Bytes
write_command path [] =
    bytes "echo -e \"\\c "
    ++ encode_fingerprint_in_echo koney_fingerprint
    ++ bytes "\" > \""
    ++ path
    ++ bytes "\""
write_command path (char ∷ content) =
    bytes "oct_string=\""
    ++ string_to_oct (char ∷ content)
    ++ bytes
        "\"; i=1; while [ $i -lt ${#oct_string} ]; do $(which echo) -e \"\\0$(expr substr $oct_string $i 3)\\c "
    ++ encode_fingerprint_in_echo koney_fingerprint
    ++ bytes "\"; i=$(expr $i + 3); done > \""
    ++ path
    ++ bytes "\""

-- The command that reads the file back.
unfoldable pub read_command : Bytes → Bytes
read_command path =
    bytes "cat " ++ encode_fingerprint_in_cat koney_fingerprint ++ bytes " \"" ++ path ++ bytes "\""

-- The errors of reading the file back.
unfoldable pub check_content : Bytes → Bytes × Answer → Errors
check_content content (output, some e) = e ∷ []
check_content content (output, none) =
    if same_bytes (trim_newline output) (trim_newline content)
    then []
    else text "the content of the file is not the expected content" ∷ []

-- `if trap.FilesystemHoneytoken.ReadOnly`
unfoldable pub make_read_only : Cluster → Pod → String → Bytes → Bool → M Answer
make_read_only c p container_name path false h = (none, h)
make_read_only c p container_name path true h =
    let (r, h') =
      execute_command_in_container c p container_name (bytes "chmod" ∷ bytes "444" ∷ path ∷ []) h in
    (r.1, h')

-- What follows the write.
unfoldable pub verify_file : Cluster → Pod → String → Bytes → Bytes → Bool → Answer → M Errors
verify_file c p container_name path content read_only (some e) h = (e ∷ [], h)
verify_file c p container_name path content read_only none h =
    let (r, h1) = execute_command_in_container c p container_name (shell (read_command path)) h in
    let (e, h2) = make_read_only c p container_name path read_only h1 in
    (check_content content r ++ errors_of e, h2)

-- What follows the creation of the directory.
unfoldable pub write_file : Cluster → Pod → String → Bytes → Bytes → Bool → Answer → M Errors
write_file c p container_name path content read_only (some e) h = (e ∷ [], h)
write_file c p container_name path content read_only none h =
    let (r, h1) =
      execute_command_in_container c p container_name (shell (write_command path content)) h in
    verify_file c p container_name path content read_only r.1 h1

abbrev pub make_directory : Cluster → Pod → String → Trap → Bytes → M Errors
make_directory c p container_name trap directory h =
    let token = trap.filesystem_honeytoken in
    let (r, h1) =
      execute_command_in_container c p container_name (bytes "mkdir" ∷ bytes "-p" ∷ directory ∷ [])
        h in
    write_file c p container_name (bytes token.file_path) (bytes token.file_content) token.read_only
      r.1 h1

-- FilesystemHoneytokenReconciler.deployDecoyWithContainerExec; no errors are nil.
unfoldable pub deploy_decoy_with_container_exec : Cluster → Trap → Pod → String → Run Errors
deploy_decoy_with_container_exec c trap p container_name =
    or_panic (directory_of (bytes trap.filesystem_honeytoken.file_path)) >>= λ directory.
    lift (make_directory c p container_name trap directory)

-- The errors of the check that the file is gone.
unfoldable pub check_removed : Bytes × Answer → Errors
check_removed (output, some e) = e ∷ []
check_removed (output, none) =
    if contains_bytes output (bytes "No such file")
    then []
    else text "the file was not removed" ∷ []

unfoldable pub verify_removal : Cluster → Pod → String → Bytes → Answer → M Errors
verify_removal c p container_name path (some e) h = (e ∷ [], h)
verify_removal c p container_name path none h =
    let (r, h1) =
      execute_command_in_container c p container_name
        (shell (bytes "[ ! -f " ++ path ++ bytes " ] && echo 'No such file' || echo 'File exists'"))
        h in
    (check_removed r, h1)

-- FilesystemHoneytokenReconciler.removeDecoyWithContainerExec, with the path of the honeytoken.
unfoldable pub remove_decoy_with_container_exec : Cluster → String → Pod → String → M Errors
remove_decoy_with_container_exec c file_path p container_name h =
    let path = bytes file_path in
    let (r, h1) =
      execute_command_in_container c p container_name (bytes "rm" ∷ bytes "-f" ∷ path ∷ []) h in
    verify_removal c p container_name path r.1 h1
