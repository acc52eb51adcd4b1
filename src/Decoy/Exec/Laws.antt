-- ===== src/Decoy/Exec/Laws.antt =====
-- What a deployDecoyWithContainerExec without an error has done
-- (internal/controller/traps/filesystoken/deployment.go).
use koney.Effects.Steps.{after-some, append_nil, errors_of_nil}
use koney.Controller.Results.{Errors}
use koney.Api.Trap.{Trap}
use koney.Cluster.{Pod}
use koney.Decoy.Exec.{
  same_bytes, check_content, shell, make_read_only, verify_file, write_file,
  deploy_decoy_with_container_exec, trim_newline, write_command, directory_of, read_command,
  make_directory,
}
use koney.Effects.{Cluster, History, Answer, Call, execute, lift}
use koney.Utils.Bytes.{Bytes, bytes}
use koney.Prelude.{
  [], none, true, ◌∷◌, ◌≡◌, arith, String, refl, some, false, List, Bool, Option, subst, sym,
}

same_bytes_sound : (s t : Bytes) → same_bytes s t ≡ true → s ≡ t
same_bytes_sound [] [] e = refl
same_bytes_sound [] (b ∷ t) e = cc
same_bytes_sound (a ∷ s) [] e = cc
same_bytes_sound (a ∷ s) (b ∷ t) e = ground (arith, same_bytes_sound s t)

same_bytes_complete : (s : Bytes) → same_bytes s s ≡ true
same_bytes_complete [] = refl
same_bytes_complete (a ∷ s) = ground (arith, same_bytes_complete s)

check_content-equal :
    (content : Bytes) (r : Bytes × Answer)
    → check_content content r ≡ []
    → (r.1 ≡ none) × (trim_newline r.0 ≡ trim_newline content)
unfolding check_content
check_content-equal content (output, some e) k = cc
check_content-equal content (output, none) k = (refl, same_bytes_sound _ _ (ground arith))

-- The words that are run in the container.
abbrev pub command : Pod → String → List Bytes → Call
command p container_name words = execute p.meta.namespace p.meta.name container_name words

module _ (c : Cluster) (p : Pod) (container_name : String) (path content : Bytes)
    (read_only : Bool) where
  -- The last command makes the file read-only, if it is to be so.
  abbrev pub Finished : Bool → History → History → Type 0
  Finished false h h' = h' ≡ h
  Finished true h h' =
      let call = command p container_name (bytes "chmod" ∷ bytes "444" ∷ path ∷ []) in
      ((c.output h call).1 ≡ none) × (h' ≡ call ∷ h)

  -- The file is written after h, without an error, and reads as the content but for one newline.
  pub record Written (h h' : History) : Type 0 where
    pub written :
        (c.output h (command p container_name (shell (write_command path content)))).1 ≡ none
    pub read :
        (c.output
          (command p container_name (shell (write_command path content)) ∷ h)
          (command p container_name (shell (read_command path)))).1
        ≡ none
    pub equal :
        trim_newline
          (c.output
            (command p container_name (shell (write_command path content)) ∷ h)
            (command p container_name (shell (read_command path)))).0
        ≡ trim_newline content
    pub finished :
        Finished read_only
          (command p container_name (shell (read_command path))
            ∷ command p container_name (shell (write_command path content))
            ∷ h)
          h'

  make_read_only-Finished :
      (b : Bool) (h : History)
      → (make_read_only c p container_name path b h).0 ≡ none
      → Finished b h (make_read_only c p container_name path b h).1
  unfolding make_read_only
  make_read_only-Finished false h e = refl
  make_read_only-Finished true h e = (e, refl)

  verify_file-Written :
      (answer : Answer) (h : History)
      → (c.output h (command p container_name (shell (write_command path content)))).1 ≡ answer
      → (verify_file c p container_name path content read_only answer
          (command p container_name (shell (write_command path content)) ∷ h)).0
        ≡ []
      → Written h
          (verify_file c p container_name path content read_only answer
            (command p container_name (shell (write_command path content)) ∷ h)).1
  unfolding verify_file
  verify_file-Written (some e) h w k = cc
  verify_file-Written none h w k =
      let (checked, restricted) = append_nil _ _ k in
      let (no_error, equal) = check_content-equal content _ checked in
      record {
        written = w;
        read = no_error;
        equal = equal;
        finished = make_read_only-Finished read_only _ (errors_of_nil _ restricted);
      }

  write_file-Written :
      (answer : Answer) (h : History)
      → (write_file c p container_name path content read_only answer h).0 ≡ []
      → (answer ≡ none)
        × Written h (write_file c p container_name path content read_only answer h).1
  unfolding write_file
  write_file-Written (some e) h k = cc
  write_file-Written none h k = (refl, verify_file-Written _ h refl k)

module _ (c : Cluster) (trap : Trap) (p : Pod) (container_name : String) (directory : Bytes) where
  abbrev pub mkdir : Call
  mkdir = command p container_name (bytes "mkdir" ∷ bytes "-p" ∷ directory ∷ [])

  -- The directory is made, and the file of the trap is written into it.
  abbrev pub MadeAndWritten : History → History → Type 0
  MadeAndWritten h h' =
      ((c.output h mkdir).1 ≡ none)
      × Written c p container_name (bytes trap.filesystem_honeytoken.file_path)
          (bytes trap.filesystem_honeytoken.file_content) trap.filesystem_honeytoken.read_only
          (mkdir ∷ h) h'

  -- If the path of the honeytoken has a directory and deployDecoyWithContainerExec returns no
  -- error, then its calls are these, each without an error: mkdir of the directory, the command
  -- that writes the file, the one that reads it, whose output is the content but for one newline
  -- at the end, and chmod 444 exactly if the honeytoken is read-only.
  pub deploy_decoy_with_container_exec-Written :
      (h : History)
      → directory_of (bytes trap.filesystem_honeytoken.file_path) ≡ some directory
      → (deploy_decoy_with_container_exec c trap p container_name h).0 ≡ some []
      → MadeAndWritten h (deploy_decoy_with_container_exec c trap p container_name h).1
  unfolding deploy_decoy_with_container_exec
  deploy_decoy_with_container_exec-Written h d e =
      subst (λ (r : Option Errors × History). r.0 ≡ some [] → MadeAndWritten h r.1)
        (sym (after-some (λ path. lift (make_directory c p container_name trap path)) (_, h) d))
        (λ k.
          write_file-Written c p container_name (bytes trap.filesystem_honeytoken.file_path)
            (bytes trap.filesystem_honeytoken.file_content) trap.filesystem_honeytoken.read_only _
            (mkdir ∷ h) (some_injective k))
        e
    where
      some_injective : {A : Type 0} {x y : A} → some x ≡ some y → x ≡ y
      some_injective k = cc
