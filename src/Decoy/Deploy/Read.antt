-- ===== src/Decoy/Deploy/Read.antt =====
-- The commands of deployDecoyWithContainerExec that read a file back, among the calls of a run
-- (internal/controller/traps/filesystoken/deployment.go).
use koney.Utils.Bytes.{Bytes, bytes}
use koney.Decoy.Exec.Laws.{command, Finished, deploy_decoy_with_container_exec-Written}
use koney.Decoy.Exec.{
  make_read_only, verify_file, write_file, deploy_decoy_with_container_exec, trim_newline, shell,
  directory_of, read_command, make_directory,
}
use koney.Api.Trap.{Trap}
use koney.Cluster.{Pod}
use koney.Effects.{Cluster, Call, History, Answer, after, lift}
use koney.Prelude.{
  [], none, some, true, false, inl, inr, ◌∷◌, ◌≡◌, ◌⊎◌, Option, Bool, String, subst, sym, refl,
}

-- (internal/controller/traps/filesystoken/deployment.go).
module _ (c : Cluster) (p : Pod) (trap : Trap) where
  -- The command that reads the file of the trap back.
  abbrev pub reading : String → Call
  reading name = command p name (shell (read_command (bytes trap.filesystem_honeytoken.file_path)))

  -- In some call of the run, the file was read in the container and had the content of the trap, but
  -- for one newline at the end.
  abbrev pub IsRead : String → History → Type 0
  IsRead name [] = ⊥
  IsRead name (x ∷ h) =
      ((x ≡ reading name)
        × ((c.output h x).1 ≡ none)
        × (trim_newline (c.output h x).0
            ≡ trim_newline (bytes trap.filesystem_honeytoken.file_content)))
      ⊎ IsRead name h

  Finished-IsRead :
      (name : String) (b : Bool) (h h' : History)
      → Finished c p name
          (bytes trap.filesystem_honeytoken.file_path)
          (bytes trap.filesystem_honeytoken.file_content)
          trap.filesystem_honeytoken.read_only
          b
          h
          h'
      → IsRead name h
      → IsRead name h'
  Finished-IsRead name false h h' f k = subst (IsRead name) (sym f) k
  Finished-IsRead name true h h' f k = subst (IsRead name) (sym f.1) (inr k)

  pub exec-IsRead :
      (name : String) (h : History)
      → (deploy_decoy_with_container_exec c trap p name h).0 ≡ some []
      → IsRead name (deploy_decoy_with_container_exec c trap p name h).1
  unfolding deploy_decoy_with_container_exec
  exec-IsRead name h e = go (directory_of (bytes trap.filesystem_honeytoken.file_path)) refl e
    where
      go :
          (o : Option Bytes)
          → directory_of (bytes trap.filesystem_honeytoken.file_path) ≡ o
          → (after (λ d. lift (make_directory c p name trap d)) (o, h)).0 ≡ some []
          → IsRead name (deploy_decoy_with_container_exec c trap p name h).1
      go none d k = cc
      go (some directory) d k =
          let w = deploy_decoy_with_container_exec-Written c trap p name directory h d e in
          Finished-IsRead name trap.filesystem_honeytoken.read_only _ _ w.1.finished
            (inl (refl, w.1.read, w.1.equal))

  make_read_only-keeps :
      (q : Pod) (name : String) (b : Bool) (h : History) (n : String)
      → IsRead n h
      → IsRead n (make_read_only c q name (bytes trap.filesystem_honeytoken.file_path) b h).1
  unfolding make_read_only
  make_read_only-keeps q name false h n k = k
  make_read_only-keeps q name true h n k = inr k

  verify_file-keeps :
      (q : Pod) (name : String) (answer : Answer) (h : History) (n : String)
      → IsRead n h
      → IsRead n
          (verify_file c q name
            (bytes trap.filesystem_honeytoken.file_path)
            (bytes trap.filesystem_honeytoken.file_content)
            trap.filesystem_honeytoken.read_only
            answer
            h).1
  unfolding verify_file
  verify_file-keeps q name (some e) h n k = k
  verify_file-keeps q name none h n k = make_read_only-keeps q name _ _ n (inr k)

  write_file-keeps :
      (q : Pod) (name : String) (answer : Answer) (h : History) (n : String)
      → IsRead n h
      → IsRead n
          (write_file c q name
            (bytes trap.filesystem_honeytoken.file_path)
            (bytes trap.filesystem_honeytoken.file_content)
            trap.filesystem_honeytoken.read_only
            answer
            h).1
  unfolding write_file
  write_file-keeps q name (some e) h n k = k
  write_file-keeps q name none h n k = verify_file-keeps q name _ _ n (inr k)

  pub exec-keeps :
      (q : Pod) (name : String) (h : History) (n : String)
      → IsRead n h
      → IsRead n (deploy_decoy_with_container_exec c trap q name h).1
  unfolding deploy_decoy_with_container_exec
  exec-keeps q name h n k = go (directory_of (bytes trap.filesystem_honeytoken.file_path))
    where
      go :
          (o : Option Bytes)
          → IsRead n (after (λ d. lift (make_directory c q name trap d)) (o, h)).1
      go none = k
      go (some d) = write_file-keeps q name _ _ n (inr k)
