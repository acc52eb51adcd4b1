-- ===== src/Decoy/Remove/Loop.antt =====
-- The loop of RemoveDecoy over the containers, with the strategy containerExec
-- (internal/controller/traps/filesystoken/removal.go).
use koney.Effects.Steps.{not_nil}
use koney.Controller.Results.{text, Errors}
use koney.Decoy.Remove.{
  remove_from_container, Removal, Step, remove_by_exec, remove_from_containers, continues,
  record_removal, unless_stopped,
}
use koney.Api.Annotation.{TrapAnnotation}
use koney.Libraries.{Libraries}
use koney.Decoy.Exec.{
  check_removed, verify_removal, remove_decoy_with_container_exec, shell, contains_bytes,
}
use koney.Utils.Bytes.{Bytes, bytes}
use koney.Cluster.{Pod, pod}
use koney.Effects.{Cluster, Call, History, execute, Answer}
use koney.Prelude.{
  [], none, some, true, false, inl, inr, ◌∷◌, ◌++◌, ◌≡◌, ◌==◌, ◌⊎◌, List, Option, Bool, String,
  if◌then◌else◌, refl, All, ◌∙◌, sym, is_nil, append-snoc, append_empty,
}

module _ (c : Cluster) (p : Pod) (path : String) where
  abbrev pub in_container : String → List Bytes → Call
  in_container name words = execute p.meta.namespace p.meta.name name words

  -- The command that looks for the file.
  abbrev pub check : String → Call
  check name = in_container name (
      shell
        (bytes "[ ! -f " ++ bytes path ++ bytes " ] && echo 'No such file' || echo 'File exists'"))

  -- In some call of the run, the container has answered that there is no such file.
  abbrev pub IsGone : String → History → Type 0
  IsGone name [] = ⊥
  IsGone name (x ∷ h) =
      ((x ≡ check name)
        × ((c.output h x).1 ≡ none)
        × (contains_bytes (c.output h x).0 (bytes "No such file") ≡ true))
      ⊎ IsGone name h

  check_removed-nil :
      (r : Bytes × Answer)
      → check_removed r ≡ []
      → (r.1 ≡ none) × (contains_bytes r.0 (bytes "No such file") ≡ true)
  unfolding check_removed
  check_removed-nil (output, some e) k = cc
  check_removed-nil (output, none) k = (refl, go (contains_bytes output (bytes "No such file")) k)
    where
      go : (b : Bool) → (if b then [] else text "the file was not removed" ∷ []) ≡ [] → b ≡ true
      go true k = refl
      go false k = cc

  verify_removal-IsGone :
      (name : String) (answer : Answer) (h : History)
      → (verify_removal c p name (bytes path) answer h).0 ≡ []
      → IsGone name (verify_removal c p name (bytes path) answer h).1
  unfolding verify_removal
  verify_removal-IsGone name (some e) h k = cc
  verify_removal-IsGone name none h k =
      let (no_error, gone) = check_removed-nil _ k in inl (refl, no_error, gone)

  verify_removal-keeps :
      (name : String) (answer : Answer) (h : History) (other_name : String)
      → IsGone other_name h
      → IsGone other_name (verify_removal c p name (bytes path) answer h).1
  unfolding verify_removal
  verify_removal-keeps name (some e) h n k = k
  verify_removal-keeps name none h n k = inr k

  exec-IsGone :
      (name : String) (h : History)
      → (remove_decoy_with_container_exec c path p name h).0 ≡ []
      → IsGone name (remove_decoy_with_container_exec c path p name h).1
  unfolding remove_decoy_with_container_exec
  exec-IsGone name h k = verify_removal-IsGone name _ _ k

  exec-keeps :
      (name : String) (h : History) (other_name : String)
      → IsGone other_name h
      → IsGone other_name (remove_decoy_with_container_exec c path p name h).1
  unfolding remove_decoy_with_container_exec
  exec-keeps name h n k = verify_removal-keeps name _ _ n (inr k)

  -- The loop over the containers: it ends, and if it has no error then neither had what came before,
  -- all containers count as done, and the file is gone from them.
  pub record Looped (errors : Errors) (removed names : List String) (h : History)
      (r : Option Step × History) : Type 0 where
    pub s : Removal
    pub ended : r.0 ≡ some (continues s)
    pub done :
        s.errors ≡ []
        → (errors ≡ []) × (s.removed ≡ removed ++ names) × All (λ name. IsGone name r.1) names
    pub keeps : (name : String) → IsGone name h → IsGone name r.1

module _ (l : Libraries) (c : Cluster) (p : Pod) (trap : TrapAnnotation)
    (by_exec : (trap.deployment_strategy == "containerExec") ≡ true) where
  remove_from_container-exec :
      (s : Removal) (name : String)
      → remove_from_container l c trap s name ≡ remove_by_exec c trap s.resource s name
  unfolding remove_from_container
  remove_from_container-exec s name = rw by_exec refl

  pub loop :
      (names : List String) (errors : Errors) (removed : List String) (h : History)
      → Looped c p trap.filesystem_honeytoken.file_path errors removed names h (
          remove_from_containers l c trap names
            (record { errors = errors; removed = removed; resource = pod p })
            h)
  unfolding remove_from_containers remove_by_exec record_removal unless_stopped
  loop [] errors removed h = record {
    s = record { errors = errors; removed = removed; resource = pod p };
    ended = refl;
    done = λ e. (e, sym (append_empty removed), tt);
    keeps = λ name k. k;
  }
  loop (name ∷ names) errors removed h =
      rw
        (remove_from_container-exec
          (record { errors = errors; removed = removed; resource = pod p }) name)
        (go (remove_decoy_with_container_exec c trap.filesystem_honeytoken.file_path p name h).0
          (exec-IsGone c p trap.filesystem_honeytoken.file_path name h)
          (λ es rs k. loop names es rs k))
    where
      h1 : History
      h1 = (remove_decoy_with_container_exec c trap.filesystem_honeytoken.file_path p name h).1

      go :
          (more : Errors)
          → (more ≡ [] → IsGone c p trap.filesystem_honeytoken.file_path name h1)
          → ((es : Errors) (rs : List String) (k : History)
              → Looped c p trap.filesystem_honeytoken.file_path es rs names k (
                  remove_from_containers l c trap names
                    (record { errors = es; removed = rs; resource = pod p })
                    k))
          → Looped c p trap.filesystem_honeytoken.file_path errors removed (name ∷ names) h (
              remove_from_containers l c trap names
                (if is_nil more
                  then record { errors = errors; removed = removed ++ name ∷ []; resource = pod p }
                  else record { errors = errors ++ more; removed = removed; resource = pod p })
                h1)
      go [] gone rest =
          let r = rest errors (removed ++ name ∷ []) h1 in
          record {
            s = r.s;
            ended = r.ended;
            done = λ e.
                let (a, b, d) = r.done e in
                (a, b ∙ append-snoc removed name names, (r.keeps name (gone refl), d));
            keeps =
                λ n k. r.keeps n (exec-keeps c p trap.filesystem_honeytoken.file_path name h n k);
          }
      go (x ∷ xs) gone rest =
          let r = rest (errors ++ x ∷ xs) removed h1 in
          record {
            s = r.s;
            ended = r.ended;
            done = λ e. absurd (not_nil errors x xs (r.done e).0);
            keeps =
                λ n k. r.keeps n (exec-keeps c p trap.filesystem_honeytoken.file_path name h n k);
          }
