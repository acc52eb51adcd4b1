-- ===== src/Decoy/Secret.antt =====
-- createSecret of internal/controller/traps/filesystoken/utils.go.
use koney.Prelude.{◌==◌, none, some, ok, err, String, if◌then◌else◌, Result}
use koney.Controller.Results.{Cause, not_found, conflict, no_kind_match, text}
use koney.Effects.{Cluster, M, Answer, ask, create_secret, get_secret}

-- The secret that is created, of one file.
pub record Secret : Type 0 where
  pub namespace : String
  pub name : String
  pub file_name : String
  pub content : String

-- One attempt to create it.
abbrev pub create : Cluster → Secret → Unit {0} → M (Answer × Unit {0})
create c s u h =
    let (e, h') = ask c.run (create_secret s.namespace s.name s.file_name s.content) h in
    ((e, u), h')

abbrev pub create_now : Cluster → Secret → M Answer
create_now c s h = let (r, h') = c.retry (create c s) tt h in (r.0, h')

-- What follows the look-up: the secret is created if it is missing or comes without a name.
unfoldable pub create_unless_found : Cluster → Secret → Result Cause String → M Answer
create_unless_found c s (ok found) h = if found == "" then create_now c s h else (none, h)
create_unless_found c s (err not_found) h = create_now c s h
create_unless_found c s (err conflict) h = (some conflict, h)
create_unless_found c s (err no_kind_match) h = (some no_kind_match, h)
create_unless_found c s (err (text m)) h = (some (text m), h)

-- createSecret
unfoldable pub create_secret_if_missing : Cluster → Secret → M Answer
create_secret_if_missing c s h =
    let (r, h') = ask c.secret (get_secret s.namespace s.name) h in create_unless_found c s r h'
