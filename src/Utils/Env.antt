-- ===== src/Utils/Env.antt =====
-- internal/controller/utils/env.go and hash.go. The process environment and MD5 are parameters.
use koney.Prelude.{Option, none, some, String}

-- os.LookupEnv
abbrev pub Environment : Type 0
Environment = String → Option String

abbrev or_fallback : Option String → String → String
or_fallback none fallback = fallback
or_fallback (some value) fallback = value

-- utils.GetEnv
unfoldable pub get_env : Environment → String → String → String
get_env lookup_env key fallback = or_fallback (lookup_env key) fallback

-- utils.GetKoneyNamespace
unfoldable pub get_koney_namespace : Environment → String
unfolding get_env
get_koney_namespace lookup_env = get_env lookup_env "KONEY_NAMESPACE" "koney-system"
