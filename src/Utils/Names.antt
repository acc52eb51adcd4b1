-- ===== src/Utils/Names.antt =====
-- internal/controller/utils/matching.go. The regular expressions and globs of Go's library are
-- parameters: `none` is a pattern that does not compile.
use Prim.Native.String.{len, slice}
use koney.Prelude.{Bool, true, Option, some, String, ◌==◌, starts_with, if◌then◌else◌}

-- `regexp.Compile` with `Match`, and `filepath.Match`
pub record Patterns : Type 0 where
  pub regex_match : String → String → Option Bool
  pub glob_match : String → String → Option Bool

-- strings.TrimPrefix
abbrev trim_prefix : String → String → String
trim_prefix s prefix = if starts_with s prefix then slice s (len prefix) (len s) else s

-- utils.MatchContainerName; `none` is an error.
unfoldable pub match_container_name : Patterns → String → String → Option Bool
match_container_name patterns pattern container_name =
    if pattern == ""
    then some true
    else if starts_with pattern "regex:"
    then patterns.regex_match (trim_prefix pattern "regex:") container_name
    else if starts_with pattern "glob:"
    then patterns.glob_match (trim_prefix pattern "glob:") container_name
    else some (pattern == container_name)
