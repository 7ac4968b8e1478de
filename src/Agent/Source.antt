-- ===== src/Agent/Source.antt =====
-- build.rs: the version of one entry of a manifest, and of one package of a lock file.
pub mod Hash
use text.Mathlib.Text.{starts_with}
use bdk_floresta.Prelude.{String, ◌<>◌, ◌&&◌, Option, none, some, if◌then◌else◌}
use bdk_floresta.Agent.Toml.{Toml, ◌>>=◌}
use bdk_floresta.Agent.Text.{split, second, short_hash}

-- What a lookup comes to: a version, none, or a panic on a slice inside a character.
pub data Lookup : Type 0 where
  found : String → Lookup
  missing : Lookup
  panicked : Lookup

abbrev pub from_option : Option String → Lookup
from_option none = missing
from_option (some version) = found version

-- `format!("git-{}", &rev[..7.min(rev.len())])`.
abbrev git_text : Option String → Lookup
git_text none = panicked
git_text (some hash) = found ("git-" <> hash)

unfoldable pub git_version : String → Lookup
git_version rev = git_text (short_hash rev)

module _ (T : Toml) where
  -- `as_str` of a member that may be missing.
  abbrev pub text_in : String → T.Table → Option String
  text_in key table = do value ← T.get_in key table; T.as_str value

  abbrev pub text_of : String → T.Value → Option String
  text_of key value = do member ← T.get key value; T.as_str member

  abbrev or_plain : Option String → Lookup → Lookup
  or_plain none plain = plain
  or_plain (some rev) plain = git_version rev

  abbrev or_text : Option String → Lookup → Lookup
  or_text none later = later
  or_text (some version) later = found version

  -- The revision of a git dependency, which must have both keys.
  abbrev git_rev : T.Table → Option String
  git_rev table =
      if T.contains_key "git" table && T.contains_key "rev" table then text_in "rev" table else none

  abbrev table_version : Option T.Table → Lookup → Lookup
  table_version none later = later
  table_version (some table) later =
      or_plain (git_rev table) (or_text (text_in "version" table) later)

  -- The body of the loop over the sections, for the entry of the dependency: a git revision first,
  -- then the version of a table, then a plain text.
  unfoldable pub dep_version : T.Value → Lookup
  dep_version dep = table_version (T.as_table dep) (from_option (T.as_str dep))

  -- The commit of a source that begins with `git+`: what stands behind its first `#`.
  abbrev commit_of : Option String → Option String
  commit_of none = none
  commit_of (some source) = if starts_with source "git+" then second (split b'#' source) else none

  -- The body of the loop over the packages, for the package of that name.
  unfoldable pub package_version : T.Value → Lookup
  package_version crate =
      or_plain (commit_of (text_of "source" crate)) (from_option (text_of "version" crate))
