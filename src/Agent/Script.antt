-- ===== src/Agent/Script.antt =====
-- build.rs: `main`, which prints what cargo passes on to the compiler.
pub mod RoundTrip
use bdk_floresta.Prelude.{String, ◌<>◌, Option, none, some, List, [], ◌∷◌}
use bdk_floresta.Agent.Toml.{Toml, ◌>>=◌}
use bdk_floresta.Agent.Text.{remove_char}
use bdk_floresta.Agent.Source.{Lookup, found, missing, panicked, text_of}
use bdk_floresta.Agent.Search.{source_dependency_version}

-- The user agent in the style of Bitcoin Core.
unfoldable pub user_agent : (floresta_wire_version bdk_floresta_version : String) → String
user_agent floresta_wire_version bdk_floresta_version =
    "/floresta-wire:"
    <> floresta_wire_version
    <> "/bdk-floresta:"
    <> remove_char b'v' bdk_floresta_version
    <> "/"

-- `unwrap`; `none` is a panic.
abbrev unwrap : Lookup → Option String
unwrap (found version) = some version
unwrap missing = none
unwrap panicked = none

module _ (T : Toml) where
  -- `get_bdk_floresta_version`; an index that is missing is a panic too.
  unfoldable pub get_bdk_floresta_version : Option String
  get_bdk_floresta_version = do
    manifest ← T.read_to_string "Cargo.toml"
    toml ← T.from_str manifest
    bdk ← T.get "package" toml
    version ← text_of T "version" bdk
    some ("v" <> version)

  -- `main`: the lines that are printed, or a panic.
  unfoldable pub main : Option (List String)
  main = do
    bdk_floresta_version ← get_bdk_floresta_version
    floresta_wire_version ← unwrap (source_dependency_version T "floresta-wire")
    some (
        ("cargo:rustc-env=USER_AGENT=" <> user_agent floresta_wire_version bdk_floresta_version)
        ∷ ("cargo:rustc-env=GIT_DESCRIBE=" <> bdk_floresta_version)
        ∷ ("cargo:rustc-env=FLORESTA_WIRE_VERSION=" <> floresta_wire_version)
        ∷ "cargo:rerun-if-changed=.git/HEAD"
        ∷ "cargo:rerun-if-changed=build.rs"
        ∷ "cargo:rerun-if-changed=Cargo.toml"
        ∷ "cargo:rerun-if-changed=Cargo.lock"
        ∷ [])
