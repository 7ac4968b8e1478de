-- ===== src/Agent/Search.antt =====
-- build.rs: the search for a dependency's version through the manifest and then the lock file.
pub mod Laws
use text.Mathlib.Text.{◌==◌}
use bdk_floresta.Prelude.{String, Option, none, some, List, [], ◌∷◌, if◌then◌else◌}
use bdk_floresta.Agent.Toml.{Toml, ◌>>=◌}
use bdk_floresta.Agent.Source.{
  Lookup, found, missing, panicked, text_of, dep_version, package_version,
}

-- The search goes on only where it found nothing.
abbrev pub or_later : Lookup → Lookup → Lookup
or_later missing later = later
or_later (found version) later = found version
or_later panicked later = panicked

abbrev pub sections : List String
sections = "dependencies" ∷ "dev-dependencies" ∷ "build-dependencies" ∷ []

abbrev pub at_name : Option String → String → Lookup → Lookup → Lookup
at_name none dep_name here later = missing
at_name (some name) dep_name here later = if name == dep_name then here else later

module _ (T : Toml) where
  abbrev pub in_entry : Option T.Value → Lookup
  in_entry none = missing
  in_entry (some dep) = dep_version T dep

  -- The entry of a dependency in a section.
  abbrev pub entry : T.Value → String → String → Option T.Value
  entry toml dep_name section = do deps ← T.get section toml; T.get dep_name deps

  -- The loop over the sections.
  unfoldable pub search_sections : T.Value → String → List String → Lookup
  search_sections toml dep_name [] = missing
  search_sections toml dep_name (section ∷ rest) =
      or_later (in_entry (entry toml dep_name section)) (search_sections toml dep_name rest)

  abbrev pub in_manifest : String → Option T.Value → Lookup
  in_manifest dep_name none = missing
  in_manifest dep_name (some toml) = search_sections toml dep_name sections

  unfoldable pub source_version_from_cargo_toml : String → Lookup
  source_version_from_cargo_toml dep_name =
      in_manifest dep_name (do manifest ← T.read_to_string "Cargo.toml"; T.from_str manifest)

  -- The loop over the packages; a package with no name ends it.
  unfoldable pub search_packages : String → List T.Value → Lookup
  search_packages dep_name [] = missing
  search_packages dep_name (crate ∷ rest) =
      let later = search_packages dep_name rest in
      at_name (text_of T "name" crate) dep_name (package_version T crate) later

  abbrev pub in_lock : String → Option (List T.Value) → Lookup
  in_lock dep_name none = missing
  in_lock dep_name (some packages) = search_packages dep_name packages

  unfoldable pub source_version_from_cargo_lock : String → Lookup
  source_version_from_cargo_lock dep_name = in_lock dep_name (do
    lock_content ← T.read_to_string "Cargo.lock"
    lock ← T.from_str lock_content
    packages ← T.get "package" lock
    T.as_array packages)

  unfoldable pub source_dependency_version : String → Lookup
  source_dependency_version dep_name =
      or_later (source_version_from_cargo_toml dep_name) (source_version_from_cargo_lock dep_name)
