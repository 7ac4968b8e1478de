-- ===== src/Agent/Search/Laws.antt =====
-- build.rs: which version the search for a dependency finds.
use text.Mathlib.Text.{◌==◌}
use text.Mathlib.TextEquality.{eq_iff}
use mathlib.Core.Option.{some-injective}
use bdk_floresta.Prelude.{
  String, Option, none, some, List, [], ◌∷◌, ◌≡◌, refl, ◌≢◌, ◌⊎◌, inl, inr, ◌↔◌, arith, Bool-cases,
}
use bdk_floresta.Agent.Toml.{Toml, ◌>>=◌}
use bdk_floresta.Agent.Source.{Lookup, found, missing, text_of, package_version}
use bdk_floresta.Agent.Search.{
  sections, in_entry, entry, search_sections, source_version_from_cargo_toml, search_packages,
  source_version_from_cargo_lock, source_dependency_version, or_later, in_manifest, in_lock,
  at_name,
}

module _ (T : Toml) (dep_name : String) where
  abbrev in_section : T.Value → String → Lookup
  in_section toml section = in_entry T (entry T toml dep_name section)

  -- A section has the version, and those before it have none.
  abbrev pub FirstSection : T.Value → List String → String → Type 0
  FirstSection toml [] version = ⊥
  FirstSection toml (section ∷ rest) version =
      (in_section toml section ≡ found version)
      ⊎ ((in_section toml section ≡ missing) × FirstSection toml rest version)

  -- No section has a version.
  abbrev pub NoSection : T.Value → List String → Type 0
  NoSection toml [] = Unit {0}
  NoSection toml (section ∷ rest) = (in_section toml section ≡ missing) × NoSection toml rest

  -- The first package of that name has the version, and those before it have other names.
  abbrev pub FirstPackage : List T.Value → String → Type 0
  FirstPackage [] version = ⊥
  FirstPackage (crate ∷ rest) version =
      ((text_of T "name" crate ≡ some dep_name) × (package_version T crate ≡ found version))
      ⊎ ((name : String) × (text_of T "name" crate ≡ some name)
          × (name ≢ dep_name)
          × FirstPackage rest version)

  search_sections-found :
      (toml : T.Value) (l : List String) (version : String)
      → (search_sections T toml dep_name l ≡ found version) ↔ FirstSection toml l version
  unfolding search_sections
  search_sections-found toml [] version = ground arith
  search_sections-found toml (section ∷ rest) version =
      ground (arith, search_sections-found toml rest version)

  search_sections-missing :
      (toml : T.Value) (l : List String)
      → (search_sections T toml dep_name l ≡ missing) ↔ NoSection toml l
  unfolding search_sections
  search_sections-missing toml [] = ground arith
  search_sections-missing toml (section ∷ rest) = ground (arith, search_sections-missing toml rest)

  at_name-found :
      (o : Option String) (here later : Lookup) (version : String)
      → (at_name o dep_name here later ≡ found version) ↔ (
          ((o ≡ some dep_name) × (here ≡ found version))
          ⊎ ((name : String) × (o ≡ some name) × (name ≢ dep_name) × (later ≡ found version)))
  at_name-found none here later version = ground arith
  at_name-found (some name) here later version = (
    λ h. elim (Bool-cases (name == dep_name)) [
      | inl same ↦ inl (ground (arith, eq_iff name dep_name), rw same at h)
      | inr other ↦ inr (name, refl, ground (arith, eq_iff name dep_name), rw other at h)
    ],
    λ h. ground (arith, eq_iff name dep_name),
  )

  search_packages-found :
      (crates : List T.Value) (version : String)
      → (search_packages T dep_name crates ≡ found version) ↔ FirstPackage crates version
  unfolding search_packages
  search_packages-found [] version = ground arith
  search_packages-found (crate ∷ rest) version =
      let (into, back) = search_packages-found rest version in
      let (split, join) =
        at_name-found (text_of T "name" crate) (package_version T crate)
          (search_packages T dep_name rest) version in
      (
        λ h. elim (split h) [
          | inl here ↦ inl here
          | inr (name, e, other, later) ↦ inr (name, e, other, into later)
        ],
        λ h. elim h [
          | inl here ↦ join (inl here)
          | inr (name, e, other, later) ↦ join (inr (name, e, other, back later))
        ],
      )

  or_later-found :
      (first second : Lookup) (version : String)
      → (or_later first second ≡ found version)
        ↔ ((first ≡ found version) ⊎ ((first ≡ missing) × (second ≡ found version)))
  or_later-found first second version = ground arith

  in_manifest-found :
      (o : Option T.Value) (version : String)
      → (in_manifest T dep_name o ≡ found version)
        ↔ ((toml : T.Value) × (o ≡ some toml) × FirstSection toml sections version)
  in_manifest-found none version = (λ h. cc, λ h. cc (h.1))
  in_manifest-found (some toml) version =
      let (into, back) = search_sections-found toml sections version in
      (λ h. (toml, refl, into h), λ (other, e, h). back (rw (some-injective toml other e) h))

  in_manifest-missing :
      (o : Option T.Value)
      → (in_manifest T dep_name o ≡ missing)
        ↔ ((o ≡ none) ⊎ ((toml : T.Value) × (o ≡ some toml) × NoSection toml sections))
  in_manifest-missing none = (λ h. inl refl, λ h. refl)
  in_manifest-missing (some toml) =
      let (into, back) = search_sections-missing toml sections in
      (
        λ h. inr (toml, refl, into h),
        λ h. elim h [ inl e ↦ cc | inr (other, e, k) ↦ back (rw (some-injective toml other e) k) ],
      )

  in_lock-found :
      (o : Option (List T.Value)) (version : String)
      → (in_lock T dep_name o ≡ found version)
        ↔ ((crates : List T.Value) × (o ≡ some crates) × FirstPackage crates version)
  in_lock-found none version = (λ h. cc, λ h. cc (h.1))
  in_lock-found (some crates) version =
      let (into, back) = search_packages-found crates version in
      (λ h. (crates, refl, into h), λ (other, e, h). back (rw (some-injective crates other e) h))

  -- What the search through the manifest has to work on.
  abbrev pub manifest : Option T.Value
  manifest = do text ← T.read_to_string "Cargo.toml"; T.from_str text

  -- The packages of the lock file.
  abbrev pub lock_packages : Option (List T.Value)
  lock_packages = do
    text ← T.read_to_string "Cargo.lock"
    lock ← T.from_str text
    crates ← T.get "package" lock
    T.as_array crates

  -- A dependency's version is the one of the first section of the manifest that has it. If the
  -- manifest can be read and no section has it, or if it cannot be read, it is the one of the first
  -- package of that name in the lock file, which must have no package without a name before that.
  pub source_dependency_version_iff :
      (version : String)
      → (source_dependency_version T dep_name ≡ found version) ↔ (
          ((toml : T.Value) × (manifest ≡ some toml) × FirstSection toml sections version)
          ⊎ (((manifest ≡ none)
                ⊎ ((toml : T.Value) × (manifest ≡ some toml) × NoSection toml sections))
              × ((crates : List T.Value) × (lock_packages ≡ some crates)
                  × FirstPackage crates version)))
  unfolding source_dependency_version source_version_from_cargo_toml source_version_from_cargo_lock
  source_dependency_version_iff version =
      let (split, join) =
        or_later-found (in_manifest T dep_name manifest) (in_lock T dep_name lock_packages)
          version in
      let (into_found, of_found) = in_manifest-found manifest version in
      let (into_missing, of_missing) = in_manifest-missing manifest in
      let (into_lock, of_lock) = in_lock-found lock_packages version in
      (
        λ h. elim (split h) [
          | inl k ↦ inl (into_found k)
          | inr (k, l) ↦ inr (into_missing k, into_lock l)
        ],
        λ h. elim h [
          | inl k ↦ join (inl (of_found k))
          | inr (k, l) ↦ join (inr (of_missing k, of_lock l))
        ],
      )
