-- ===== src/Examples/Agents.antt =====
-- The build script over a small manifest and lock file, and one event that is logged.
use text.Mathlib.Text.{◌==◌}
use bdk_floresta.Prelude.{
  arith, String, ◌<>◌, Bool, true, false, Option, none, some, List, [], ◌∷◌, ◌≡◌, refl, ap, ◌↔◌,
  inl, inr, if◌then◌else◌,
}
use bdk_floresta.Agent.Toml.{Toml}
use bdk_floresta.Agent.Text.{split, remove_char}
use bdk_floresta.Agent.Source.{found, dep_version, package_version, git_version}
use bdk_floresta.Agent.Search.{
  source_dependency_version, source_version_from_cargo_toml, source_version_from_cargo_lock,
  search_sections, search_packages,
}
use bdk_floresta.Agent.Search.Laws.{source_dependency_version_iff}
use bdk_floresta.Agent.Script.{user_agent, get_bdk_floresta_version, main}
use bdk_floresta.Agent.Script.RoundTrip.{read_user_agent, read-user_agent_iff, Lacks}

-- A document with arrays of two values; a table has `absent` where it has no such key.
data Doc : Type 0 where
  absent : Doc
  word : String → Doc
  pair : Doc → Doc → Doc
  table : (String → Doc) → Doc

abbrev present : Doc → Option Doc
present absent = none
present d = some d

abbrev member : String → Doc → Option Doc
member key (table t) = present (t key)
member key d = none

abbrev string_of : Doc → Option String
string_of (word s) = some s
string_of d = none

abbrev array_of : Doc → Option (List Doc)
array_of (pair a b) = some (a ∷ b ∷ [])
array_of d = none

abbrev table_of : Doc → Option (String → Doc)
table_of (table t) = some t
table_of d = none

abbrev is_present : Doc → Bool
is_present absent = false
is_present d = true

abbrev only : String → Doc → Doc
only key d = table (λ k. if k == key then d else absent)

abbrev two : String → Doc → String → Doc → Doc
two key d other e = table (λ k. if k == key then d else if k == other then e else absent)

abbrev floresta_package : Doc
floresta_package = two "name" (word "floresta") "version" (word "0.1.0")

abbrev wire_package : Doc
wire_package =
    two "name" (word "floresta-wire") "source"
      (word "git+https://github.com/getfloresta/Floresta#963afae8466e")

abbrev manifest_doc : Doc
manifest_doc = two "package" (only "version" (word "0.7.1")) "dependencies" (
    only "floresta"
      (two "git" (word "https://github.com/getfloresta/Floresta") "rev" (word "963afae8466e")))

abbrev lock_doc : Doc
lock_doc = only "package" (pair floresta_package wire_package)

abbrev repository : Toml
repository = record {
  read_to_string = λ path. some path;
  Value = Doc;
  from_str = λ s. some (if s == "Cargo.toml" then manifest_doc else lock_doc);
  get = member;
  as_str = string_of;
  as_array = array_of;
  Table = String → Doc;
  as_table = table_of;
  contains_key = λ key t. is_present (t key);
  get_in = λ key t. present (t key);
}

main_test :
    main repository
    ≡ some (
        "cargo:rustc-env=USER_AGENT=/floresta-wire:git-963afae/bdk-floresta:0.7.1/"
        ∷ "cargo:rustc-env=GIT_DESCRIBE=v0.7.1"
        ∷ "cargo:rustc-env=FLORESTA_WIRE_VERSION=git-963afae" ∷ "cargo:rerun-if-changed=.git/HEAD"
        ∷ "cargo:rerun-if-changed=build.rs" ∷ "cargo:rerun-if-changed=Cargo.toml"
        ∷ "cargo:rerun-if-changed=Cargo.lock" ∷ [])
unfolding main get_bdk_floresta_version source_dependency_version source_version_from_cargo_toml
    source_version_from_cargo_lock search_sections search_packages dep_version package_version
    git_version split remove_char user_agent
main_test = refl

source_dependency_version_iff_example :
    source_dependency_version repository "floresta-wire" ≡ found "git-963afae"
unfolding package_version git_version split
source_dependency_version_iff_example =
    (source_dependency_version_iff repository "floresta-wire" "git-963afae").1 (
      inr (
        inr (manifest_doc, refl, (refl, (refl, (refl, tt)))),
        (
          floresta_package ∷ wire_package ∷ [],
          refl,
          inr ("floresta", refl, (λ h. cc (ap (λ s. s == "floresta-wire") h)), inl (refl, refl)),
        ),
      ))

read-user_agent_iff_example :
    (read_user_agent (user_agent "git-963afae" ("v" <> "0.7.1-dev"))
      ≡ some ("git-963afae", "0.7.1-dev"))
    ↔ Lacks b'v' "0.7.1-dev"
read-user_agent_iff_example =
    read-user_agent_iff "git-963afae" "0.7.1-dev" (omega arith) (omega arith)
