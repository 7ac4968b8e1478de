-- ===== src/Builder/Types.antt =====
-- src/node/error.rs: `BuilderError`. src/logger.rs: `Logger`. src/node/builder.rs: `Builder`.
use bdk_floresta.Prelude.{Bool, String, ◌<>◌, Option, none, some, Result, ok, err}
use bdk_floresta.Node.{NodeConfig}
use bdk_floresta.Node.Backend.{Backend}
use bdk_floresta.Builder.Platform.{Platform, Level}

module _ {B : Backend} where
  pub data BuilderError (P : Platform B) : Type 0 where
    create_directory : B.IoError → BuilderError P
    chain_state : B.ChainError → BuilderError P
    chain_store_init : P.StoreError → BuilderError P
    compact_block_filter : B.FilterError → BuilderError P
    build_inner : P.WireError → BuilderError P
    logger_setup : B.IoError → BuilderError P
    logger_already_setup : BuilderError P

  unfoldable pub show_builder_error : {P : Platform B} → BuilderError P → String
  show_builder_error (create_directory e) =
      "Failed to create the data directory: " <> B.show_io_error e
  show_builder_error (chain_state e) = "Failed to create a chainstate: " <> B.show_chain_error e
  show_builder_error {P} (chain_store_init e) =
      "Failed to load or create a new chain store: " <> P.show_store_error e
  show_builder_error (compact_block_filter e) =
      "Compact Block Filter error: " <> B.show_filter_error e
  show_builder_error {P} (build_inner e) = "Failed to build the inner node: " <> P.show_wire_error e
  show_builder_error (logger_setup e) =
      "Failed to setup the tracing subscriber logger: " <> B.show_io_error e
  show_builder_error logger_already_setup = "A tracing subscriber logger is already initialized"

  -- `source` of `BuilderError`.
  unfoldable pub builder_error_source : {P : Platform B} → BuilderError P → Option B.IoError
  builder_error_source (create_directory e) = some e
  builder_error_source (logger_setup e) = some e
  builder_error_source _ = none

  pub record Logger (P : Platform B) : Type 0 where
    pub log_level : Level
    pub log_to_stdout : Bool
    pub log_file : Option String

  pub record Builder (P : Platform B) : Type 0 where
    pub config : NodeConfig B
    pub logger : Option (Logger P)

  -- A part of a build: it reads and changes the world, and may fail.
  abbrev pub Make : Platform B → Type 0 → Type 0
  Make P A = B.World → Result (BuilderError P) A × B.World

module _ {B : Backend} {P : Platform B} {A C : Type 0} where
  -- `?` after a part.
  unfoldable pub proceed :
      Result (BuilderError P) A × B.World
      → (A → B.World → Result (BuilderError P) C × B.World)
      → Result (BuilderError P) C × B.World
  proceed (ok a, w) f = f a w
  proceed (err e, w) f = (err e, w)

  infixl 5 ◌>>=◌
  abbrev pub ◌>>=◌ :
      (B.World → Result (BuilderError P) A × B.World)
      → (A → B.World → Result (BuilderError P) C × B.World)
      → B.World
      → Result (BuilderError P) C × B.World
  ◌>>=◌ m f w = proceed (m w) f

module _ {B : Backend} {P : Platform B} {A : Type 0} where
  abbrev pub make : A → B.World → Result (BuilderError P) A × B.World
  make a w = (ok a, w)

  abbrev pub infallible : (B.World → A × B.World) → B.World → Result (BuilderError P) A × B.World
  infallible f w = let (a, w') = f w in (ok a, w')

module _ {B : Backend} {P : Platform B} {E A : Type 0} where
  -- A call of another crate with its error through `map_err`.
  abbrev pub attempt :
      (E → BuilderError P)
      → (B.World → Result E A × B.World)
      → B.World
      → Result (BuilderError P) A × B.World
  attempt f g w = let (r, w') = g w in (elim r [ ok a ↦ ok a | err e ↦ err (f e) ], w')
