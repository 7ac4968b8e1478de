-- ===== src/Builder/Logging.antt =====
-- src/logger.rs: `Logger::default`, `Logger::init` and `ShortTargetFormatter::new`. The closures
-- are called where they stand: the file first, then the filter of the registry.
pub mod Guard
pub mod Format
use bdk_floresta.Prelude.{Bool, true, false, String, Option, none, some, if◌then◌else◌}
use bdk_floresta.Node.Backend.{Backend}
use bdk_floresta.Builder.Platform.{Platform, Level, info, debug, trace, ShortTargetFormatter}
use bdk_floresta.Builder.Types.{
  BuilderError, logger_setup, logger_already_setup, Logger, Make, ◌>>=◌, make, infallible, attempt,
}

abbrev pub log_file_default : String
log_file_default = "debug.log"

module _ {B : Backend} (P : Platform B) where
  -- `Logger::default`.
  abbrev pub default : Logger P
  default = record { log_level = info; log_to_stdout = true; log_file = none }

  abbrev create_parent : Option String → Make P (Unit {0})
  create_parent none = make tt
  create_parent (some parent) = attempt logger_setup (P.create_dir_all parent)

  abbrev or_else : Option String → String → String
  or_else none text = text
  or_else (some text) _ = text

  -- The closure over the log file.
  unfoldable pub open_log_file : String → Make P (P.Writer × P.WorkerGuard)
  open_log_file log_file = do
    _ ← create_parent (P.parent log_file)
    _ ← attempt logger_setup (P.open_append log_file)
    infallible (
        P.file_writer (or_else (P.parent log_file) ".")
          (or_else (P.file_name log_file) log_file_default))

  unfoldable pub log_file_layer : Option String → Make P (Option (P.Writer × P.WorkerGuard))
  log_file_layer none = make none
  log_file_layer (some log_file) = do opened ← open_log_file log_file; make (some opened)

  abbrev make_filter : Level → B.World → P.Filter
  make_filter level w = elim (P.filter_from_env w) [
    | none ↦ P.filter_of_level level
    | some filter ↦ filter
  ]

  abbrev local_or_utc : Option P.Offset → P.Offset
  local_or_utc none = P.utc
  local_or_utc (some offset) = offset

  -- `level >= Level::DEBUG`: tracing orders its levels by how much they let through.
  abbrev pub is_verbose : Level → Bool
  is_verbose debug = true
  is_verbose trace = true
  is_verbose _ = false

  -- `ShortTargetFormatter::new`.
  unfoldable pub formatter : Level → B.World → ShortTargetFormatter P.Offset
  formatter level w = record {
    timer = record {
      offset = local_or_utc (P.current_local_offset w);
      description =
          if is_verbose level
          then "[year]-[month]-[day] [hour]:[minute]:[second].[subsecond digits:3]"
          else "[year]-[month]-[day] [hour]:[minute]:[second]";
    };
  }

  -- `ShortTargetFormatter::default`.
  unfoldable pub default_formatter : B.World → ShortTargetFormatter P.Offset
  default_formatter w = record {
    timer = record {
      offset = local_or_utc (P.current_local_offset w);
      description = "[year]-[month]-[day] [hour]:[minute]:[second]";
    };
  }

  abbrev file_layer :
      Level
      → Option (P.Writer × P.WorkerGuard)
      → B.World
      → Option (P.Writer × ShortTargetFormatter P.Offset)
  file_layer level none w = none
  file_layer level (some (writer, _)) w = some (writer, formatter level w)

  abbrev guard_of : Option (P.Writer × P.WorkerGuard) → Option P.WorkerGuard
  guard_of none = none
  guard_of (some (_, guard)) = some guard

  abbrev pub stdout_layer : Logger P → B.World → Option (Bool × ShortTargetFormatter P.Offset)
  stdout_layer logger w =
      if logger.log_to_stdout
      then some (P.stdout_is_terminal w, formatter logger.log_level w)
      else none

  abbrev already_setup : Unit {0} → BuilderError P
  already_setup _ = logger_already_setup

  -- The registration of the subscriber; a guard goes out only if it succeeds.
  unfoldable pub register :
      Logger P
      → Option (Bool × ShortTargetFormatter P.Offset)
      → Option (P.Writer × P.WorkerGuard)
      → Make P (Option P.WorkerGuard)
  unfolding formatter
  register logger stdout opened w =
      (do
        _ ← attempt already_setup (
            P.try_init (make_filter logger.log_level w) stdout
              (file_layer logger.log_level opened w))
        make (guard_of opened))
        w

  unfoldable pub init : Logger P → Make P (Option P.WorkerGuard)
  unfolding formatter
  init logger w =
      let stdout = stdout_layer logger w in
      (do opened ← log_file_layer logger.log_file; register logger stdout opened) w
