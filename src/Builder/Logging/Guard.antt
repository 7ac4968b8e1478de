-- ===== src/Builder/Logging/Guard.antt =====
-- src/logger.rs: what `Logger::init` returns.
use bdk_floresta.Prelude.{none, ok, err, ◌≡◌, ◌≢◌, ◌↔◌, ◌⊎◌, Option, arith}
use bdk_floresta.Node.Backend.{Backend}
use bdk_floresta.Builder.Platform.{Platform}
use bdk_floresta.Builder.Types.{BuilderError, logger_setup, logger_already_setup, Logger, proceed}
use bdk_floresta.Builder.Logging.{open_log_file, log_file_layer, register, init}

module _ {B : Backend} (P : Platform B) where
  -- An initialisation that succeeds returns a guard exactly if the logger has a log file.
  pub init-guard :
      (logger : Logger P) (w w' : B.World) (guard : Option P.WorkerGuard)
      → init P logger w ≡ (ok guard, w')
      → (guard ≡ none) ↔ (logger.log_file ≡ none)
  unfolding init log_file_layer open_log_file register proceed
  init-guard logger w w' guard h = ground arith

  -- An initialisation fails because a subscriber is registered already, or, if the logger has a log
  -- file, with an input or output error; it fails in no other way.
  pub init-error :
      (logger : Logger P) (w w' : B.World) (e : BuilderError P)
      → init P logger w ≡ (err e, w')
      → (e ≡ logger_already_setup)
        ⊎ ((io : B.IoError) × (e ≡ logger_setup io) × (logger.log_file ≢ none))
  unfolding init log_file_layer open_log_file register proceed
  init-error logger w w' e h = ground arith
