-- ===== src/Builder/Logging/Format.antt =====
-- src/logger.rs: `short_target` and `format_event`, which write the line of a log event.
pub mod Line
pub mod Strip
use Prim.Native.Nat.{◌-◌}
use Prim.Native.String.{count}
use text.Mathlib.Text.{starts_with}
use bdk_floresta.Prelude.{
  ℕ, zero, suc, Bool, true, false, String, ◌<>◌, Result, ok, err, if◌then◌else◌,
}
use bdk_floresta.Builder.Platform.{
  Level, error, warn, info, debug, trace, Timer, ShortTargetFormatter,
}

-- What tracing-subscriber and tracing provide for one event: the sink behind the writer, how the
-- time and the fields are written to it, and the event's metadata.
pub record Event (Offset : Type 0) : Type 1 where
  pub Sink : Type 0
  pub has_ansi_escapes : Sink → Bool
  pub write_fmt : String → Sink → Result (Unit {0}) (Unit {0}) × Sink
  pub format_time : Timer Offset → Sink → Result (Unit {0}) (Unit {0}) × Sink
  pub format_fields : Sink → Result (Unit {0}) (Unit {0}) × Sink
  pub show_level : Level → String
  pub level : Level
  pub target : String
  pub debug_enabled : Bool

abbrev pub ansi_dim : String
ansi_dim = "\u{1b}[2m"

abbrev pub ansi_reset : String
ansi_reset = "\u{1b}[0m"

-- `COLORED_ERROR`, `COLORED_WARN`, `COLORED_INFO`, `COLORED_DEBUG` and `COLORED_TRACE`.
abbrev pub colored_level : Level → String
colored_level error = "\u{1b}[0;31mERROR\u{1b}[0m"
colored_level warn = "\u{1b}[0;33m WARN\u{1b}[0m"
colored_level info = "\u{1b}[0;32m INFO\u{1b}[0m"
colored_level debug = "\u{1b}[0;34mDEBUG\u{1b}[0m"
colored_level trace = "\u{1b}[0;35mTRACE\u{1b}[0m"

unfoldable pub short_target : String → String
short_target target =
    if starts_with target "floresta_chain"
    then "floresta::chain"
    else if starts_with target "floresta_compact_filters"
    then "floresta::compact_filters"
    else if starts_with target "floresta_mempool"
    then "floresta::mempool"
    else if starts_with target "floresta_wire"
    then "floresta::wire"
    else target

abbrev spaces : ℕ → String → String
spaces zero s = s
spaces (suc n) s = " " <> spaces n s

-- `{:>5}`.
abbrev pub pad_left : String → String
pad_left s = spaces (5 - count s) s

module _ {Sink : Type 0} where
  -- `?` after a write.
  unfoldable pub written :
      Result (Unit {0}) (Unit {0}) × Sink
      → (Sink → Result (Unit {0}) (Unit {0}) × Sink)
      → Result (Unit {0}) (Unit {0}) × Sink
  written (ok _, k) f = f k
  written (err e, k) f = (err e, k)

  infixl 5 ◌>>◌
  abbrev pub ◌>>◌ :
      (Sink → Result (Unit {0}) (Unit {0}) × Sink)
      → (Sink → Result (Unit {0}) (Unit {0}) × Sink)
      → Sink
      → Result (Unit {0}) (Unit {0}) × Sink
  ◌>>◌ m f k = written (m k) f

module _ {Offset : Type 0} (E : Event Offset) where
  abbrev Write : Type 0
  Write = E.Sink → Result (Unit {0}) (Unit {0}) × E.Sink

  -- The target: whole where events of the level `DEBUG` are enabled.
  abbrev pub target : String
  target = if E.debug_enabled then E.target else short_target E.target

  abbrev timestamp : Bool → ShortTargetFormatter Offset → Write
  timestamp true formatter = do
    E.write_fmt ansi_dim
    E.format_time formatter.timer
    E.write_fmt (ansi_reset <> " ")
  timestamp false formatter = do E.format_time formatter.timer; E.write_fmt " "

  abbrev pub level_text : Bool → String
  level_text true = colored_level E.level <> " "
  level_text false = pad_left (E.show_level E.level) <> " "

  abbrev pub target_text : Bool → String
  target_text true = ansi_dim <> target <> ansi_reset <> ": "
  target_text false = target <> ": "

  unfoldable pub format_event : ShortTargetFormatter Offset → Write
  format_event formatter k =
      let ansi = E.has_ansi_escapes k in
      (do
        timestamp ansi formatter
        E.write_fmt (level_text ansi)
        E.write_fmt (target_text ansi)
        E.format_fields
        E.write_fmt "\n")
        k
