-- ===== src/Examples/Writing.antt =====
-- One event that is logged, on a terminal and in a file.
use bdk_floresta.Prelude.{ℕ, String, ◌<>◌, Bool, true, false, Result, ok, ◌≡◌, refl, arith, ap}
use bdk_floresta.Builder.Platform.{info, ShortTargetFormatter}
use bdk_floresta.Builder.Logging.Format.{Event, written, format_event, short_target}
use bdk_floresta.Builder.Logging.Format.Strip.{strip, ends, level_name}
use bdk_floresta.Builder.Logging.Format.Line.{Writes, format_event-strip}

-- A writer is whether it is for a terminal, and what was written.
abbrev append : String → Bool × String → Result (Unit {0}) (Unit {0}) × (Bool × String)
append s (ansi, text) = (ok tt, (ansi, text <> s))

abbrev fields_of : Bool → String
fields_of true = "new block \u{1b}[3mheight\u{1b}[0m\u{1b}[2m=\u{1b}[0m120"
fields_of false = "new block height=120"

abbrev new_block : Event ℕ
new_block = record {
  Sink = Bool × String;
  has_ansi_escapes = λ k. k.0;
  write_fmt = append;
  format_time = λ timer. append "2026-11-26 07:06:59";
  format_fields = λ k. append (fields_of k.0) k;
  show_level = level_name;
  level = info;
  target = "floresta_chain::pruned_utreexo";
  debug_enabled = false;
}

abbrev to_the_second : ShortTargetFormatter ℕ
to_the_second = record {
  timer = record { offset = 0; description = "[year]-[month]-[day] [hour]:[minute]:[second]" };
}

abbrev new_block_writes : Writes new_block to_the_second
new_block_writes = record {
  text = λ k. k.1;
  time = "2026-11-26 07:06:59";
  fields = fields_of;
  writes = λ ansi s k a. (refl, refl, a);
  time_written = λ ansi k a. (refl, refl, a);
  fields_written = λ ansi k a. (refl, ap (λ b. k.1 <> fields_of b) a, a);
  names = refl;
}

format_event_test :
    (format_event new_block to_the_second (false, "")).1.1
    ≡ "2026-11-26 07:06:59  INFO floresta::chain: new block height=120\n"
unfolding format_event short_target written
format_event_test = refl

format_event-strip_example :
    ((format_event new_block to_the_second (true, "")).0 ≡ ok tt)
    × ((format_event new_block to_the_second (false, "")).0 ≡ ok tt)
    × (strip false (format_event new_block to_the_second (true, "")).1.1
        ≡ (format_event new_block to_the_second (false, "")).1.1)
unfolding strip ends
format_event-strip_example =
    format_event-strip new_block to_the_second new_block_writes (true, "") (false, "") refl refl
      refl refl (omega arith) (omega arith) (record { stripped = refl; complete = refl })
