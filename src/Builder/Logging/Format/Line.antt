-- ===== src/Builder/Logging/Format/Line.antt =====
-- src/logger.rs: what `format_event` writes where every write succeeds, and what of it is seen.
use Prim.Native.String.append
use text.Mathlib.TextLemmas.{append_assoc}
use bdk_floresta.Prelude.{
  Bool, true, false, String, ◌<>◌, Result, ok, err, ◌≡◌, refl, ap, ◌∙◌, sym, arith,
}
use bdk_floresta.Builder.Platform.{ShortTargetFormatter}
use bdk_floresta.Builder.Logging.Format.{
  Event, written, ansi_dim, ansi_reset, level_text, target_text, target, short_target, format_event,
}
use bdk_floresta.Builder.Logging.Format.Strip.{
  Plain, strip, Strips, Strips-append, Strips-dimmed, Plain-Strips, short_target-Plain, Plain-if,
  level_name, level_text-Strips,
}

written-ok :
    {Sink : Type 0} (r : Result (Unit {0}) (Unit {0}) × Sink)
    (f : Sink → Result (Unit {0}) (Unit {0}) × Sink)
    → r.0 ≡ ok tt
    → written r f ≡ f r.1
unfolding written
written-ok (ok _, j) f h = refl
written-ok (err e, j) f h = cc

module _ {Offset : Type 0} (E : Event Offset) where
  -- What the code relies on: the write succeeds and leaves its text behind what was written, and
  -- the writer keeps to be one for a terminal or not.
  abbrev pub Appends :
      (E.Sink → String) → Bool → (E.Sink → Result (Unit {0}) (Unit {0}) × E.Sink) → String → Type 0
  Appends text ansi m s =
      (k : E.Sink)
      → E.has_ansi_escapes k ≡ ansi
      → ((m k).0 ≡ ok tt) × (text (m k).1 ≡ text k <> s) × (E.has_ansi_escapes (m k).1 ≡ ansi)

  -- What is documented of the writer, of the time and of the fields of an event.
  pub record Writes (formatter : ShortTargetFormatter Offset) : Type 0 where
    pub text : E.Sink → String
    pub time : String
    pub fields : Bool → String
    pub writes : (ansi : Bool) (s : String) → Appends text ansi (E.write_fmt s) s
    pub time_written : (ansi : Bool) → Appends text ansi (E.format_time formatter.timer) time
    pub fields_written : (ansi : Bool) → Appends text ansi E.format_fields (fields ansi)
    pub names : E.show_level E.level ≡ level_name E.level

module _ {Offset : Type 0} (E : Event Offset) (formatter : ShortTargetFormatter Offset)
    (D : Writes E formatter) where
  then-Appends :
      (ansi : Bool) (m f : E.Sink → Result (Unit {0}) (Unit {0}) × E.Sink) (s t : String)
      → Appends E D.text ansi m s
      → Appends E D.text ansi f t
      → Appends E D.text ansi (λ k. written (m k) f) (s <> t)
  then-Appends ansi m f s t p q k a =
      let (fine, one, still) = p k a in
      let (done, two, end) = q (m k).1 still in
      rw (written-ok (m k) f fine)
        (done, two ∙ ap (λ x. x <> t) one ∙ append_assoc (D.text k) s t, end)

  -- The line of an event.
  abbrev pub line : Bool → String
  line true =
      (ansi_dim <> D.time <> ansi_reset <> " ")
      <> level_text E true
      <> target_text E true
      <> D.fields true
      <> "\n"
  line false =
      (D.time <> " ") <> level_text E false <> target_text E false <> D.fields false <> "\n"

  rest-Appends :
      (ansi : Bool)
      → Appends E D.text ansi
          (λ k. written (E.write_fmt (level_text E ansi) k) (λ k.
            written
              (E.write_fmt (target_text E ansi) k)
              (λ k. written (E.format_fields k) (E.write_fmt "\n"))))
          (level_text E ansi <> target_text E ansi <> D.fields ansi <> "\n")
  rest-Appends ansi =
      then-Appends ansi (E.write_fmt (level_text E ansi)) _ _ _ (D.writes ansi (level_text E ansi))
        (then-Appends ansi (E.write_fmt (target_text E ansi)) _ _ _
          (D.writes ansi (target_text E ansi))
          (then-Appends ansi E.format_fields (E.write_fmt "\n") _ _ (D.fields_written ansi)
            (D.writes ansi "\n")))

  line-Appends :
      (ansi : Bool) (k : E.Sink)
      → E.has_ansi_escapes k ≡ ansi
      → ((format_event E formatter k).0 ≡ ok tt)
        × (D.text (format_event E formatter k).1 ≡ D.text k <> line ansi)
  unfolding format_event
  line-Appends true k a =
      let (fine, end, _) =
        then-Appends true _ _ _ _
          (then-Appends true (E.write_fmt ansi_dim) _ _ _ (D.writes true ansi_dim) (
            then-Appends true (E.format_time formatter.timer) _ _ _ (D.time_written true)
              (D.writes true (ansi_reset <> " "))))
          (rest-Appends true) k a in
      rw a (fine, end)
  line-Appends false k a =
      let (fine, end, _) =
        then-Appends false _ _ _ _
          (then-Appends false (E.format_time formatter.timer) _ _ _ (D.time_written false)
            (D.writes false " "))
          (rest-Appends false) k a in
      rw a (fine, end)

  target-Plain : Plain E.target → Plain (target E)
  target-Plain h =
      Plain-if E.debug_enabled E.target (short_target E.target) h (short_target-Plain E.target h)

  line-Strips :
      Plain D.time
      → Plain E.target
      → Strips (D.fields true) (D.fields false)
      → Strips (line true) (line false)
  line-Strips p q f =
      let plain = target-Plain q in
      Strips-append _ _ _ _ (Strips-dimmed D.time " " p (omega arith)) (
        Strips-append _ _ _ _ (rw D.names (level_text-Strips E.level)) (
          Strips-append _ _ _ _ (Strips-dimmed (target E) ": " plain (omega arith)) (
            Strips-append (D.fields true) "\n" (D.fields false) "\n" f
              (Plain-Strips "\n" (omega arith)))))

-- For an event whose time and target have no escape character, whose fields for a terminal without
-- their ANSI escapes are its fields for a file, and for two empty writers to which every write
-- succeeds, one for a terminal and one for a file: `format_event` succeeds for both, and the
-- terminal's line without its ANSI escapes is the file's line.
pub format_event-strip :
    {Offset : Type 0} (E : Event Offset) (formatter : ShortTargetFormatter Offset)
    (D : Writes E formatter) (k c : E.Sink)
    → E.has_ansi_escapes k ≡ true
    → E.has_ansi_escapes c ≡ false
    → D.text k ≡ ""
    → D.text c ≡ ""
    → Plain D.time
    → Plain E.target
    → Strips (D.fields true) (D.fields false)
    → ((format_event E formatter k).0 ≡ ok tt)
      × ((format_event E formatter c).0 ≡ ok tt)
      × (strip false (D.text (format_event E formatter k).1)
          ≡ D.text (format_event E formatter c).1)
format_event-strip E formatter D k c a b x y p q f =
    let (fine, one) = line-Appends E formatter D true k a in
    let (good, two) = line-Appends E formatter D false c b in
    let S = line-Strips E formatter D p q f in
    let start = λ (t : String) (e : t ≡ "") (u : String). ap (λ r. r <> u) e ∙ append.nil u in
    (
      fine,
      good,
      ap (strip false) (one ∙ start (D.text k) x (line E formatter D true))
          ∙ S.stripped
          ∙ sym (two ∙ start (D.text c) y (line E formatter D false)),
    )
