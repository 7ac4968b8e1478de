-- ===== src/Builder/Logging/Format/Strip.antt =====
-- src/logger.rs: the line for a terminal and the line for a file.
use Prim.Native.Char.{code}
use Prim.Native.String.append
use text.Mathlib.Text.{starts_with}
use bdk_floresta.Prelude.{
  ℕ, Bool, true, false, String, ◌<>◌, ◌≡◌, ◌≢◌, refl, ap, ◌∙◌, sym, arith, ◌==◌, Bool-cases, inl,
  inr, if◌then◌else◌,
}
use bdk_floresta.Builder.Platform.{Level, error, warn, info, debug, trace}
use bdk_floresta.Builder.Logging.Format.{
  ansi_dim, ansi_reset, colored_level, pad_left, short_target,
}

-- The escape character.
abbrev pub escape : ℕ
escape = 27

-- A text without its ANSI escapes, each of which goes on to the next letter `m`; the flag is set
-- within one.
unfoldable pub strip : Bool → String → String
strip inside String.[] = ""
strip true (String.◌∷◌ c s) = strip (if code c == b'm' then false else true) s
strip false (String.◌∷◌ c s) =
    let within = strip true s in
    let rest = strip false s in if code c == escape then within else String.◌∷◌ c rest

-- Whether the text ends within an escape.
unfoldable pub ends : Bool → String → Bool
ends inside String.[] = inside
ends true (String.◌∷◌ c s) = ends (if code c == b'm' then false else true) s
ends false (String.◌∷◌ c s) = ends (if code c == escape then true else false) s

-- The text has no escape.
abbrev pub Plain : String → Type 0
Plain String.[] = Unit {0}
Plain (String.◌∷◌ c s) = (code c ≢ escape) × Plain s

strip-append :
    (inside : Bool) (s t : String)
    → strip inside (s <> t) ≡ strip inside s <> strip (ends inside s) t
unfolding strip ends
strip-append inside String.[] t = ap (strip inside) (append.nil t) ∙ sym (append.nil _)
strip-append true (String.◌∷◌ c s) t =
    ap (strip true) (append.cons c s t) ∙ strip-append (if code c == b'm' then false else true) s t
strip-append false (String.◌∷◌ c s) t =
    ap (strip false) (append.cons c s t) ∙ elim (Bool-cases (code c == escape)) [
      | inl e ↦ rw e (strip-append true s t)
      | inr e ↦ rw e (ap (String.◌∷◌ c) (strip-append false s t) ∙ sym (append.cons c _ _))
    ]

ends-append : (inside : Bool) (s t : String) → ends inside (s <> t) ≡ ends (ends inside s) t
unfolding ends
ends-append inside String.[] t = ap (ends inside) (append.nil t)
ends-append true (String.◌∷◌ c s) t =
    ap (ends true) (append.cons c s t) ∙ ends-append (if code c == b'm' then false else true) s t
ends-append false (String.◌∷◌ c s) t =
    ap (ends false) (append.cons c s t) ∙ ends-append (if code c == escape then true else false) s t

strip-Plain : (s : String) → Plain s → strip false s ≡ s
unfolding strip
strip-Plain String.[] h = refl
strip-Plain (String.◌∷◌ c s) (n, h) = ground (arith, strip-Plain s h)

ends-Plain : (s : String) → Plain s → ends false s ≡ false
unfolding ends
ends-Plain String.[] h = refl
ends-Plain (String.◌∷◌ c s) (n, h) = ground (arith, ends-Plain s h)

-- `shown` is `s` without its escapes, all of which end in it.
pub record Strips (s shown : String) : Type 0 where
  pub stripped : strip false s ≡ shown
  pub complete : ends false s ≡ false

pub Plain-Strips : (s : String) → Plain s → Strips s s
Plain-Strips s h = record { stripped = strip-Plain s h; complete = ends-Plain s h }

pub Strips-append : (s t a b : String) → Strips s a → Strips t b → Strips (s <> t) (a <> b)
Strips-append s t a b p q = record {
  stripped = strip-append false s t ∙ rw (p.complete, p.stripped, q.stripped);
  complete = ends-append false s t ∙ rw (p.complete, q.complete);
}

pub Strips-hide :
    (e t b : String) → strip false e ≡ "" → ends false e ≡ false → Strips t b → Strips (e <> t) b
Strips-hide e t b none_left over q = record {
  stripped = strip-append false e t ∙ rw (none_left, over, q.stripped) (append.nil b);
  complete = ends-append false e t ∙ rw (over, q.complete);
}

-- An escape, a text, an escape and a text: only the two texts are shown.
pub Strips-dimmed :
    (s t : String) → Plain s → Plain t → Strips (ansi_dim <> s <> ansi_reset <> t) (s <> t)
unfolding strip ends
Strips-dimmed s t h k = Strips-hide ansi_dim (s <> ansi_reset <> t) (s <> t) refl refl (
    Strips-append s (ansi_reset <> t) s t (Plain-Strips s h)
      (Strips-hide ansi_reset t t refl refl (Plain-Strips t k)))

-- tracing's names of the levels.
abbrev pub level_name : Level → String
level_name error = "ERROR"
level_name warn = "WARN"
level_name info = "INFO"
level_name debug = "DEBUG"
level_name trace = "TRACE"

pub level_text-Strips :
    (l : Level) → Strips (colored_level l <> " ") (pad_left (level_name l) <> " ")
unfolding strip ends
level_text-Strips error = record { stripped = refl; complete = refl }
level_text-Strips warn = record { stripped = refl; complete = refl }
level_text-Strips info = record { stripped = refl; complete = refl }
level_text-Strips debug = record { stripped = refl; complete = refl }
level_text-Strips trace = record { stripped = refl; complete = refl }

pub Plain-if : (b : Bool) (s t : String) → Plain s → Plain t → Plain (if b then s else t)
Plain-if true s t h k = h
Plain-if false s t h k = k

pub short_target-Plain : (s : String) → Plain s → Plain (short_target s)
unfolding short_target
short_target-Plain s h =
    let wire = if starts_with s "floresta_wire" then "floresta::wire" else s in
    let mempool = if starts_with s "floresta_mempool" then "floresta::mempool" else wire in
    let filters =
      if starts_with s "floresta_compact_filters" then "floresta::compact_filters" else mempool in
    Plain-if (starts_with s "floresta_chain") "floresta::chain" filters (omega arith) (
      Plain-if (starts_with s "floresta_compact_filters") "floresta::compact_filters" mempool
        (omega arith)
        (Plain-if (starts_with s "floresta_mempool") "floresta::mempool" wire (omega arith)
          (Plain-if (starts_with s "floresta_wire") "floresta::wire" s (omega arith) h)))
