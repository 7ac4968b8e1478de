-- ===== src/Agent/Source/Hash.antt =====
-- build.rs: the short commit hash of a git dependency.
use Prim.Native.Char.{Char, code, len_utf8, len_utf8_def}
use Prim.Native.Nat.{compare}
use Prim.Native.String.slice as slices
use Prim.Native.String.len as lens
use Prim.Native.String.{len, slice, fits}
use text.Mathlib.TextBridge.{IsPrefix}
use text.Mathlib.TextEquality.{slice-prefix}
use text.Mathlib.TextPositions.{slice-zero-zero}
use bdk_floresta.Prelude.{ℕ, zero, suc, ◌-◌, ◌≤◌, ◌<◌, String, ◌<>◌, ◌≡◌, ap, ◌∙◌, arith, min}
use bdk_floresta.Agent.Source.{found, git_version}

-- All characters are ASCII.
abbrev pub Ascii : String → Type 0
Ascii String.[] = Unit {0}
Ascii (String.◌∷◌ c s) = (code c < 128) × Ascii s

Ascii-width : (c : Char) → code c < 128 → len_utf8 c ≡ 1
Ascii-width c h = len_utf8_def c ∙ ground arith

slice_narrow :
    (c : Char) (s : String) (w k : ℕ)
    → w ≡ 1
    → fits (compare w (suc k)) c (slice s 0 (suc k - w)) ≡ String.◌∷◌ c (slice s 0 k)
slice_narrow c s w k e = rw e (ground arith)

len-slice : (s : String) (k : ℕ) → Ascii s → k ≤ len s → len (slice s 0 k) ≡ k
len-slice String.[] k a h = ap len (slices.nil 0 k) ∙ lens.nil ∙ omega arith
len-slice (String.◌∷◌ c s) zero a h = ap len (slice-zero-zero _) ∙ lens.nil
len-slice (String.◌∷◌ c s) (suc k) (a, b) h =
    let w = Ascii-width c a in
    let room : k ≤ len s = omega (arith, lens.cons c s, w) in
    ap len (slices.cons-zero c s (suc k) ∙ slice_narrow c s (len_utf8 c) k w)
    ∙ lens.cons c (slice s 0 k)
    ∙ omega (arith, w, len-slice s k b room)

-- The version of a git dependency with an ASCII revision is found, with no panic: `git-` and the
-- longest beginning of the revision that has at most seven characters.
pub git_version-Ascii :
    (rev : String)
    → Ascii rev
    → (hash : String) × (git_version rev ≡ found ("git-" <> hash))
      × IsPrefix hash rev
      × (len hash ≡ min 7 (len rev))
unfolding git_version
git_version-Ascii rev a =
    let k = min 7 (len rev) in
    let whole = len-slice rev k a (omega arith) in
    (
      slice rev 0 k,
      ground (arith, whole, len-slice rev 0 a (omega arith)),
      slice-prefix rev k,
      whole,
    )
