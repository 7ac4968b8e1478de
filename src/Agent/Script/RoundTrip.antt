-- ===== src/Agent/Script/RoundTrip.antt =====
-- build.rs: what can be read back from the user agent.
use Prim.Native.Char.{Char, code}
use Prim.Native.String.append
use Prim.Native.String.{len, slice, char_at}
use text.Mathlib.Text.{starts_with}
use text.Mathlib.TextLemmas.{append_assoc}
use text.Mathlib.TextPositions.{len-append, starts_with-append, slice-append_right}
use mathlib.Core.Option.{some-injective}
use bdk_floresta.Prelude.{
  subst, ◌↔◌, ℕ, String, ◌<>◌, Option, none, some, List, [], ◌∷◌, ◌≡◌, ◌≢◌, refl, ap, ◌∙◌, sym,
  arith, if◌then◌else◌,
}
use bdk_floresta.Agent.Text.{split, remove_char}
use bdk_floresta.Agent.Script.{user_agent}

-- The text has no such character.
abbrev pub Lacks : ℕ → String → Type 0
Lacks sep String.[] = Unit {0}
Lacks sep (String.◌∷◌ c s) = (code c ≢ sep) × Lacks sep s

split-append :
    (sep : ℕ) (part rest : String) (c : Char)
    → code c ≡ sep
    → Lacks sep part
    → split sep (part <> String.◌∷◌ c rest) ≡ part ∷ split sep rest
unfolding split
split-append sep String.[] rest c e h = rw append.nil (ground arith)
split-append sep (String.◌∷◌ d part) rest c e (n, h) =
    rw append.cons (ground (arith, split-append sep part rest c e h))

remove_char-Lacks : (c : ℕ) (s : String) → Lacks c s → remove_char c s ≡ s
unfolding remove_char
remove_char-Lacks c String.[] h = refl
remove_char-Lacks c (String.◌∷◌ d s) (n, h) = ground (arith, remove_char-Lacks c s h)

-- `strip_prefix`.
abbrev strip : String → String → Option String
strip prefix s = if starts_with s prefix then some (slice s (len prefix) (len s)) else none

strip-append : (prefix s : String) → strip prefix (prefix <> s) ≡ some s
strip-append prefix s =
    rw (starts_with-append prefix s, len-append prefix s, slice-append_right prefix s)

-- The versions that a user agent names, for a reader that splits it at its slashes.
abbrev both : Option String → Option String → Option (String × String)
both (some a) (some b) = some (a, b)
both _ _ = none

abbrev read_parts : List String → Option (String × String)
read_parts (_ ∷ a ∷ b ∷ _ ∷ []) = both (strip "floresta-wire:" a) (strip "bdk-floresta:" b)
read_parts _ = none

unfoldable pub read_user_agent : String → Option (String × String)
unfolding split
read_user_agent s = read_parts (split b'/' s)

abbrev slash : Char
slash = char_at "/" 0

abbrev letter_v : Char
letter_v = char_at "v" 0

remove_char-prefix : (v : String) → remove_char b'v' ("v" <> v) ≡ remove_char b'v' v
unfolding remove_char
remove_char-prefix v =
    ap (remove_char b'v') (append.cons letter_v "" v ∙ ap (String.◌∷◌ letter_v) (append.nil v))

-- What is removed is gone, and no other character comes in.
Lacks-remove_char : (c : ℕ) (s : String) → Lacks c (remove_char c s)
unfolding remove_char
Lacks-remove_char c String.[] = tt
Lacks-remove_char c (String.◌∷◌ d s) = ground (arith, Lacks-remove_char c s)

Lacks-remove_char_other : (c d : ℕ) (s : String) → Lacks c s → Lacks c (remove_char d s)
unfolding remove_char
Lacks-remove_char_other c d String.[] h = tt
Lacks-remove_char_other c d (String.◌∷◌ e s) (n, h) =
    ground (arith, Lacks-remove_char_other c d s h)

split_at_slash :
    (part rest : String)
    → Lacks b'/' part
    → split b'/' (part <> "/" <> rest) ≡ part ∷ split b'/' rest
split_at_slash part rest h =
    ap (λ t. split b'/' (part <> t))
      (append.cons slash "" rest ∙ ap (String.◌∷◌ slash) (append.nil rest))
    ∙ split-append b'/' part rest slash refl h

Lacks-append : (c : ℕ) (s t : String) → Lacks c s → Lacks c t → Lacks c (s <> t)
Lacks-append c String.[] t h k = rw append.nil k
Lacks-append c (String.◌∷◌ d s) t (n, h) k = rw append.cons (n, Lacks-append c s t h k)

split-user_agent :
    (w v : String)
    → Lacks b'/' w
    → Lacks b'/' v
    → split b'/' ("/floresta-wire:" <> w <> "/bdk-floresta:" <> v <> "/")
      ≡ "" ∷ ("floresta-wire:" <> w) ∷ ("bdk-floresta:" <> v) ∷ "" ∷ []
unfolding split
split-user_agent w v hw hv =
    let last = v <> "/" in
    let middle = "/bdk-floresta:" <> last in
    let wire = "floresta-wire:" <> w in
    let bdk = "bdk-floresta:" <> v in
    let first : "/floresta-wire:" <> w <> middle ≡ "" <> "/" <> wire <> middle =
      append_assoc "/" "floresta-wire:" (w <> middle)
      ∙ ap (λ t. "/" <> t) (sym (append_assoc "floresta-wire:" w middle))
      ∙ sym (append.nil _) in
    let second : middle ≡ "/" <> bdk <> "/" <> "" =
      append_assoc "/" "bdk-floresta:" last
      ∙ ap (λ t. "/" <> t) (sym (append_assoc "bdk-floresta:" v "/")) in
    ap (split b'/') first
    ∙ split_at_slash "" (wire <> middle) tt
    ∙ ap (λ t. "" ∷ split b'/' (wire <> t)) second
    ∙ ap (◌∷◌ "") (
        split_at_slash wire (bdk <> "/" <> "")
          (Lacks-append b'/' "floresta-wire:" w (omega arith) hw))
    ∙ ap (λ t. "" ∷ wire ∷ t)
        (split_at_slash bdk "" (Lacks-append b'/' "bdk-floresta:" v (omega arith) hv))

read-user_agent :
    (w v : String)
    → Lacks b'/' w
    → Lacks b'/' v
    → read_user_agent (user_agent w ("v" <> v)) ≡ some (w, remove_char b'v' v)
unfolding read_user_agent user_agent
read-user_agent w v hw hv =
    let shown = remove_char b'v' v in
    let hs : Lacks b'/' shown = Lacks-remove_char_other b'/' b'v' v hv in
    rw (
      remove_char-prefix v,
      split-user_agent w shown hw hs,
      strip-append "floresta-wire:" w,
      strip-append "bdk-floresta:" shown,
    )

-- If neither version has a slash, both can be read back from the user agent exactly if the crate's
-- version has no letter `v`: every `v` in it is dropped, not only the one that was put in front.
pub read-user_agent_iff :
    (floresta_wire_version bdk_floresta_version : String)
    → Lacks b'/' floresta_wire_version
    → Lacks b'/' bdk_floresta_version
    → (read_user_agent (user_agent floresta_wire_version ("v" <> bdk_floresta_version))
        ≡ some (floresta_wire_version, bdk_floresta_version))
      ↔ Lacks b'v' bdk_floresta_version
read-user_agent_iff w v hw hv = (
  λ h.
      let same =
        some-injective (w, remove_char b'v' v) (w, v) (sym (read-user_agent w v hw hv) ∙ h) in
      subst (Lacks b'v') (ap (λ p. p.1) same) (Lacks-remove_char b'v' v),
  λ h. read-user_agent w v hw hv ∙ ap (λ t. some (w, t)) (remove_char-Lacks b'v' v h),
)
