-- ===== src/Agent/Text.antt =====
-- build.rs: the standard library's functions on texts that it calls. A character is given by its
-- code point.
use Prim.Native.Char.{Char, code}
use Prim.Native.String.{len}
use text.Mathlib.Text.{get?}
use bdk_floresta.Prelude.{ℕ, String, Option, none, some, List, [], ◌∷◌, min, ◌==◌, if◌then◌else◌}

abbrev pub push_front : Char → List String → List String
push_front c [] = (String.◌∷◌ c String.[]) ∷ []
push_front c (part ∷ parts) = String.◌∷◌ c part ∷ parts

-- `split(sep)`: one part more than there are separators.
unfoldable pub split : ℕ → String → List String
split sep String.[] = "" ∷ []
split sep (String.◌∷◌ c s) =
    let rest = split sep s in if code c == sep then "" ∷ rest else push_front c rest

-- `nth(1)` of an iterator.
abbrev pub second : {A : Type 0} → List A → Option A
second (_ ∷ a ∷ _) = some a
second _ = none

-- `replace(c, "")`.
unfoldable pub remove_char : ℕ → String → String
remove_char c String.[] = ""
remove_char c (String.◌∷◌ d s) =
    let rest = remove_char c s in if code d == c then rest else String.◌∷◌ d rest

-- `&text[..7.min(text.len())]`; `none` is a panic inside a character.
abbrev pub short_hash : String → Option String
short_hash text = get? text 0 (min 7 (len text))
