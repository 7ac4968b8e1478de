-- ===== src/Agent/Toml.antt =====
-- What build.rs calls in the toml crate, and the files of the build, as one record that it takes as
-- a parameter.
use bdk_floresta.Prelude.{Bool, String, Option, none, some, List}

pub record Toml : Type 1 where
  -- the text of a file, if it can be read
  pub read_to_string : String → Option String
  pub Value : Type 0
  pub from_str : String → Option Value
  pub get : String → Value → Option Value
  pub as_str : Value → Option String
  pub as_array : Value → Option (List Value)
  pub Table : Type 0
  pub as_table : Value → Option Table
  pub contains_key : String → Table → Bool
  pub get_in : String → Table → Option Value

module _ {A C : Type 0} where
  infixl 5 ◌>>=◌
  -- `?` on an option, and `Option::and_then`.
  abbrev pub ◌>>=◌ : Option A → (A → Option C) → Option C
  none >>= f = none
  some a >>= f = f a
