-- ===== src/Demo/Mining/Tally.antt =====
-- examples/client_regtest.rs: the lines that the rounds of the loop log, and how many there are of
-- each kind.
use bdk_floresta.Prelude.{
  ℕ, zero, suc, ◌+◌, ◌/◌, ◌%◌, Bool, true, false, List, [], ◌∷◌, ◌++◌, ◌==◌, ◌≡◌, refl,
  if◌then◌else◌, arith,
}
use bdk_floresta.Demo.Mining.{MiningLine, to_external_address, to_internal_address, to_no_address}

abbrev pub count : (MiningLine → Bool) → List MiningLine → ℕ
count k [] = 0
count k (line ∷ lines) = (if k line then 1 else 0) + count k lines

pub count-append :
    (k : MiningLine → Bool) (xs ys : List MiningLine) → count k (xs ++ ys) ≡ count k xs + count k ys
count-append k [] ys = omega arith
count-append k (x ∷ xs) ys = omega (arith, count-append k xs ys)

abbrev pub is_external : MiningLine → Bool
is_external to_external_address = true
is_external _ = false

abbrev pub is_internal : MiningLine → Bool
is_internal to_internal_address = true
is_internal _ = false

abbrev pub is_plain : MiningLine → Bool
is_plain to_no_address = true
is_plain _ = false

-- The line of the round `i`.
abbrev pub line_of_round : ℕ → MiningLine
line_of_round i =
    if i % 5 == 0
    then to_external_address
    else if i % 3 == 0
    then to_internal_address
    else to_no_address

abbrev pub lines_of_rounds : (rounds i : ℕ) → List MiningLine
lines_of_rounds zero i = []
lines_of_rounds (suc rounds) i = line_of_round i ∷ lines_of_rounds rounds (suc i)

pub external_share :
    (rounds i : ℕ)
    → count is_external (lines_of_rounds rounds i) + (i + 4) / 5 ≡ (i + rounds + 4) / 5
external_share zero i = omega arith
external_share (suc rounds) i = ground (arith, external_share rounds (suc i))

pub internal_share :
    (rounds i : ℕ)
    → count is_internal (lines_of_rounds rounds i) + (i + 2) / 3 + (i + rounds + 14) / 15
      ≡ (i + rounds + 2) / 3 + (i + 14) / 15
internal_share zero i = omega arith
internal_share (suc rounds) i = ground (arith, internal_share rounds (suc i))

pub all_shares :
    (rounds i : ℕ)
    → count is_external (lines_of_rounds rounds i)
        + count is_internal (lines_of_rounds rounds i)
        + count is_plain (lines_of_rounds rounds i)
      ≡ rounds
all_shares zero i = refl
all_shares (suc rounds) i = ground (arith, all_shares rounds (suc i))
