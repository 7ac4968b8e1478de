-- ===== src/Examples/Gaps.antt =====
-- A continuous scan of the toy chain that misses a block which was validated before it began.
use bdk_floresta.Prelude.{ℕ, ◌≤◌, ◌<◌, [], ◌∷◌, refl, arith}
use bdk_floresta.Client.{Client, custom}
use bdk_floresta.Client.Forward.{on_block}
use bdk_floresta.Client.Run.{scan_continuous}
use bdk_floresta.Client.Run.Watch.{all_received}
use bdk_floresta.Client.Run.Gap.{gap_passed_over}
use bdk_floresta.Client.Run.Gap.Quiet.{NoneAt}
use bdk_floresta.Examples.Fixture.{library, client}
use bdk_floresta.Examples.Scans.{insert_above}
use bdk_floresta.Examples.Serving.{healthy, spks, derived}

insert_below : (h hash cp : ℕ) → h ≤ cp → library.height (library.insert_block h hash cp) ≤ cp
insert_below h hash cp l = omega arith

-- The client after the chain has validated a block that no sink forwards.
abbrev after_missed : Client library
after_missed = record client { forwarding = on_block 11 11 client.forwarding }

gap_passed_over_example :
    (11
      < (scan_continuous [] (custom 0 5) (all_received ((12, 12) ∷ [])) after_missed).1.checkpoint)
    × NoneAt library 11
        (scan_continuous [] (custom 0 5) (all_received ((12, 12) ∷ [])) after_missed).1.sent
gap_passed_over_example =
    gap_passed_over library insert_above insert_below healthy [] (custom 0 5) 11 12 12 [] spks
      client derived (omega arith) (refl, refl, refl) (λ h. cc) (omega arith) tt
      (omega arith, (omega arith, tt)) (omega arith, tt)
