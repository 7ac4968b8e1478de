-- ===== src/Examples/Farther.antt =====
-- A full scan of the toy chain whose matched blocks touch script pubkeys beyond the lookahead of
-- the wallet.
use bdk_floresta.Prelude.{
  ℕ, zero, suc, ◌+◌, ◌*◌, ◌<◌, true, none, some, List, [], ◌∷◌, ◌≡◌, refl, sym, ◌∙◌, ap, arith, leb,
  length, Bool-cases, inl, inr,
}
use bdk_floresta.Client.{Client, full_scan}
use bdk_floresta.Client.Wallet.{WalletLib, external, internal}
use bdk_floresta.Client.Monad.{done}
use bdk_floresta.Client.Scan.{derive_for}
use bdk_floresta.Client.Scan.Served.{Healthy}
use bdk_floresta.Client.Spks.{derive_spks_with_custom_lookahead, take_spks}
use bdk_floresta.Client.Spks.Coverage.{nth_spk}
use bdk_floresta.Client.Run.{scan}
use bdk_floresta.Client.Run.Lookahead.{Kept, Indexed, lookahead_not_applied}
use bdk_floresta.Client.Create.{client_of}
use bdk_floresta.Examples.Fixture.{crates, library, ready}
use bdk_floresta.Examples.Serving.{join_all-ok}

-- Block `b` pays to the script pubkey `10 * b` of the external keychain.
abbrev selective : WalletLib crates
selective = record library {
  changes_nothing = λ changes. changes;
  apply_block_relevant = λ block height g. (leb (4 + g.0) (10 * block), (g.0, g.1 + 1));
}

nth_spk_lem : (i n : ℕ) → nth_spk selective i n ≡ some (n + i)
unfolding nth_spk
nth_spk_lem zero n = ap some (omega arith)
nth_spk_lem (suc i) n = nth_spk_lem i (n + 1) ∙ ap some (omega arith)

pays_inside : (block index : ℕ) → 10 * block < 4 + index → Kept selective index (100 + 10 * block)
pays_inside block index h =
    (external, 100, refl, (10 * block, omega arith, nth_spk_lem (10 * block) 100))

recognises :
    (block index : ℕ)
    → ((spk : ℕ) → spk ≡ 100 + 10 * block → ¬ Kept selective index spk)
    → leb (4 + index) (10 * block) ≡ true
recognises block index h = elim (Bool-cases (leb (4 + index) (10 * block))) [
  | inl beyond ↦ beyond
  | inr inside ↦
      absurd (h (100 + 10 * block) refl (pays_inside block index (ground (arith, inside))))
]

abbrev indexed : Indexed selective
indexed = record {
  Touches = λ block spk. spk ≡ 100 + 10 * block;
  irrelevant = λ block height g. recognises block g.0;
  no_change = λ block height g h. refl;
}

abbrev serving : Healthy selective
serving = record {
  tip = 10;
  matches = λ spks start stop. 7 ∷ 9 ∷ [];
  block_of = λ hash. hash;
  height_of = λ hash. hash;
  hash_at = λ height. height;
  filters_known = λ w. refl;
  matches_known = λ spks start stop w. refl;
  block_known = λ hash w. refl;
  height_known = λ hash w. refl;
  hash_known = λ height w. refl;
  joined = λ bs w. join_all-ok bs;
  stays_operational = λ w. refl;
  stays_open = λ w. refl;
  uncancelled = λ w. refl;
  not_in_flight = λ w. refl;
}

abbrev scanner : Client selective
scanner = client_of selective ready 1

abbrev thousand_spks : List ℕ
thousand_spks = take_spks selective 1003 100

all_derived : (derive_for (full_scan none) scanner).0 ≡ done thousand_spks
unfolding derive_for derive_spks_with_custom_lookahead take_spks
all_derived = refl

out_of_reach :
    (block : ℕ) → 2 < block → (spk : ℕ) → spk ≡ 100 + 10 * block → ¬ Kept selective 25 spk
out_of_reach block far spk e (external, iter, here, (i, low, at)) =
    let from_100 : 100 ≡ iter = cc in
    let same : some (100 + i) ≡ some (100 + 10 * block) =
      sym (nth_spk_lem i 100) ∙ ap (nth_spk selective i) from_100 ∙ at ∙ ap some e in
    ground arith
out_of_reach block far spk e (internal, iter, here, inside) = cc

lookahead_not_applied_example :
    ((scan [] (full_scan none) scanner).0 ≡ done tt)
    × ((scan [] (full_scan none) scanner).1.checkpoint ≡ 10)
    × (length (scan [] (full_scan none) scanner).1.sent ≡ 2)
lookahead_not_applied_example =
    lookahead_not_applied selective indexed serving [] (full_scan none) thousand_spks scanner
      all_derived (omega arith) (refl, refl, refl)
      (out_of_reach 7 (omega arith), (out_of_reach 9 (omega arith), tt))
