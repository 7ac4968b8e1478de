-- ===== src/Demo/Consumer.antt =====
-- examples/client_regtest.rs and examples/client_signet.rs: the task that applies a scan's events
-- to the wallet.
pub mod Follow
use bdk_floresta.Prelude.{ℕ, String, List, [], ◌∷◌, ◌++◌, Result, ok, err}
use bdk_floresta.Node.Backend.{Backend}
use bdk_floresta.Client.Types.{ScanEvent, Update, wallet_update, finished, error}
use bdk_floresta.Client.Wallet.{WalletLib}

-- `bdk_wallet::WalletEvent`, the two that the programs write.
pub data WalletEvent (B : Backend) : Type 0 where
  chain_tip_changed : (height : ℕ) (hash : B.Hash) → WalletEvent B
  tx_confirmed : (txid : B.Txid) (height : ℕ) → WalletEvent B
  other_event : WalletEvent B

-- What bdk_wallet does with an update.
pub record App {B : Backend} (W : WalletLib B) : Type 1 where
  pub ApplyError : Type 0
  pub apply_update_events :
      Update W → W.Wallet → Result ApplyError (List (WalletEvent B)) × W.Wallet
  pub total_balance : W.Wallet → ℕ

-- What is logged.
pub data Line (B : Backend) (E : Type 0) : Type 0 where
  new_checkpoint : (height : ℕ) (hash : B.Hash) → Line B E
  confirmed : (txid : B.Txid) (height balance : ℕ) → Line B E
  failed_to_apply : E → Line B E
  scanned_up_to_tip : Line B E
  scan_error : String → Line B E

module _ {B : Backend} {W : WalletLib B} (A : App W) where
  -- The wallet behind its lock, and the lines logged so far.
  pub record Consumer : Type 0 where
    pub wallet : W.Wallet
    pub lines : List (Line B A.ApplyError)

  abbrev describe : W.Wallet → List (WalletEvent B) → List (Line B A.ApplyError)
  describe wallet [] = []
  describe wallet (chain_tip_changed height hash ∷ events) =
      new_checkpoint height hash ∷ describe wallet events
  describe wallet (tx_confirmed txid height ∷ events) =
      confirmed txid height (A.total_balance wallet) ∷ describe wallet events
  describe wallet (other_event ∷ events) = describe wallet events

  abbrev pub log : List (Line B A.ApplyError) → Consumer → Consumer
  log lines k = record k { lines = k.lines ++ lines }

  abbrev pub applied : Result A.ApplyError (List (WalletEvent B)) × W.Wallet → Consumer → Consumer
  applied (ok events, wallet) k = log (describe wallet events) (record k { wallet = wallet })
  applied (err e, wallet) k = log (failed_to_apply e ∷ []) (record k { wallet = wallet })

  -- The loop over the events that the channel holds until it is closed; an error of the scan ends
  -- it.
  unfoldable pub consume : List (ScanEvent W) → Consumer → Consumer
  consume [] k = k
  consume (wallet_update update ∷ events) k =
      consume events (applied (A.apply_update_events update k.wallet) k)
  consume (finished _ ∷ events) k = consume events (log (scanned_up_to_tip ∷ []) k)
  consume (error e ∷ events) k = log (scan_error e ∷ []) k
