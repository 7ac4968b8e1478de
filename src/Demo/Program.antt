-- ===== src/Demo/Program.antt =====
-- examples/client_regtest.rs and examples/client_signet.rs: what both programs are made of. A
-- program is a chain of calls, each of which may fail, wait, or change what the chain runs on: the
-- world outside, and later the node.
use bdk_floresta.Prelude.{Bool, String, Result, ok, err, List, ◌≡◌, refl, arith}
use bdk_floresta.Fsm.{active}
use bdk_floresta.Node.{Node, NodeError}
use bdk_floresta.Node.Backend.{Backend}
use bdk_floresta.Node.Lifecycle.Start.{start}
use bdk_floresta.Node.Lifecycle.Calls.{run}
use bdk_floresta.Builder.Platform.{Platform}
use bdk_floresta.Builder.{BuilderError}
use bdk_floresta.Client.Types.{ClientError}
use bdk_floresta.Client.Wallet.{WalletLib, KeychainKind}
use bdk_floresta.Client.Monad.{Outcome, done, failed, pending}
use bdk_floresta.Client.Run.{StateWake, BlockWake}

-- What the programs call in bdk_wallet before their scan, and the setting of a variable of the
-- environment.
pub record Setup {B : Backend} (W : WalletLib B) : Type 1 where
  pub set_var : String → String → B.World → B.World
  pub CreateError : Type 0
  -- `Wallet::create` of two descriptors, with the network, and `create_wallet_no_persist`
  pub create_wallet : String → String → B.Network → Result CreateError W.Wallet
  pub Address : Type 0
  pub reveal_next_address : KeychainKind → W.Wallet → Address × W.Wallet

-- What `anyhow::Error` holds in `main`, and a panic, which ends it too. The errors of the other
-- processes are of the type `F`.
pub data MainError {B : Backend} {W : WalletLib B} (P : Platform B) (S : Setup W) (F : Type 0)
    : Type 0 where
  builder : BuilderError P → MainError P S F
  node : NodeError B → MainError P S F
  client : ClientError B → MainError P S F
  create_wallet : S.CreateError → MainError P S F
  process : F → MainError P S F
  panicked : MainError P S F

-- What comes to a program from outside while it scans: the states and the blocks that wake its
-- scan, and whether a SIGINT is what ends its `select!`.
pub record Script (B : Backend) : Type 0 where
  pub wakes : List StateWake
  pub blocks : List (BlockWake B)
  pub interrupted : Bool

module _ {S E A C : Type 0} where
  -- The rest of a chain after a call, by `?` or by an await.
  unfoldable pub after : Outcome E A × S → (A → S → Outcome E C × S) → Outcome E C × S
  after (done a, s) f = f a s
  after (failed e, s) f = (failed e, s)
  after (pending, s) f = (pending, s)

  infixl 5 ◌>>=◌
  abbrev pub ◌>>=◌ : (S → Outcome E A × S) → (A → S → Outcome E C × S) → S → Outcome E C × S
  ◌>>=◌ m f s = after (m s) f

-- A result with `From` for its error.
abbrev pub wrapped : {E F A : Type 0} → (F → E) → Result F A → Outcome E A
wrapped f (ok a) = done a
wrapped f (err e) = failed (f e)

module _ {S E F A : Type 0} where
  -- `?` on a result.
  abbrev pub given : (F → E) → Result F A → S → Outcome E A × S
  given f r s = (wrapped f r, s)

  -- `?` on a call.
  abbrev pub called : (F → E) → (S → Result F A × S) → S → Outcome E A × S
  called f m s = let (r, s') = m s in (wrapped f r, s')

-- A step that only changes what the chain runs on.
abbrev pub changing : {S E : Type 0} → (S → S) → S → Outcome E (Unit {0}) × S
changing f s = (done tt, f s)

module _ {S E A : Type 0} where
  abbrev pub finally : A → S → Outcome E A × S
  finally a s = (done a, s)

module _ {B : Backend} {W : WalletLib B} {P : Platform B} {S : Setup W} {F : Type 0} where
  -- The node that `run` leaves, if it succeeds.
  abbrev pub ran : Result (NodeError B) (Unit {0}) × Node B → Outcome (MainError P S F) (Node B)
  ran (ok tt, n) = done n
  ran (err e, n) = failed (MainError.node e)

  pub ran-active : (m n : Node B) → ran (run m) ≡ done n → n.state ≡ active
  unfolding run start
  ran-active m n h = ground arith

module _ {S E A C : Type 0} where
  -- What the rest of a chain ensures when it is done, the chain ensures.
  pub after-ensures :
      (Q : C → Type 0) (r : Outcome E A × S) (f : A → S → Outcome E C × S)
      → ((a : A) (s s' : S) (c : C) → r.0 ≡ done a → f a s ≡ (done c, s') → Q c)
      → (s' : S) (c : C) → after r f ≡ (done c, s')
      → Q c
  unfolding after
  after-ensures Q (done a, s) f k s' c h = k a s s' c refl h
  after-ensures Q (failed e, s) f k s' c h = cc
  after-ensures Q (pending, s) f k s' c h = cc

  pub after-of_done :
      (r : Outcome E A × S) (f : A → S → Outcome E C × S) (a : A)
      → r.0 ≡ done a
      → after r f ≡ f a r.1
  unfolding after
  after-of_done (done b, s) f a h = ground arith
  after-of_done (failed e, s) f a h = cc
  after-of_done (pending, s) f a h = cc
