-- ===== src/Client/Monad.antt =====
-- A call of the client as a function of its state: it returns, fails, or still waits.
use bdk_floresta.Prelude.{Result, ok, err}
use bdk_floresta.Node.{Node, NodeError}
use bdk_floresta.Node.Backend.{Backend}
use bdk_floresta.Client.Wallet.{WalletLib}
use bdk_floresta.Client.Types.{Client, ClientError, node}

pub data Outcome (E A : Type 0) : Type 0 where
  done : A → Outcome E A
  failed : E → Outcome E A
  pending : Outcome E A

module _ {B : Backend} (W : WalletLib B) where
  abbrev pub Scan : Type 0 → Type 0
  Scan A = Client W → Outcome (ClientError B) A × Client W

module _ {B : Backend} {W : WalletLib B} {A C : Type 0} where
  -- The rest of a chain after a call. Shut: chains are taken apart by the laws of
  -- `Client.Scan.Bind`.
  unfoldable pub continue :
      Outcome (ClientError B) A × Client W
      → (A → Client W → Outcome (ClientError B) C × Client W)
      → Outcome (ClientError B) C × Client W
  continue (done a, c) f = f a c
  continue (failed e, c) f = (failed e, c)
  continue (pending, c) f = (pending, c)

  infixl 5 ◌>>=◌
  abbrev pub ◌>>=◌ :
      (Client W → Outcome (ClientError B) A × Client W)
      → (A → Client W → Outcome (ClientError B) C × Client W)
      → Client W
      → Outcome (ClientError B) C × Client W
  ◌>>=◌ m f c = continue (m c) f

  infixl 5 ◌>>◌
  abbrev pub ◌>>◌ :
      (Client W → Outcome (ClientError B) A × Client W)
      → (Client W → Outcome (ClientError B) C × Client W)
      → Client W
      → Outcome (ClientError B) C × Client W
  ◌>>◌ m k c = continue (m c) (λ _. k)

module _ {B : Backend} {A : Type 0} where
  abbrev pub returned : Result (ClientError B) A → Outcome (ClientError B) A
  returned (ok a) = done a
  returned (err e) = failed e

  abbrev from_node : Result (NodeError B) A → Outcome (ClientError B) A
  from_node (ok a) = done a
  from_node (err e) = failed (node e)

module _ {B : Backend} {W : WalletLib B} {A : Type 0} where
  abbrev pub pure : A → Client W → Outcome (ClientError B) A × Client W
  pure a c = (done a, c)

  abbrev pub fail : ClientError B → Client W → Outcome (ClientError B) A × Client W
  fail e c = (failed e, c)

  -- `?` on a result.
  abbrev pub lift : Result (ClientError B) A → Client W → Outcome (ClientError B) A × Client W
  lift r c = (returned r, c)

  -- A method of the node, its error through `ClientError::from`.
  abbrev pub ask :
      (Node B → Result (NodeError B) A × Node B) → Client W → Outcome (ClientError B) A × Client W
  ask f c = let (r, n) = f c.node in (from_node r, record c { node = n })
