-- ===== src/Client/Scan/Bind.antt =====
-- Chains of client calls: how a success decomposes, and what a chain keeps if every call keeps it.
use bdk_floresta.Prelude.{arith, ◌≡◌, refl}
use bdk_floresta.Node.Backend.{Backend}
use bdk_floresta.Client.Types.{Client, ClientError}
use bdk_floresta.Client.Wallet.{WalletLib}
use bdk_floresta.Client.Monad.{Outcome, done, failed, pending, continue}

module _ {B : Backend} {W : WalletLib B} {A C : Type 0} where
  -- A chain that succeeds is a call that succeeds and a rest that does.
  pub continue-done :
      (r : Outcome (ClientError B) A × Client W)
      (f : A → Client W → Outcome (ClientError B) C × Client W) {b : C} {c' : Client W}
      → continue r f ≡ (done b, c')
      → (a : A) × (r.0 ≡ done a) × (f a r.1 ≡ (done b, c'))
  unfolding continue
  continue-done (done a, c) f h = (a, refl, h)
  continue-done (failed e, c) f h = cc
  continue-done (pending, c) f h = cc

  -- What the rest of a chain ensures when it succeeds, the chain ensures.
  pub continue-ensures :
      (Q : C → Client W → Type 0) (r : Outcome (ClientError B) A × Client W)
      (f : A → Client W → Outcome (ClientError B) C × Client W)
      → ((a : A) (c c' : Client W) (b : C) → f a c ≡ (done b, c') → Q b c')
      → (c' : Client W) (b : C) → continue r f ≡ (done b, c')
      → Q b c'
  unfolding continue
  continue-ensures Q (done a, c) f k c' b h = k a c c' b h
  continue-ensures Q (failed e, c) f k c' b h = cc
  continue-ensures Q (pending, c) f k c' b h = cc

  -- What every call of a chain keeps, whatever it comes to, the chain keeps.
  pub continue-keeps :
      (P : Client W → Type 0) (r : Outcome (ClientError B) A × Client W)
      (f : A → Client W → Outcome (ClientError B) C × Client W)
      → P r.1
      → ((a : A) (c : Client W) → P c → P (f a c).1)
      → P (continue r f).1
  unfolding continue
  continue-keeps P (done a, c) f p k = k a c p
  continue-keeps P (failed e, c) f p k = p
  continue-keeps P (pending, c) f p k = p

  -- The same with another property after the rest, which follows from the first.
  pub continue-leads :
      (P Q : Client W → Type 0) (r : Outcome (ClientError B) A × Client W)
      (f : A → Client W → Outcome (ClientError B) C × Client W)
      → P r.1
      → ((c : Client W) → P c → Q c)
      → ((a : A) (c : Client W) → P c → Q (f a c).1)
      → Q (continue r f).1
  unfolding continue
  continue-leads P Q (done a, c) f p w k = k a c p
  continue-leads P Q (failed e, c) f p w k = w c p
  continue-leads P Q (pending, c) f p w k = w c p

  -- A chain whose first call succeeds is its rest.
  pub continue-of_done :
      (r : Outcome (ClientError B) A × Client W)
      (f : A → Client W → Outcome (ClientError B) C × Client W) (a : A)
      → r.0 ≡ done a
      → continue r f ≡ f a r.1
  unfolding continue
  continue-of_done (done b, c) f a h = ground arith
  continue-of_done (failed e, c) f a h = cc
  continue-of_done (pending, c) f a h = cc
