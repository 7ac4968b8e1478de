-- ===== src/Client/Handle/Calls.antt =====
-- src/client/mod.rs: any sequence of calls on a scan handle. An await that is given up while the
-- task still runs is a call that finds it running.
use bdk_floresta.Prelude.{
  ℕ, ◌+◌, ◌≤◌, Bool, true, false, ◌||◌, List, [], ◌∷◌, ◌≡◌, refl, arith, if◌then◌else◌,
}
use bdk_floresta.Node.Backend.{Backend}
use bdk_floresta.Client.Monad.{Outcome, failed}
use bdk_floresta.Client.Types.{ClientError}
use bdk_floresta.Client.Handle.{TaskEnd, ScanHandle, join, cancel, stop, drop_handle}

pub data HandleCall (B : Backend) : Type 0 where
  joins : TaskEnd B → HandleCall B
  cancels : HandleCall B
  stops : TaskEnd B → HandleCall B

module _ {B : Backend} where
  abbrev on_handle : HandleCall B → ScanHandle → ScanHandle
  on_handle (joins end) h = (join end h).1
  on_handle cancels h = cancel h
  on_handle (stops end) h = (stop (λ _. end) h).1

  abbrev pub on_handle_calls : List (HandleCall B) → ScanHandle → ScanHandle
  on_handle_calls [] h = h
  on_handle_calls (call ∷ calls) h = on_handle_calls calls (on_handle call h)

  abbrev is_failed : Outcome (ClientError B) (Unit {0}) → ℕ
  is_failed (failed _) = 1
  is_failed _ = 0

  abbrev errors_of : HandleCall B → ScanHandle → ℕ
  errors_of (joins end) h = is_failed (join end h).0
  errors_of cancels h = 0
  errors_of (stops end) h = is_failed (stop (λ _. end) h).0

  -- How many of the calls return an error.
  pub count_errors : List (HandleCall B) → ScanHandle → ℕ
  count_errors [] h = 0
  count_errors (call ∷ calls) h = errors_of call h + count_errors calls (on_handle call h)

  -- A call cancels the scan's token.
  abbrev asks_cancel : HandleCall B → Bool
  asks_cancel (joins _) = false
  asks_cancel _ = true

  pub any_cancel : List (HandleCall B) → Bool
  any_cancel [] = false
  any_cancel (call ∷ calls) = asks_cancel call || any_cancel calls

  count_errors-bound :
      (calls : List (HandleCall B)) (h : ScanHandle)
      → count_errors calls h ≤ (if h.inner then 1 else 0)
  unfolding count_errors join cancel stop
  count_errors-bound [] h = ground arith
  count_errors-bound (joins end ∷ calls) h =
      ground (arith, count_errors-bound calls (on_handle (joins end) h))
  count_errors-bound (cancels ∷ calls) h =
      ground (arith, count_errors-bound calls (on_handle cancels h))
  count_errors-bound (stops end ∷ calls) h =
      ground (arith, count_errors-bound calls (on_handle (stops end) h))

  -- Over any sequence of calls, the error of the scan's task is returned at most once, and never
  -- once the join handle is gone.
  pub error_reported_once :
      (calls : List (HandleCall B)) (h : ScanHandle)
      → (count_errors calls h ≤ 1) × (h.inner ≡ false → count_errors calls h ≡ 0)
  error_reported_once calls h = ground (arith, count_errors-bound calls h)

  on_handle_calls-token :
      (calls : List (HandleCall B)) (h : ScanHandle)
      → (on_handle_calls calls h).token ≡ (h.token || any_cancel calls)
  unfolding any_cancel join cancel stop
  on_handle_calls-token [] h = ground arith
  on_handle_calls-token (joins end ∷ calls) h =
      ground (arith, on_handle_calls-token calls (on_handle (joins end) h))
  on_handle_calls-token (cancels ∷ calls) h =
      ground (arith, on_handle_calls-token calls (on_handle cancels h))
  on_handle_calls-token (stops end ∷ calls) h =
      ground (arith, on_handle_calls-token calls (on_handle (stops end) h))

  on_handle_calls-aborted :
      (calls : List (HandleCall B)) (h : ScanHandle) → (on_handle_calls calls h).aborted ≡ h.aborted
  unfolding join cancel stop
  on_handle_calls-aborted [] h = refl
  on_handle_calls-aborted (joins end ∷ calls) h =
      ground (arith, on_handle_calls-aborted calls (on_handle (joins end) h))
  on_handle_calls-aborted (cancels ∷ calls) h =
      ground (arith, on_handle_calls-aborted calls (on_handle cancels h))
  on_handle_calls-aborted (stops end ∷ calls) h =
      ground (arith, on_handle_calls-aborted calls (on_handle (stops end) h))

  -- The calls on a handle cancel its token, which was not cancelled, exactly if one of them is a
  -- `cancel` or a `stop`, and abort no task; the drop of the handle cancels the token in any case,
  -- and aborts the task exactly if its join handle is still there.
  pub handle_token :
      (calls : List (HandleCall B)) (h : ScanHandle)
      → h.token ≡ false
      → h.aborted ≡ false
      → let g = on_handle_calls calls h in
        (g.token ≡ any_cancel calls)
        × ((drop_handle g).token ≡ true)
        × (g.aborted ≡ false)
        × ((drop_handle g).aborted ≡ g.inner)
  unfolding drop_handle
  handle_token calls h t a =
      ground (arith, on_handle_calls-token calls h, on_handle_calls-aborted calls h)
