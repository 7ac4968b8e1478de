-- ===== src/Client/Handle.antt =====
-- src/client/mod.rs: `ScanHandle`, through which a spawned scan is awaited, cancelled and stopped.
pub mod Calls
use bdk_floresta.Prelude.{Bool, true, false, Result, if◌then◌else◌}
use bdk_floresta.Node.Backend.{Backend}
use bdk_floresta.Client.Types.{ClientError, scan_aborted}
use bdk_floresta.Client.Monad.{Outcome, done, failed, pending, returned}

-- What an await of the scan's task finds: the task still runs, it has returned, or it was aborted
-- or panicked.
pub data TaskEnd (B : Backend) : Type 0 where
  still_running : TaskEnd B
  ended : Result (ClientError B) (Unit {0}) → TaskEnd B
  lost : TaskEnd B

-- `inner` tells whether the task's join handle is there, `aborted` whether the task was told to
-- abort.
pub record ScanHandle : Type 0 where
  pub token : Bool
  pub inner : Bool
  pub aborted : Bool

-- `ScanHandle::new`, with a token and a spawned task.
unfoldable pub new_handle : Bool → ScanHandle
new_handle token = record { token = token; inner = true; aborted = false }

unfoldable pub cancel : ScanHandle → ScanHandle
cancel h = record h { token = true }

-- `Drop` of `ScanHandle`.
unfoldable pub drop_handle : ScanHandle → ScanHandle
drop_handle h = record {
  token = true;
  inner = false;
  aborted = if h.inner then true else h.aborted;
}

module _ {B : Backend} where
  -- `inner.await.unwrap_or(Err(ClientError::ScanAborted))`, and the handle let go once it is there.
  abbrev joined : TaskEnd B → ScanHandle → Outcome (ClientError B) (Unit {0}) × ScanHandle
  joined still_running h = (pending, h)
  joined (ended r) h = (returned r, record h { inner = false })
  joined lost h = (failed scan_aborted, record h { inner = false })

  unfoldable pub join : TaskEnd B → ScanHandle → Outcome (ClientError B) (Unit {0}) × ScanHandle
  join end h = if h.inner then joined end h else (done tt, h)

  -- The await of `stop`: the join handle was taken before, so it is gone even while the task still
  -- runs.
  abbrev stopped : TaskEnd B → Outcome (ClientError B) (Unit {0})
  stopped still_running = pending
  stopped _ = done tt

  -- `stop`, where `task` tells what the await finds, by whether the scan's token is cancelled.
  unfoldable pub stop :
      (Bool → TaskEnd B) → ScanHandle → Outcome (ClientError B) (Unit {0}) × ScanHandle
  unfolding cancel
  stop task h =
      let cancelled = cancel h in
      (
        if h.inner then stopped (task cancelled.token) else done tt,
        record cancelled { inner = false },
      )
