-- ===== src/Lifecycle/Vms/Trouble.antt =====
-- What remains of a start that fails.
use bap_web.Prelude.{String, ◌≡◌, ◌⊎◌}
use bap_web.Model.{Vm, VmState}
use bap_web.Config.{Config}
use bap_web.Errors.{Error, message}
use bap_web.Store.Vms.{update_vm}
use bap_web.World.{World, err}
use bap_web.Lifecycle.Vms.Failure.{Shows}

-- The last thing that was done was to write a row of the machine, which the database refused.
pub record Refused (Says : Vm → Error → Type 0) (id : String) (after : World) : Type 0 where
  pub before : World
  pub row : Vm
  pub reason : Error
  pub own : row.id ≡ id
  pub refused : (update_vm row before).0 ≡ err reason
  pub last : (update_vm row before).1 ≡ after
  pub says : Says row reason

abbrev pub SaysStarting : Error → Vm → Error → Type 0
SaysStarting e row reason = (row.state ≡ VmState.starting) × (reason ≡ e)

-- The row says that the start failed with the error, or that the machine runs, which the database
-- did not take and the caller was told of.
abbrev pub SaysOutcome : Error → Vm → Error → Type 0
SaysOutcome e row reason =
    ((row.state ≡ VmState.error) × (row.last_error ≡ message e))
    ⊎ ((row.state ≡ VmState.running) × (reason ≡ e))

-- The row of a machine whose start failed: it shows the error, or that it starts, where the
-- database refused the write of the outcome.
abbrev pub Trouble : String → Error → World → Type 0
Trouble id e after =
    Shows after.db id VmState.error (message e)
    ⊎ (Shows after.db id VmState.starting "" × Refused (SaysOutcome e) id after)
