-- ===== src/Capi/Requests.antt =====
-- The calls on a handle as values: bindings/c/src/lib.rs.
use mmreg.Capi.Calls.{
  mmreg_rd, mmreg_wr, mmreg_update32, mmreg_lock, mmreg_unlock, mmreg_irq_unmask, mmreg_irq_wait,
}
use mmreg.Capi.{CState, Reply}
use mmreg.Device.{Device, LockFiles}
use mmreg.Interrupt.{IoError, Transfer, Poll}
use mmreg.Memory.{Mapper, Platform, Width}
use mmreg.Message.{ProfileMessage}
use mmreg.Opening.{Backend}
use mmreg.Prelude.{ℕ, Bool, List, Option, some, Text}

-- A call with its arguments; of an interrupt also the results of the system calls.
pub data Request : Type 0 where
  rd : Width → (offset : ℕ) → (out : Bool) → Request
  wr : Width → (offset : ℕ) → (value : ℕ) → Request
  update32 : (offset : ℕ) → (mask : ℕ) → (value : ℕ) → (out : Bool) → Request
  lock unlock : Request
  unmask_irq : List Transfer → Request
  wait_irq : (now : ℕ) → (timeout_ms : ℕ) → (out : Bool) → List Poll → Request

module _ {Mem : Type 0} (details_of : ProfileMessage → Text) (io_text : IoError → Text)
    (p : Platform) (files : LockFiles) (m : Mapper Mem) (backend : Backend) (thread : ℕ) where
  -- A call; nothing, while it waits.
  unfoldable pub run_request : Request → Option Device → CState Mem → Option (Reply × CState Mem)
  unfolding mmreg_rd mmreg_wr mmreg_update32 mmreg_lock mmreg_unlock mmreg_irq_unmask mmreg_irq_wait
  run_request (rd width offset out) d s =
      some (mmreg_rd details_of p files m thread width d offset out s)
  run_request (wr width offset value) d s =
      some (mmreg_wr details_of p files m thread width d offset value s)
  run_request (update32 offset mask value out) d s =
      some (mmreg_update32 details_of p files m thread d offset mask value out s)
  run_request lock d s = some (mmreg_lock details_of p files m thread d s)
  run_request unlock d s = some (mmreg_unlock details_of p files m thread d s)
  run_request (unmask_irq ts) d s =
      mmreg_irq_unmask details_of p files m thread io_text backend d ts s
  run_request (wait_irq now timeout_ms out ps) d s =
      mmreg_irq_wait details_of p files m thread io_text backend d now timeout_ms out ps s
