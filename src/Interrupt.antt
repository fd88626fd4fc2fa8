-- ===== src/Interrupt.antt =====
-- Interrupts of a UIO device: `irq_unmask`, `irq_wait` and `poll_timeout_ms` of src/mmio.rs, and the
-- methods of src/device.rs that call them. The results of the system calls are lists; instants are
-- nanoseconds.
pub mod Waiting
use mmreg.Device.{Device}
use mmreg.Error.{MmregError, read_only, uio_required, uio_irq}
use mmreg.Memory.{MapperType, auto, dev_mem, uio}
use mmreg.Opening.{Backend, os, custom}
use mmreg.Prelude.{
  ℕ, ◌+◌, ◌-◌, ◌/◌, ◌%◌, ◌^◌, Bool, true, false, List, [], ◌∷◌, Option, none, some, ltb, leb, ◌==◌,
  if◌then◌else◌, Text, codes, Result, ok, err,
}

-- Errors of the system calls: a text, or one of the kinds that the functions make.
pub data IoError : Type 0 where
  failed : Text → IoError
  write_zero broken_pipe unexpected_eof : IoError

-- A result of `write` or `read`: the number of bytes, or an error that may be an interruption.
pub data Transfer : Type 0 where
  moved : ℕ → Transfer
  interrupted : Transfer
  refused : Text → Transfer

-- `irq_unmask` of mmio.rs, on the results of `write`; nothing, while it goes on.
unfoldable pub unmask : List Transfer → Option (Result IoError (Unit {0}))
unmask [] = none
unmask (moved n ∷ ts) = if n == 4 then some (ok tt) else some (err write_zero)
unmask (interrupted ∷ ts) = unmask ts
unmask (refused e ∷ ts) = some (err (failed e))

-- `poll_timeout_ms`; nothing stands for -1, by which `poll` has no timeout.
unfoldable pub poll_timeout_ms : Option ℕ → ℕ → Option ℕ
poll_timeout_ms none now = none
poll_timeout_ms (some end) now =
    let ms = (end - now + 999_999) / 1_000_000 in
    if ltb ms (2 ^ 31) then some ms else some (2 ^ 31 - 1)

-- A result of `poll`: the time ran out, and what the clock shows then; an error; or the descriptor
-- is ready, for reading or not, with the results of `read` that follow and the count in the bytes.
pub data Poll : Type 0 where
  timed_out : ℕ → Poll
  poll_interrupted : Poll
  poll_refused : Text → Poll
  ready : Bool → List Transfer → ℕ → Poll

-- The inner loop of `irq_wait`.
unfoldable pub read_count : List Transfer → ℕ → Option (Result IoError (Option ℕ))
read_count [] count = none
read_count (moved n ∷ ts) count =
    if n == 4 then some (ok (some count)) else some (err unexpected_eof)
read_count (interrupted ∷ ts) count = read_count ts count
read_count (refused e ∷ ts) count = some (err (failed e))

-- The deadline is not reached yet.
abbrev pub before_deadline : Option ℕ → ℕ → Bool
before_deadline none now = false
before_deadline (some end) now = ltb now end

-- The loop of `irq_wait` of mmio.rs, on the results of `poll`; nothing, while it waits.
unfoldable pub wait : Option ℕ → List Poll → Option (Result IoError (Option ℕ))
unfolding read_count
wait deadline [] = none
wait deadline (timed_out now ∷ ps) =
    let later = wait deadline ps in if before_deadline deadline now then later else some (ok none)
wait deadline (poll_interrupted ∷ ps) = wait deadline ps
wait deadline (poll_refused e ∷ ps) = some (err (failed e))
wait deadline (ready true ts count ∷ ps) = read_count ts count
wait deadline (ready false ts count ∷ ps) = some (err broken_pipe)

-- The descriptor of a device, if it has one.
abbrev pub has_uio_file : Backend → Bool
has_uio_file (os (uio device_path region_index)) = true
has_uio_file (os auto) = false
has_uio_file (os dev_mem) = false
has_uio_file custom = false

abbrev pub irq_error : (IoError → Text) → Device → IoError → MmregError
irq_error text d e = elim d.device_path [
  | some path ↦ uio_irq path (text e)
  | none ↦ uio_irq d.name (text e)
]

-- `map_err` of the methods.
abbrev pub irq_result :
    {A : Type 0}
    → (IoError → Text)
    → Device
    → Option (Result IoError A)
    → Option (Result MmregError A)
irq_result text d none = none
irq_result text d (some (ok a)) = some (ok a)
irq_result text d (some (err e)) = some (err (irq_error text d e))

-- `Device::irq_unmask`.
unfoldable pub irq_unmask :
    (IoError → Text) → Device → Backend → List Transfer → Option (Result MmregError (Unit {0}))
unfolding unmask
irq_unmask text d backend ts =
    if d.is_read_only
    then some (err (read_only d.name))
    else if has_uio_file backend
    then irq_result text d (unmask ts)
    else some (err (uio_required (codes "irq_unmask")))

-- `Device::irq_wait`.
unfoldable pub irq_wait :
    (IoError → Text)
    → Device
    → Backend
    → Option ℕ
    → List Poll
    → Option (Result MmregError (Option ℕ))
unfolding wait
irq_wait text d backend deadline ps =
    if has_uio_file backend
    then irq_result text d (wait deadline ps)
    else some (err (uio_required (codes "irq_wait")))
