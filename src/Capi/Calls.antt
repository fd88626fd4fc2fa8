-- ===== src/Capi/Calls.antt =====
-- The calls on a handle: bindings/c/src/lib.rs, from `impl_c_read` to `mmreg_warning`.
use mmreg.Capi.{
  set_error, set_mmreg_error, set_arg_error, sanitize, Guard, CState, zero, one, Reply, failure,
  success,
}
use mmreg.Device.Sequence.{lock, release_all}
use mmreg.Device.{Device, LockFiles, LockKey, World, read_narrow, write, update_u32}
use mmreg.Error.{MmregError}
use mmreg.Interrupt.{IoError, Transfer, Poll, irq_unmask, irq_wait}
use mmreg.Memory.{Mapper, Platform, Width}
use mmreg.Message.{ProfileMessage}
use mmreg.Opening.{Backend}
use mmreg.Prelude.{
  ℕ, ◌+◌, ◌-◌, ◌*◌, ◌^◌, Bool, true, false, List, [], ◌∷◌, Option, none, some, get_elem?, length,
  ◌==◌, if◌then◌else◌, Text, codes, Result, ok, err, map,
}

-- An out pointer that may be null.
abbrev pub through : Bool → ℕ → Option ℕ
through true v = some v
through false v = none

-- The deadline of a timeout in milliseconds; the largest stands for none.
unfoldable pub deadline_of : ℕ → ℕ → Option ℕ
deadline_of now ms = if ms == 2 ^ 64 - 1 then none else some (now + ms * 1_000_000)

abbrev pub irq_reply : Bool → Option ℕ → Reply
irq_reply out none = success
irq_reply out (some count) = record { status = one; written = through out count }

module _ {Mem : Type 0} (details_of : ProfileMessage → Text) (p : Platform) (files : LockFiles)
    (m : Mapper Mem) (thread : ℕ) where
  -- Returning -1 for an argument.
  abbrev pub refuse_arg : Text → CState Mem → Reply × CState Mem
  refuse_arg text s = (failure, record s { errors = set_arg_error thread text s.errors })

  -- `ref_dev` of a null pointer.
  abbrev pub refuse_null : CState Mem → Reply × CState Mem
  refuse_null s = refuse_arg (codes "NULL mmreg_dev pointer passed to mmreg.") s

  -- The `match` on the result of a call of the device.
  abbrev pub finish :
      {A : Type 0} → (A → Reply) → Result MmregError A × World Mem → CState Mem → Reply × CState Mem
  finish reply (ok a, w) s = (reply a, record s { world = w })
  finish reply (err e, w) s =
      (failure, record s { world = w; errors = set_mmreg_error details_of thread e s.errors })

  -- `mmreg_rd8` to `mmreg_rd64`.
  unfoldable pub mmreg_rd : Width → Option Device → ℕ → Bool → CState Mem → Reply × CState Mem
  unfolding read_narrow
  mmreg_rd width none offset out s = refuse_null s
  mmreg_rd width (some d) offset false s =
      refuse_arg (codes "NULL 'out' pointer passed to mmreg_rd*.") s
  mmreg_rd width (some d) offset true s =
      finish (λ v. record { status = zero; written = some v })
        (read_narrow p files m d width offset s.world) s

  -- `mmreg_wr8` to `mmreg_wr64`.
  unfoldable pub mmreg_wr : Width → Option Device → ℕ → ℕ → CState Mem → Reply × CState Mem
  unfolding write
  mmreg_wr width none offset value s = refuse_null s
  mmreg_wr width (some d) offset value s =
      finish (λ _. success) (write p files m d offset width value s.world) s

  -- `mmreg_update32`.
  unfoldable pub mmreg_update32 : Option Device → ℕ → ℕ → ℕ → Bool → CState Mem → Reply × CState Mem
  unfolding update_u32
  mmreg_update32 none offset mask value out s = refuse_null s
  mmreg_update32 (some d) offset mask value out s =
      finish (λ v. record { status = zero; written = through out v })
        (update_u32 p files m d offset mask value s.world) s

  -- A sequence that is taken is pushed.
  abbrev pub push_guard :
      Result MmregError (List LockKey) × World Mem → CState Mem → Reply × CState Mem
  push_guard (ok keys, w) s =
      (success, record s { world = w; guards = record { thread = thread; keys = keys } ∷ s.guards })
  push_guard (err e, w) s =
      (failure, record s { world = w; errors = set_mmreg_error details_of thread e s.errors })

  -- `mmreg_lock`.
  unfoldable pub mmreg_lock : Option Device → CState Mem → Reply × CState Mem
  unfolding lock
  mmreg_lock none s = refuse_null s
  mmreg_lock (some d) s = push_guard (lock p files d s.world) s

  abbrev pub refuse_unlock : Text → CState Mem → Reply × CState Mem
  refuse_unlock text s =
      (failure, record s { errors = set_error thread (codes "E_LOCK_ACQUIRE") text s.errors })

  -- `mmreg_unlock`.
  unfoldable pub pop_guard : List Guard → CState Mem → Reply × CState Mem
  unfolding release_all
  pop_guard [] s =
      refuse_unlock (codes "[E_LOCK_ACQUIRE] mmreg_unlock called without a matching mmreg_lock.") s
  pop_guard (last ∷ rest) s =
      if last.thread == thread
      then (success, record s { world = release_all last.keys s.world; guards = rest })
      else refuse_unlock
          (codes "[E_LOCK_ACQUIRE] mmreg_unlock called from a thread that does not hold the lock.")
          s

  unfoldable pub mmreg_unlock : Option Device → CState Mem → Reply × CState Mem
  unfolding pop_guard
  mmreg_unlock none s = refuse_null s
  mmreg_unlock (some d) s = pop_guard s.guards s

  -- The `match` on the result of an interrupt call; nothing, while it waits.
  abbrev pub finish_irq :
      {A : Type 0}
      → (A → Reply)
      → Option (Result MmregError A)
      → CState Mem
      → Option (Reply × CState Mem)
  finish_irq reply none s = none
  finish_irq reply (some r) s = some (finish reply (r, s.world) s)

  -- `mmreg_irq_unmask`.
  unfoldable pub mmreg_irq_unmask :
      (IoError → Text)
      → Backend
      → Option Device
      → List Transfer
      → CState Mem
      → Option (Reply × CState Mem)
  unfolding irq_unmask
  mmreg_irq_unmask text backend none ts s = some (refuse_null s)
  mmreg_irq_unmask text backend (some d) ts s =
      finish_irq (λ _. success) (irq_unmask text d backend ts) s

  -- `mmreg_irq_wait`.
  unfoldable pub mmreg_irq_wait :
      (IoError → Text)
      → Backend
      → Option Device
      → ℕ
      → ℕ
      → Bool
      → List Poll
      → CState Mem
      → Option (Reply × CState Mem)
  unfolding irq_wait deadline_of
  mmreg_irq_wait text backend none now timeout_ms out ps s = some (refuse_null s)
  mmreg_irq_wait text backend (some d) now timeout_ms out ps s =
      finish_irq (irq_reply out) (irq_wait text d backend (deadline_of now timeout_ms) ps) s

  -- Dropping the guards of a handle, in the order of the vector.
  unfoldable pub drop_guards : List Guard → World Mem → World Mem
  unfolding release_all
  drop_guards [] w = w
  drop_guards (g ∷ later) w = release_all g.keys (drop_guards later w)

-- `mmreg_base_address`, `mmreg_size`, `mmreg_warning_count` and `mmreg_warning`.
unfoldable pub mmreg_base_address : Option Device → ℕ
mmreg_base_address none = 0
mmreg_base_address (some d) = d.base_address

unfoldable pub mmreg_size : Option Device → ℕ
mmreg_size none = 0
mmreg_size (some d) = d.size

-- The warnings of a handle, made by `mmreg_dev::new`.
unfoldable pub warnings_of : Device → List Text
unfolding sanitize
warnings_of d = map sanitize d.warnings

unfoldable pub mmreg_warning_count : Option Device → ℕ
unfolding warnings_of
mmreg_warning_count none = 0
mmreg_warning_count (some d) = length (warnings_of d)

unfoldable pub mmreg_warning : Option Device → ℕ → Option Text
unfolding warnings_of
mmreg_warning none index = none
mmreg_warning (some d) index = get_elem? (warnings_of d) index
