-- ===== src/InterruptTests.antt =====
-- Interrupts of a UIO device at fixed inputs (src/mmio.rs, src/device.rs).
use mmreg.Device.{Device}
use mmreg.Error.{read_only, uio_required, uio_irq}
use mmreg.Interrupt.Waiting.{RunsOut, irq_wait_iff}
use mmreg.Interrupt.{
  IoError, moved, interrupted, Poll, timed_out, poll_interrupted, ready, read_count, wait,
  irq_unmask, irq_wait, poll_timeout_ms,
}
use mmreg.Memory.{dev_mem, uio}
use mmreg.Opening.{Backend, os}
use mmreg.Prelude.{true, false, List, [], ◌∷◌, some, none, codes, Text, ok, err, ◌≡◌, ◌↔◌, refl}

abbrev device : Device
device = record {
  name = codes "gpio";
  base_address = 0x1000;
  size = 16;
  is_read_only = true;
  device_path = some (codes "/dev/uio0");
  warnings = [];
  has_uio_lock = true;
}

abbrev descriptor : Backend
descriptor = os (uio (codes "/dev/uio0") 0)

abbrev text : IoError → Text
text e = codes "failed"

abbrev polls : List Poll
polls = poll_interrupted ∷ timed_out 5 ∷ timed_out 12 ∷ []

irq_wait_iff_example :
    (irq_wait text device descriptor (some 10) polls ≡ some (ok none)) ↔ RunsOut 10 polls
irq_wait_iff_example = irq_wait_iff text device descriptor 10 polls refl

rounded_up : poll_timeout_ms (some 5_000_001) 2_000_000 ≡ some 4
unfolding poll_timeout_ms
rounded_up = refl

counted :
    irq_wait text device descriptor none
      (poll_interrupted ∷ ready true (interrupted ∷ moved 4 ∷ []) 7 ∷ [])
    ≡ some (ok (some 7))
unfolding irq_wait wait read_count
counted = refl

hung_up :
    irq_wait text device descriptor none (ready false [] 0 ∷ [])
    ≡ some (err (uio_irq (codes "/dev/uio0") (codes "failed")))
unfolding irq_wait wait
hung_up = refl

without_descriptor :
    irq_wait text device (os dev_mem) none [] ≡ some (err (uio_required (codes "irq_wait")))
unfolding irq_wait
without_descriptor = refl

never_unmasked :
    irq_unmask text device descriptor (moved 4 ∷ []) ≡ some (err (read_only (codes "gpio")))
unfolding irq_unmask
never_unmasked = refl
