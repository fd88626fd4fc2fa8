-- ===== src/CommandLine/Hardware.antt =====
-- `HardwareBackend` of src/main.rs: the backend of the command line that opens devices.
use mmreg.CommandLine.Run.{CliBackend}
use mmreg.CommandLine.{CliTarget, address, uio}
use mmreg.Device.{read, write}
use mmreg.Error.{MmregError, unaligned_width_access}
use mmreg.Memory.{Width, width_bytes, width_bits}
use mmreg.Opening.Build.{Setting, once, open_device}
use mmreg.Opening.{DeviceBuilder, uio_name, addr, new_builder, OpenWorld, Opened, Action, ◌>>=◌}
use mmreg.Prelude.{ℕ, ◌%◌, Bool, true, false, not, ◌==◌, if◌then◌else◌, Result, ok, err}

-- The builder and the offset of a target.
unfoldable pub target_builder : CliTarget → Width → Result MmregError (DeviceBuilder × ℕ)
target_builder (address a) width =
    if not (a % width_bytes width == 0)
    then err (unaligned_width_access a 0 (width_bits width))
    else ok (new_builder (addr a (width_bytes width)), 0)
target_builder (uio name offset) width = ok (new_builder (uio_name name), offset)

module _ {Mem : Type 0} (e : Setting Mem) where
  -- `open_target`; the warnings that it prints stay with the device.
  unfoldable pub open_target : CliTarget → Width → Bool → Bool → Action Mem (Opened × ℕ)
  unfolding target_builder open_device
  open_target target width ro force w = elim (target_builder target width) [
    | err x ↦ (err x, w)
    | ok (b, offset) ↦
        (open_device e (record b { read_only = ro; force_map = force }) >>= λ o v.
        (ok (o, offset), v))
          w
  ]

  -- `read` and `write`.
  unfoldable pub hardware_read : CliTarget → Width → Bool → Action Mem ℕ
  unfolding open_target read
  hardware_read target width force = open_target target width true force >>= λ (o, offset).
      once e o (λ m files. read e.platform files m o.device offset width)

  unfoldable pub hardware_write : CliTarget → Width → ℕ → Bool → Action Mem (Unit {0})
  unfolding open_target write
  hardware_write target width value force = open_target target width false force >>= λ (o, offset).
      once e o (λ m files. write e.platform files m o.device offset width value)

  -- The trait's instance.
  abbrev pub hardware : CliBackend (OpenWorld Mem)
  hardware = record { read = hardware_read; write = hardware_write }
