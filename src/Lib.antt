-- ===== src/Lib.antt =====
-- mmreg: access to memory-mapped registers of Linux devices from user space.
--
-- A program opens a `Device`, a window of physical memory behind a mapper (a UIO region, /dev/mem,
-- or one of its own), and reads and writes registers in it. Every access is checked for bounds and
-- alignment and made under a lock that other processes respect: the UIO device's, or a lock file of
-- the physical page. A sequence guard holds the locks of a whole window. Registers have bit fields;
-- a safety profile is a list of register checks to pass before a window is opened; numbers in
-- profiles, in sysfs and on the command line are read by one parser.
--
-- Which file models what (paths from the repository's root):
--   Parse, Strings, Message: src/parse.rs, both parsers and the operations of `str` they call.
--   Error: src/error.rs, the error type and its codes.
--   Bits, Register: src/register.rs, bit fields, their masks, and lookup by name.
--   Memory: src/memregs.rs, access widths, mapper kinds, the accesses of the mapper trait.
--   Device: src/device.rs, `check_access`, `lock_at`, `read`, `write`, `update_u32`, `read_u8` to
--     `read_u64`; Device/Sequence: `Device::lock` and, of src/lock.rs, `lock_all`.
--   Lock: src/lock.rs, `SharedLock`: its `acquire` and `release` as steps of the threads of many
--     processes, with the kernel's file lock as a parameter that keeps the laws of flock(2);
--     Lock/Registry: `insert_or_get_shared_lock`.
--   Interface: src/interface.rs, `validate_layout`, `register_index` and `field`; Interface/Access:
--     `Register::read` and `Register::write` of src/register.rs, and what `read_subregister`,
--     `write_subregister` and `parse_subregister` do with a register once the window is mapped;
--     Interface/Mapped: `map`, `unmap`, `access` and the public operations.
--   Validation: src/validation.rs, `execute_with`; Validation/Json: its reader of JSON, `Parser`;
--     Validation/Profile: `parse_check`, `parse_profile` and `SafetyProfile::parse`.
--   Uio: src/memcheck.rs, `UioMap`, `uio_region_raw`, `uio_region_window`, and, of src/memregs.rs,
--     `uio_data_offset`.
--   Iomem: src/memcheck.rs, `parse_iomem` and what it calls, on the lines that were read.
--   Opening: src/device.rs, `DeviceBuilder::open` and dropping a device; Opening/Resolve: src/memcheck.rs,
--     `resolve` and `check_iomem`; Opening/Mapping: src/memregs.rs, `OsMapper::map`, `map_devmem` and
--     `map_uio`, and src/memcheck.rs, `RuntimePmGuard`; Opening/Build has src/lib.rs,
--     `read_register_at` and `write_register_at`, too; Opening/Builder: the setters of
--     `DeviceBuilder`.
--   Mmio: src/mmio.rs, `Mapping`, and src/memregs.rs, the other methods of `OsMapper`.
--   Interrupt: src/mmio.rs, `irq_unmask`, `irq_wait` and `poll_timeout_ms`, and the methods of
--     src/device.rs that call the first two.
--   Preflight: the rest of src/memcheck.rs, on a file system: Preflight/Cells has `reg_covers` and
--     `find_owning_device`, Preflight/Clocks `check_device_clocks`, Preflight/Checks
--     `preflight_check_device`, and Preflight/Search `find_uio_by_name`, `find_uio_region` and
--     `uio_owner`, and makes of them what Opening/Resolve takes as `Sysfs`.
--   Error: src/error.rs, `MmregError` and `code`; Error/Display with Error/Mapping, Error/Access and
--     Error/Format: the messages.
--   Capi: bindings/c/src/lib.rs: Capi/Calls has the calls on a handle, Capi/Open opening, closing and
--     `mmreg_find_uio`, Capi/Flags `parse_flags`, Capi/Mock `CapiMockMapper`.
--   CommandLine: src/main.rs, `run_cli` with the functions it calls, and `HardwareBackend`.
--   Prelude: what the modules share. ParseTests, DeviceTests, ValueTests,
--     LockTests, RegistryTests, IomemTests, InterfaceTests, ProfileTests, CommandLineTests, OpeningTests,
--     MappedTests, InterruptTests, PreflightTests, CapiTests, MmioTests: fixed inputs.
--
-- How the code is modelled:
--   Machine integers are natural numbers; wrap-around is written out, as in a build without overflow
--   checks (one with them panics, in `Device::lock`, when a window passes the end of the addresses).
--   `usize` has the width that the parameter `Platform` gives, with the page size. A `String` is the
--   list of its scalar values, and an error text a constructor where the code formats it. A fallible
--   call returns `Result`; the panic of `to_digit` for a radix that it does not have is an error too.
--   A call of a `Device` passes a `World`: the memory behind the mapper, whether the lock file of
--   the base page is open, and a log of what was opened, locked, released, read and written. The
--   mapper is a parameter, and so are the lock files: whether an opening or a locking fails may
--   depend on the log before it. The loops are recursions on a list or on the number of pages. The
--   reader of JSON alone has fuel: a loop over the items of a list or the characters of a string has
--   one more than the characters that are left, and a value that is skipped has the levels of nesting
--   that are allowed; `Validation.Profile.Total.parse_total` shows that this is enough.
--
--   Opening passes an `OpenWorld`: the memory behind all mappings, the log of their accesses, and a
--   log of the mappings and power settings that were taken and dropped. What the walks through sysfs
--   find, and whether a system call fails, are parameters.
--
--   A file system does not change while `resolve` reads it; a path is a text without empty, `.` or
--   `..` components. The C interface passes the state behind one handle with the last error of each
--   thread; a pointer is null or what it points to, and nothing in the library panics.
--
-- Not modelled: opening and unmapping files of src/mmio.rs, the choice of the directory of lock
-- files, the texts of profiles that cannot be read, and the bindings for Python. The system calls
-- behind mappers, lock files and the file system are outside the repository.
pub mod Prelude
pub mod Bits
pub mod Message
pub mod Error
pub mod Strings
pub mod Parse
pub mod Register
pub mod Memory
pub mod Uio
pub mod Iomem
pub mod Device
pub mod Lock
pub mod Validation
pub mod Interface
pub mod CommandLine
pub mod Opening
pub mod Interrupt
pub mod Preflight
pub mod Capi
pub mod Mmio
mod MmioTests
mod ParseTests
mod ProfileTests
mod MappedTests
mod OpeningTests
mod InterruptTests
mod PreflightTests
mod CapiTests
mod CommandLineTests
mod DeviceTests
mod ValueTests
mod LockTests
mod RegistryTests
mod IomemTests
mod InterfaceTests
