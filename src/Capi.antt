-- ===== src/Capi.antt =====
-- The C interface: bindings/c/src/lib.rs. A pointer is null or what it points to, an out pointer
-- only whether it is null, a thread a number. Nothing in the library panics, so `catch_unwind` adds
-- nothing. The state is that of one device, with the last error of each thread.
pub mod Calls
pub mod Requests
pub mod Mock
pub mod Flags
pub mod Open
pub mod Reports
pub mod Locking
pub mod Buffer
pub mod Handles
use mmreg.Device.{World, LockKey}
use mmreg.Error.Display.{display}
use mmreg.Error.{MmregError, code}
use mmreg.Message.{ProfileMessage}
use mmreg.Prelude.{
  ℕ, Bool, true, false, List, [], ◌∷◌, Option, none, some, ◌==◌, if◌then◌else◌, Text, codes, map,
  ◌++◌,
}

-- `struct ThreadError`.
pub record ThreadError : Type 0 where
  pub code : Text
  pub message : Text

-- `LAST_ERROR` of each thread.
abbrev pub Errors : Type 0
Errors = ℕ → Option ThreadError

-- `sanitize_c_string`: NUL becomes a space.
unfoldable pub sanitize : Text → Text
sanitize [] = []
sanitize (c ∷ cs) = (if c == 0 then b' ' else c) ∷ sanitize cs

-- `set_error` of a thread.
unfoldable pub set_error : ℕ → Text → Text → Errors → Errors
unfolding sanitize
set_error thread code message errors other =
    if other == thread
    then some (record { code = sanitize code; message = sanitize message })
    else errors other

-- `mmreg_clear_error`.
unfoldable pub clear_error : ℕ → Errors → Errors
clear_error thread errors other = if other == thread then none else errors other

-- `mmreg_last_error` and `mmreg_last_error_code`.
unfoldable pub last_error : ℕ → Errors → Text
last_error thread errors = elim (errors thread) [ none ↦ [] | some e ↦ e.message ]

unfoldable pub last_error_code : ℕ → Errors → Text
last_error_code thread errors = elim (errors thread) [ none ↦ [] | some e ↦ e.code ]

-- `set_mmreg_error`.
unfoldable pub set_mmreg_error : (ProfileMessage → Text) → ℕ → MmregError → Errors → Errors
unfolding set_error code display
set_mmreg_error details_of thread e = set_error thread (code e) (display details_of e)

-- An argument that the interface refuses; the text follows the code.
unfoldable pub set_arg_error : ℕ → Text → Errors → Errors
unfolding set_error
set_arg_error thread text =
    set_error thread (codes "E_INVALID_ARG") (codes "[E_INVALID_ARG] " ++ text)

-- A `const char *`: null, bytes that are not UTF-8, or a text.
pub data CString : Type 0 where
  null not_utf8 : CString
  text : Text → CString

-- `OwnedLockGuard`: the locks of a sequence. They belong to the thread that took them until the
-- guard is dropped.
pub record Guard : Type 0 where
  pub thread : ℕ
  pub keys : List LockKey

-- The state behind a handle, `struct mmreg_dev`, the last guard first, and the errors.
pub record CState (Mem : Type 0) : Type 0 where
  pub world : World Mem
  pub guards : List Guard
  pub errors : Errors

-- A returned `int`: -1, 0 or 1.
pub data Status : Type 0 where
  minus_one zero one : Status

-- What a call returns, and what it writes through its out pointer.
pub record Reply : Type 0 where
  pub status : Status
  pub written : Option ℕ

abbrev pub failure : Reply
failure = record { status = minus_one; written = none }

abbrev pub success : Reply
success = record { status = zero; written = none }
