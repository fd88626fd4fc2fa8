-- ===== src/Capi/Reports.antt =====
-- When the C interface records an error, and which (bindings/c/src/lib.rs).
use mmreg.Capi.Calls.{
  finish, refuse_arg, push_guard, pop_guard, finish_irq, irq_reply, mmreg_rd, mmreg_wr,
  mmreg_update32, mmreg_lock, mmreg_unlock, mmreg_irq_unmask, mmreg_irq_wait, deadline_of,
  refuse_unlock,
}
use mmreg.Capi.Requests.{Request, rd, wr, update32, lock, unlock, unmask_irq, wait_irq, run_request}
use mmreg.Capi.{
  Errors, set_error, set_mmreg_error, set_arg_error, Guard, CState, Status, minus_one, zero, one,
  Reply, success,
}
use mmreg.Device.{Device, LockFiles, LockKey, World, read_narrow, write, update_u32}
use mmreg.Device.Sequence.{release_all}
use mmreg.Error.Display.{display}
use mmreg.Error.Prefixed.{display-code}
use mmreg.Error.{MmregError, code}
use mmreg.Interrupt
use mmreg.Interrupt.{IoError}
use mmreg.Memory.{Mapper, Platform}
use mmreg.Message.{ProfileMessage}
use mmreg.Opening.{Backend}
use mmreg.Preflight.{starts_with}
use mmreg.Prelude.{
  ℕ, Bool, true, false, List, [], ◌∷◌, ◌++◌, Option, none, some, ◌==◌, if◌then◌else◌, Text, codes,
  Result, ok, err, ◌≡◌, ◌≢◌, refl, arith,
}
use mmreg.Strings.{strip_prefix}

-- The error of a thread was set, to a message that starts with its code, and that of no other.
pub record IsReported (thread : ℕ) (before after : Errors) : Type 0 where
  pub error_code : Text
  pub message : Text
  pub is : after ≡ set_error thread error_code message before
  pub prefixed : starts_with message (codes "[" ++ error_code ++ codes "] ") ≡ true
  pub others : (other : ℕ) → other ≢ thread → after other ≡ before other

-- What a status says of the errors: -1 comes with a new error, any other leaves them alone.
abbrev pub Reports : ℕ → Errors → Status → Errors → Type 0
Reports thread before minus_one after = IsReported thread before after
Reports thread before zero after = after ≡ before
Reports thread before one after = after ≡ before

-- Nothing is written through an out pointer when a call fails.
abbrev pub WritesNothing : Status → Option ℕ → Type 0
WritesNothing minus_one written = written ≡ none
WritesNothing zero written = Unit
WritesNothing one written = Unit

abbrev pub Reported : {Mem : Type 0} → ℕ → Errors → Reply × CState Mem → Type 0
Reported thread before (reply, s) =
    Reports thread before reply.status s.errors × WritesNothing reply.status reply.written

set_error-others :
    (thread : ℕ) (c m : Text) (errors : Errors) (other : ℕ)
    → other ≢ thread
    → set_error thread c m errors other ≡ errors other
unfolding set_error
set_error-others thread c m errors other h = ground arith

pub set_error-IsReported :
    (thread : ℕ) (c m : Text) (errors : Errors)
    → starts_with m (codes "[" ++ c ++ codes "] ") ≡ true
    → IsReported thread errors (set_error thread c m errors)
set_error-IsReported thread c m errors h = record {
  error_code = c;
  message = m;
  is = refl;
  prefixed = h;
  others = set_error-others thread c m errors;
}

pub set_mmreg_error-IsReported :
    (details_of : ProfileMessage → Text) (thread : ℕ) (e : MmregError) (errors : Errors)
    → IsReported thread errors (set_mmreg_error details_of thread e errors)
unfolding set_mmreg_error
set_mmreg_error-IsReported details_of thread e errors =
    set_error-IsReported thread (code e) (display details_of e) errors (display-code details_of e)

pub set_arg_error-IsReported :
    (thread : ℕ) (text : Text) (errors : Errors)
    → IsReported thread errors (set_arg_error thread text errors)
unfolding set_arg_error
set_arg_error-IsReported thread text errors =
    set_error-IsReported thread (codes "E_INVALID_ARG") (codes "[E_INVALID_ARG] " ++ text) errors
      (unfold starts_with strip_prefix in refl)

-- A status that is no failure.
abbrev IsSuccess : Status → Type 0
IsSuccess minus_one = ⊥
IsSuccess zero = Unit
IsSuccess one = Unit

success-Reported :
    {Mem : Type 0} (thread : ℕ) (status : Status) (written : Option ℕ) (s : CState Mem)
    → IsSuccess status
    → Reported thread s.errors (record { status = status; written = written }, s)
success-Reported thread minus_one written s h = absurd h
success-Reported thread zero written s h = (refl, tt)
success-Reported thread one written s h = (refl, tt)

module _ {Mem : Type 0} (details_of : ProfileMessage → Text) (io_text : IoError → Text)
    (p : Platform) (files : LockFiles) (m : Mapper Mem) (backend : Backend) (thread : ℕ) where
  refuse_arg-Reported :
      (text : Text) (s : CState Mem)
      → Reported thread s.errors (refuse_arg details_of p files m thread text s)
  refuse_arg-Reported text s = (set_arg_error-IsReported thread text s.errors, refl)

  finish-Reported :
      {A : Type 0} (reply : A → Reply) (r : Result MmregError A × World Mem) (s : CState Mem)
      → ((a : A) → IsSuccess (reply a).status)
      → Reported thread s.errors (finish details_of p files m thread reply r s)
  finish-Reported reply (ok a, w) s h =
      success-Reported thread (reply a).status (reply a).written (record s { world = w }) (h a)
  finish-Reported reply (err e, w) s h =
      (set_mmreg_error-IsReported details_of thread e s.errors, refl)

  push_guard-Reported :
      (r : Result MmregError (List LockKey) × World Mem) (s : CState Mem)
      → Reported thread s.errors (push_guard details_of p files m thread r s)
  push_guard-Reported (ok keys, w) s = (refl, tt)
  push_guard-Reported (err e, w) s = (set_mmreg_error-IsReported details_of thread e s.errors, refl)

  pop_guard-Reported :
      (guards : List Guard) (s : CState Mem)
      → Reported thread s.errors (pop_guard details_of p files m thread guards s)
  unfolding pop_guard starts_with strip_prefix
  pop_guard-Reported [] s = (set_error-IsReported thread _ _ s.errors refl, refl)
  pop_guard-Reported (last ∷ rest) s = go (last.thread == thread)
    where
      popped : CState Mem
      popped = record s { world = release_all last.keys s.world; guards = rest }

      refused : Reply × CState Mem
      refused =
          refuse_unlock details_of p files m thread
            (codes
              "[E_LOCK_ACQUIRE] mmreg_unlock called from a thread that does not hold the lock.")
            s

      go : (b : Bool) → Reported thread s.errors (if b then (success, popped) else refused)
      go true = (refl, tt)
      go false = (set_error-IsReported thread _ _ s.errors refl, refl)

  -- A call that may wait.
  abbrev pub IfReturned : Errors → Option (Reply × CState Mem) → Type 0
  IfReturned before none = Unit
  IfReturned before (some r) = Reported thread before r

  finish_irq-Reported :
      {A : Type 0} (reply : A → Reply) (r : Option (Result MmregError A)) (s : CState Mem)
      → ((a : A) → IsSuccess (reply a).status)
      → IfReturned s.errors (finish_irq details_of p files m thread reply r s)
  finish_irq-Reported reply none s h = tt
  finish_irq-Reported reply (some r) s h = finish-Reported reply (r, s.world) s h

  -- Every call on a handle, null or not, that returns -1 has set the calling thread's last error, to
  -- a message that starts with its code in brackets, no other thread's, and has written nothing
  -- through its out pointer; a call that returns another status has left all errors alone.
  pub run_request-Reported :
      (r : Request) (d : Option Device) (s : CState Mem)
      → IfReturned s.errors (run_request details_of io_text p files m backend thread r d s)
  unfolding run_request mmreg_rd mmreg_wr mmreg_update32 mmreg_lock mmreg_unlock mmreg_irq_unmask
      mmreg_irq_wait
  run_request-Reported (rd width offset out) none s = refuse_arg-Reported _ s
  run_request-Reported (rd width offset false) (some d) s = refuse_arg-Reported _ s
  run_request-Reported (rd width offset true) (some d) s =
      finish-Reported _ (read_narrow p files m d width offset s.world) s (λ v. tt)
  run_request-Reported (wr width offset value) none s = refuse_arg-Reported _ s
  run_request-Reported (wr width offset value) (some d) s =
      finish-Reported _ (write p files m d offset width value s.world) s (λ v. tt)
  run_request-Reported (update32 offset mask value out) none s = refuse_arg-Reported _ s
  run_request-Reported (update32 offset mask value out) (some d) s =
      finish-Reported _ (update_u32 p files m d offset mask value s.world) s (λ v. tt)
  run_request-Reported lock none s = refuse_arg-Reported _ s
  run_request-Reported lock (some d) s = push_guard-Reported _ s
  run_request-Reported unlock none s = refuse_arg-Reported _ s
  run_request-Reported unlock (some d) s = pop_guard-Reported s.guards s
  run_request-Reported (unmask_irq ts) none s = refuse_arg-Reported _ s
  run_request-Reported (unmask_irq ts) (some d) s =
      finish_irq-Reported _ (Interrupt.irq_unmask io_text d backend ts) s (λ v. tt)
  run_request-Reported (wait_irq now timeout_ms out ps) none s = refuse_arg-Reported _ s
  run_request-Reported (wait_irq now timeout_ms out ps) (some d) s =
      finish_irq-Reported (irq_reply out)
        (Interrupt.irq_wait io_text d backend (deadline_of now timeout_ms) ps) s answered
    where
      answered : (o : Option ℕ) → IsSuccess (irq_reply out o).status
      answered none = tt
      answered (some count) = tt
