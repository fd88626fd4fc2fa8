-- ===== src/Opening/Balance.antt =====
-- What opening a window leaves behind: src/device.rs (`DeviceBuilder::open`), src/lib.rs.
use mmreg.Opening.Ledger.{
  IsBalanced, level, Holds, nothing, IsBalanced-of, Leaves, Leaves-bind, resources,
}
use mmreg.Opening.Steps.{close-Holds, open_window-Holds}
use mmreg.Device.{LockFiles, World, read_narrow, write}
use mmreg.Error.{MmregError}
use mmreg.Memory.{u32, Mapper}
use mmreg.Opening.Build.{
  Setting, open_window, close, use_device, once, word_at, read_register_at, write_register_at,
  run_profile, open_device,
}
use mmreg.Opening.{DeviceBuilder, OpenLog, OpenWorld, Action, ◌>>=◌, lift, Opened}
use mmreg.Validation.Execute.{run_checks-keeps}
use mmreg.Validation.{SafetyProfile, execute_with}
use mmreg.Prelude.{
  ℕ, ◌%◌, Bool, true, false, not, [], Option, none, some, ◌==◌, if◌then◌else◌, Result, ok, err,
}

module _ {Mem : Type 0} (e : Setting Mem) where
  module _ (l : OpenLog) where
    -- A call that holds nothing after it, whatever it returns.
    unfoldable pub Level : {A : Type 0} → Result MmregError A × OpenWorld Mem → Type 0
    Level q = Leaves (Holds l []) (λ _. Holds l []) q

    pub Level-log :
        {A : Type 0} (q : Result MmregError A × OpenWorld Mem) → Level q → Holds l [] q.1.log
    unfolding Level Leaves
    Level-log (ok a, v) h = h
    Level-log (err x, v) h = h

    pub Level-of :
        {A : Type 0} (q : Result MmregError A × OpenWorld Mem) → Holds l [] q.1.log → Level q
    unfolding Level Leaves
    Level-of (ok a, v) h = h
    Level-of (err x, v) h = h

    once-Level :
        {A : Type 0} (b : DeviceBuilder)
        (run : Opened → Mapper Mem → LockFiles → World Mem → Result MmregError A × World Mem)
        (w : OpenWorld Mem)
        → Holds l [] w.log
        → Level ((open_window e b >>= λ o. once e o (run o)) w)
    unfolding Level
    once-Level b run w h =
        Leaves-bind (Holds l []) (λ o. Holds l (resources o)) (λ _. Holds l []) (open_window e b) _
          w (open_window-Holds e l b w h)
          (λ o v g. Level-of (once e o (run o) v) (close-Holds e o (use_device e o (run o) v).1 g))

    unless-Level :
        {A : Type 0} (c : Bool) (x : MmregError) (m : Action Mem A) (w : OpenWorld Mem)
        → Holds l [] w.log
        → Level (m w)
        → Level ((if c then lift (err x) else m) w)
    unfolding Level Leaves
    unless-Level true x m w h g = h
    unless-Level false x m w h g = g

    read_register_at-Level :
        (force : Bool) (address : ℕ) (w : OpenWorld Mem)
        → Holds l [] w.log
        → Level (read_register_at e force address w)
    unfolding read_register_at
    read_register_at-Level force address w h = unless-Level (not (address % 4 == 0)) _ _ w h (
        once-Level (word_at e address true force)
          (λ o m files. read_narrow e.platform files m o.device u32 0) w h)

    write_register_at-Level :
        (force : Bool) (address value : ℕ) (w : OpenWorld Mem)
        → Holds l [] w.log
        → Level (write_register_at e force address value w)
    unfolding write_register_at
    write_register_at-Level force address value w h =
        unless-Level (not (address % 4 == 0)) _ _ w h (
          once-Level (word_at e address false force)
            (λ o m files. write e.platform files m o.device 0 u32 value) w h)

    pub run_profile-Holds :
        (o : Option SafetyProfile) (w : OpenWorld Mem)
        → Holds l [] w.log
        → Holds l [] (run_profile e o w).1.log
    unfolding run_profile execute_with
    run_profile-Holds none w h = h
    run_profile-Holds (some profile) w h =
        run_checks-keeps (λ (v : OpenWorld Mem). Holds l [] v.log) (read_register_at e true)
          profile.name
          (λ a v g. Level-log (read_register_at e true a v) (read_register_at-Level true a v g))
          profile.checks w h

    pub open_device-Holds :
        (b : DeviceBuilder) (w : OpenWorld Mem)
        → Holds l [] w.log
        → Leaves (Holds l []) (λ o. Holds l (resources o)) (open_device e b w)
    unfolding open_device Leaves Level
    open_device-Holds b w h =
        Leaves-bind (Holds l []) (λ _. Holds l []) _ (run_profile e b.safety_profile) _ w
          (Level-of (run_profile e b.safety_profile w) (run_profile-Holds b.safety_profile w h))
          (λ _ v g. open_window-Holds e l b v g)

  -- What a call of `open_device` holds: nothing after an error; after a success what the device
  -- holds, and nothing once it is dropped.
  abbrev pub Owns : OpenLog → Result MmregError Opened × OpenWorld Mem → Type 0
  Owns l (ok o, w) = Holds l (resources o) w.log × IsBalanced l (close e o w).log
  Owns l (err x, w) = IsBalanced l w.log

  -- An `open_device` that fails, in a check of the profile, in resolving its target, in mapping or in
  -- opening the lock, has dropped every mapping and restored every power setting that it took. One
  -- that succeeds holds the device's mapping and, if it took one, its power setting, and dropping
  -- the device gives both back, the mapping first.
  pub open_device-Owns : (b : DeviceBuilder) (w : OpenWorld Mem) → Owns w.log (open_device e b w)
  unfolding Leaves
  open_device-Owns b w = go (open_device e b w) (open_device-Holds w.log b w (nothing level))
    where
      go :
          (q : Result MmregError Opened × OpenWorld Mem)
          → Leaves (Holds w.log []) (λ o. Holds w.log (resources o)) q
          → Owns w.log q
      go (ok o, v) h = (h, IsBalanced-of (close-Holds e o v h))
      go (err x, v) h = IsBalanced-of h

  -- The one-shot functions give back all that they take, whether they succeed or fail.
  pub register_at-IsBalanced :
      (force : Bool) (address value : ℕ) (w : OpenWorld Mem)
      → IsBalanced w.log (read_register_at e force address w).1.log
        × IsBalanced w.log (write_register_at e force address value w).1.log
  register_at-IsBalanced force address value w = (
    IsBalanced-of
        (Level-log w.log _ (read_register_at-Level w.log force address w (nothing level))),
    IsBalanced-of
        (Level-log w.log _ (write_register_at-Level w.log force address value w (nothing level))),
  )
