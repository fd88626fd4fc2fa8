-- ===== src/CommandLine/Returns.antt =====
-- A run of the command line on the hardware (src/main.rs) gives back what it takes.
use mmreg.CommandLine.Hardware.{
  target_builder, open_target, hardware_read, hardware_write, hardware,
}
use mmreg.CommandLine.Keeps.{run_cli-keeps}
use mmreg.CommandLine.Run.{run_cli}
use mmreg.CommandLine.{CliTarget}
use mmreg.Device.{LockFiles, World, read, write}
use mmreg.Error.{MmregError}
use mmreg.Memory.{Width, Mapper}
use mmreg.Opening.Build.{Setting, once, use_device, open_device}
use mmreg.Opening.Balance.{Level, open_device-Holds, Level-of, Level-log}
use mmreg.Opening.Ledger.{
  IsBalanced, level, Holds, nothing, IsBalanced-of, Leaves, Leaves-fail, Leaves-bind, Leaves-done,
  resources,
}
use mmreg.Opening.Steps.{close-Holds}
use mmreg.Opening.{OpenWorld, OpenLog, DeviceBuilder, Opened, ◌>>=◌}
use mmreg.Prelude.{ℕ, Bool, true, false, List, [], Text, Result, ok, err}

module _ {Mem : Type 0} (e : Setting Mem) (l : OpenLog) where
  open_target-Holds :
      (target : CliTarget) (width : Width) (ro force : Bool) (w : OpenWorld Mem)
      → Holds l [] w.log
      → Leaves
          (Holds l [])
          (λ (q : Opened × ℕ). Holds l (resources q.0))
          (open_target e target width ro force w)
  unfolding open_target
  open_target-Holds target width ro force w h = go (target_builder target width)
    where
      go :
          (r : Result MmregError (DeviceBuilder × ℕ))
          → Leaves {Mem = Mem}
              (Holds l [])
              (λ (q : Opened × ℕ). Holds l (resources q.0))
              (elim r as (λ x. Result MmregError (Opened × ℕ) × OpenWorld Mem) [
                | err x ↦ (err x, w)
                | ok (b, offset) ↦
                    (open_device e (record b { read_only = ro; force_map = force }) >>= λ o v.
                    (ok (o, offset), v))
                      w
              ])
      go (err x) = Leaves-fail _ (λ (q : Opened × ℕ). Holds l (resources q.0)) x w h
      go (ok (b, offset)) =
          Leaves-bind (Holds l []) (λ o. Holds l (resources o)) _ _ _ w
            (open_device-Holds e l (record b { read_only = ro; force_map = force }) w h)
            (λ o v g. Leaves-done _ (λ (q : Opened × ℕ). Holds l (resources q.0)) (o, offset) v g)

  -- A call of a target that is then dropped.
  target-Holds :
      {A : Type 0} (target : CliTarget) (width : Width) (ro force : Bool)
      (run : Opened × ℕ → Mapper Mem → LockFiles → World Mem → Result MmregError A × World Mem)
      (w : OpenWorld Mem)
      → Holds l [] w.log
      → Holds l [] ((open_target e target width ro force >>= λ q. once e q.0 (run q)) w).1.log
  unfolding Leaves Level
  target-Holds target width ro force run w h =
      Level-log e l ((open_target e target width ro force >>= λ q. once e q.0 (run q)) w) (
        Leaves-bind (Holds l []) (λ (q : Opened × ℕ). Holds l (resources q.0)) (λ _. Holds l []) _ _
          w (open_target-Holds target width ro force w h)
          (λ q v g.
            Level-of e l (once e q.0 (run q) v)
              (close-Holds e q.0 (use_device e q.0 (run q) v).1 g)))

-- Whatever its arguments are, a run of the command line has at its end given back every mapping and
-- every power setting that it took for its accesses and for the checks of its profiles.
pub run_cli-IsBalanced :
    {Mem : Type 0} (e : Setting Mem) (read_to_string : Text → Result Text Text) (args : List Text)
    (w : OpenWorld Mem)
    → IsBalanced w.log (run_cli read_to_string (hardware e) args w).1.log
unfolding hardware_read hardware_write
run_cli-IsBalanced e read_to_string args w = IsBalanced-of (
    run_cli-keeps (λ v. Holds w.log [] v.log) read_to_string (hardware e)
      (λ t width f s h.
        target-Holds e w.log t width true f
          (λ q m files. read e.platform files m q.0.device q.1 width) s h)
      (λ t width v f s h.
        target-Holds e w.log t width false f
          (λ q m files. write e.platform files m q.0.device q.1 width v) s h)
      args w (nothing level))
