-- ===== src/Preflight/Checks.antt =====
-- The pre-flight checks of a device: src/memcheck.rs (`preflight_check_device`,
-- `is_fpga_backed_device`, `bad_runtime_pm`, `check_fpga_manager_operating`).
pub mod Healthy
pub mod Texts
pub mod Passing
use mathlib.Core.List.{reverse}
use mmreg.Error.{
  MmregError, zombie_dt_status, zombie_runtime_pm, zombie_supplier_pm, zombie_fpga_state,
}
use mmreg.Iomem.{any_prefix}
use mmreg.Preflight.Clocks.{check_device_clocks}
use mmreg.Preflight.{FileSystem, join, components, any, eq_ignore_case, starts_with, contains_text}
use mmreg.Prelude.{
  ℕ, Bool, true, false, not, ◌||◌, ◌&&◌, List, [], ◌∷◌, Option, none, some, ◌==◌, if◌then◌else◌,
  Text, codes, text_eq, map, Result, ok, err, ◌>>=◌, ◌>>◌,
}
use mmreg.Strings.{trim, is_whitespace, to_lower}

-- `is_supplier_link`.
unfoldable pub is_supplier_link : Text → Bool
unfolding starts_with
is_supplier_link name = starts_with name (codes "supplier:") || starts_with name (codes "supplier_")

-- `FPGA_BUS_PREFIXES`.
abbrev pub fpga_bus_prefixes : List Text
fpga_bus_prefixes =
    codes "amba_pl"
    ∷ codes "axi_pl"
    ∷ codes "pl-bus"
    ∷ codes "fpga-region"
    ∷ codes "fpga_region"
    ∷ codes "fpga-full"
    ∷ codes "fpga-bus"
    ∷ []

-- `path_has_fpga_component`.
unfoldable pub path_has_fpga_component : Text → Bool
unfolding any components any_prefix
path_has_fpga_component p = any (λ s. any_prefix s fpga_bus_prefixes) (components p)

-- `Result::is_ok_and`, `Option::is_some_and`.
abbrev pub is_some_and {ℓ} : {A : Type ℓ} → Option A → (A → Bool) → Bool
is_some_and none p = false
is_some_and (some a) p = p a

unfoldable pub is_fpga_supplier : Text → Bool
unfolding is_supplier_link contains_text to_lower
is_fpga_supplier s = is_supplier_link s && contains_text (map to_lower s) (codes "fpga")

-- `is_fpga_backed_device`.
unfoldable pub is_fpga_backed_device : FileSystem → Text → Bool
unfolding path_has_fpga_component join any is_fpga_supplier
is_fpga_backed_device fs dev_path =
    path_has_fpga_component dev_path
    || is_some_and (fs.canonicalize dev_path) path_has_fpga_component
    || is_some_and (fs.canonicalize (join dev_path (codes "of_node"))) path_has_fpga_component
    || is_some_and (fs.read_dir dev_path) (any is_fpga_supplier)

abbrev pub bad_statuses : List Text
bad_statuses = codes "suspended" ∷ codes "suspending" ∷ codes "error" ∷ []

unfoldable pub is_bad_status : Text → Bool
unfolding any eq_ignore_case
is_bad_status status = any (eq_ignore_case status) bad_statuses

-- `bad_runtime_pm`.
unfoldable pub bad_runtime_pm : FileSystem → Text → Option Text
unfolding is_bad_status trim
bad_runtime_pm fs pm_path = elim (fs.read_to_string pm_path) [
  | none ↦ none
  | some raw ↦ if is_bad_status (trim raw) then some (trim raw) else none
]

unfoldable pub trim_start_matches : (ℕ → Bool) → Text → Text
trim_start_matches p [] = []
trim_start_matches p (c ∷ cs) = let rest = trim_start_matches p cs in if p c then rest else c ∷ cs

-- The status that a Device Tree property holds: without NUL and white space around it.
unfoldable pub status_of : Text → Text
unfolding trim_start_matches is_whitespace
status_of raw =
    let blank : ℕ → Bool = λ c. c == 0 || is_whitespace c in
    reverse (trim_start_matches blank (reverse (trim_start_matches blank raw)))

unfoldable pub is_usable_status : Text → Bool
unfolding text_eq eq_ignore_case
is_usable_status status =
    text_eq status [] || eq_ignore_case status (codes "okay") || eq_ignore_case status (codes "ok")

module _ (fs : FileSystem) (dev_name : Text) where
  -- The status in the Device Tree.
  unfoldable pub check_dt_status : Text → Result MmregError (Unit {0})
  unfolding join status_of is_usable_status
  check_dt_status dev_path =
      let status_path = join dev_path (codes "of_node/status") in
      elim (fs.read_to_string status_path) [
        | none ↦ ok tt
        | some raw ↦
            if is_usable_status (status_of raw)
            then ok tt
            else err (zombie_dt_status dev_name (status_of raw) status_path)
      ]

  -- Runtime power management of the device.
  unfoldable pub check_runtime_pm : Text → Result MmregError (Unit {0})
  unfolding join bad_runtime_pm
  check_runtime_pm dev_path =
      let pm_path = join dev_path (codes "power/runtime_status") in
      elim (bad_runtime_pm fs pm_path) [
        | none ↦ ok tt
        | some status ↦ err (zombie_runtime_pm dev_name status pm_path dev_path)
      ]

  -- Where the power status of a supplier link is.
  unfoldable pub supplier_pm_path : Text → Text → Text
  unfolding join
  supplier_pm_path dev_path name =
      let link = join dev_path name in
      let supplier = join link (codes "supplier") in
      join (if fs.exists supplier then supplier else link) (codes "power/runtime_status")

  unfoldable pub check_supplier : Text → Text → Result MmregError (Unit {0})
  unfolding bad_runtime_pm supplier_pm_path is_supplier_link
  check_supplier dev_path name =
      if is_supplier_link name
      then (elim (bad_runtime_pm fs (supplier_pm_path dev_path name)) [
        | none ↦ ok tt
        | some status ↦
            err (zombie_supplier_pm dev_name name status (supplier_pm_path dev_path name))
      ])
      else ok tt

  unfoldable pub for_each :
      (Text → Result MmregError (Unit {0})) → List Text → Result MmregError (Unit {0})
  for_each f [] = ok tt
  for_each f (name ∷ names) = f name >> for_each f names

  -- The entries of a directory, if it can be read.
  unfoldable pub for_entries :
      Text → (Text → Result MmregError (Unit {0})) → Result MmregError (Unit {0})
  unfolding for_each
  for_entries dir f = elim (fs.read_dir dir) [ none ↦ ok tt | some names ↦ for_each f names ]

  unfoldable pub state_path : Text → Text → Text
  unfolding join
  state_path fpga_mgr_root name = join (join fpga_mgr_root name) (codes "state")

  unfoldable pub check_fpga_manager : Text → Text → Result MmregError (Unit {0})
  unfolding state_path eq_ignore_case trim
  check_fpga_manager fpga_mgr_root name = elim (fs.read_to_string (state_path fpga_mgr_root name)) [
    | none ↦ ok tt
    | some state ↦
        if eq_ignore_case (trim state) (codes "operating")
        then ok tt
        else err (zombie_fpga_state dev_name name (trim state) (state_path fpga_mgr_root name))
  ]

  -- `check_fpga_manager_operating`.
  unfoldable pub check_fpga_manager_operating : Text → Result MmregError (Unit {0})
  unfolding for_entries check_fpga_manager
  check_fpga_manager_operating fpga_mgr_root =
      for_entries fpga_mgr_root (check_fpga_manager fpga_mgr_root)

  unfoldable pub check_fpga : Text → Text → Result MmregError (Unit {0})
  unfolding is_fpga_backed_device check_fpga_manager_operating
  check_fpga dev_path fpga_mgr_root =
      if is_fpga_backed_device fs dev_path
      then check_fpga_manager_operating fpga_mgr_root
      else ok tt

  -- `preflight_check_device`.
  unfoldable pub preflight_check_device : Text → Text → List Text → Result MmregError (List Text)
  unfolding check_dt_status check_runtime_pm check_supplier for_entries check_fpga
      check_device_clocks
  preflight_check_device dev_path fpga_mgr_root warnings = do
    check_dt_status dev_path
    check_runtime_pm dev_path
    for_entries dev_path (check_supplier dev_path)
    more ← check_device_clocks dev_name fs dev_path (codes "/sys/kernel/debug/clk") warnings
    check_fpga dev_path fpga_mgr_root
    ok more
