-- ===== src/Preflight/Checks/Healthy.antt =====
-- When a device passes the pre-flight checks (src/memcheck.rs, `preflight_check_device`).
use mathlib.Core.Path.{subst}
use mmreg.Error.{
  MmregError, zombie_dt_status, zombie_runtime_pm, zombie_supplier_pm, zombie_fpga_state,
}
use mmreg.Preflight.Checks.{
  bad_runtime_pm, is_bad_status, is_usable_status, status_of, is_supplier_link,
  is_fpga_backed_device, check_dt_status, check_runtime_pm, check_supplier, supplier_pm_path,
  check_fpga_manager, check_fpga_manager_operating, check_fpga, state_path, preflight_check_device,
}
use mmreg.Preflight.Checks.Passing.{
  Passes, IfReadable, OfEntries, Passes-then, IfReadable-iff, file_check, guarded,
  for_entries-OfEntries, Passes-keep,
}
use mmreg.Preflight.Checks.Texts.{
  Spells, eq_ignore_case_iff, is_usable_status_iff, is_bad_status_iff,
}
use mmreg.Preflight.Clocks.Gated.{HasGatedClock, Refuses, check_clk_summary-Refuses}
use mmreg.Preflight.Clocks.{check_device_clocks, check_clk_summary, dt_clock_names, warn_counts}
use mmreg.Preflight.{FileSystem, join, eq_ignore_case}
use mmreg.Prelude.{
  Bool, true, false, List, [], Option, none, some, if◌then◌else◌, Text, codes, Result, ok, err, ◌≡◌,
  ◌⊎◌, ◌↔◌, inl, inr, refl, sym, ◌∙◌, some-eq, none-ne-some, err-ne-ok,
}
use mmreg.Strings.{trim}

module _ (fs : FileSystem) where
  -- Not suspended, suspending or failed.
  abbrev pub IsAwake : Text → Type 0
  IsAwake pm_path = IfReadable fs pm_path λ raw.
      (Spells (trim raw) (codes "suspended") → ⊥)
      × (Spells (trim raw) (codes "suspending") → ⊥)
      × (Spells (trim raw) (codes "error") → ⊥)

  -- A status that is absent, blank, or one of two words.
  abbrev pub IsEnabled : Text → Type 0
  IsEnabled raw =
      (status_of raw ≡ [])
      ⊎ Spells (status_of raw) (codes "okay")
      ⊎ Spells (status_of raw) (codes "ok")

  -- Every clock of the device in the summary of the clock framework is on.
  abbrev pub HasClocks : Text → Text → Type 0
  HasClocks dev_name dev_path =
      fs.exists (codes "/sys/kernel/debug/clk") ≡ true
      → (lines : List Text)
      → fs.lines (join (codes "/sys/kernel/debug/clk") (codes "clk_summary")) ≡ some lines
      → HasGatedClock dev_name (dt_clock_names fs dev_path) lines
      → ⊥

  -- A device that may be touched: enabled in the Device Tree, awake, with suppliers that are awake,
  -- with clocks that run, and if it is on an FPGA, with FPGA managers that all operate.
  abbrev pub IsHealthy : Text → Text → Text → Type 0
  IsHealthy dev_name dev_path fpga_mgr_root =
      IfReadable fs (join dev_path (codes "of_node/status")) IsEnabled
      × IsAwake (join dev_path (codes "power/runtime_status"))
      × OfEntries fs dev_path (λ name.
        is_supplier_link name ≡ true → IsAwake (supplier_pm_path fs dev_name dev_path name))
      × HasClocks dev_name dev_path
      × (is_fpga_backed_device fs dev_path ≡ true
          → OfEntries fs fpga_mgr_root (λ name.
            IfReadable fs (state_path fs dev_name fpga_mgr_root name)
              (λ raw. Spells (trim raw) (codes "operating"))))

  bad_runtime_pm-IfReadable :
      (path : Text) (e : Text → MmregError)
      → Passes (elim (bad_runtime_pm fs path) [ none ↦ ok tt | some status ↦ err (e status) ])
        ↔ IfReadable fs path (λ raw. is_bad_status (trim raw) ≡ false)
  unfolding bad_runtime_pm
  bad_runtime_pm-IfReadable path e = go (fs.read_to_string path) refl
    where
      judge : Option Text → Result MmregError (Unit {0})
      judge o = elim o [ none ↦ ok tt | some status ↦ err (e status) ]

      awake :
          (raw : Text) (b : Bool)
          → is_bad_status (trim raw) ≡ b
          → Passes (judge (if b then some (trim raw) else none))
            ↔ (is_bad_status (trim raw) ≡ false)
      awake raw true h = (λ (a, k). absurd (err-ne-ok k), λ k. cc)
      awake raw false h = (λ _. h, λ _. (tt, refl))

      go :
          (o : Option Text)
          → fs.read_to_string path ≡ o
          → Passes (
              judge (elim o [
                | none ↦ none
                | some raw ↦ if is_bad_status (trim raw) then some (trim raw) else none
              ]))
            ↔ IfReadable fs path (λ raw. is_bad_status (trim raw) ≡ false)
      go none h = (λ _ raw k. absurd (none-ne-some (sym h ∙ k)), λ _. (tt, refl))
      go (some raw) h =
          let here = awake raw (is_bad_status (trim raw)) refl in
          (
            λ p other k.
                subst (λ t. is_bad_status (trim t) ≡ false) (some-eq (sym h ∙ k)) (here.0 p),
            λ p. here.1 (p raw h),
          )

  bad_runtime_pm-IsAwake :
      (path : Text) (e : Text → MmregError)
      → Passes (elim (bad_runtime_pm fs path) [ none ↦ ok tt | some status ↦ err (e status) ])
        ↔ IsAwake path
  bad_runtime_pm-IsAwake path e =
      IfReadable-iff fs path (bad_runtime_pm-IfReadable path e)
        (λ raw. is_bad_status_iff (trim raw))

  Refuses-Passes :
      {Q : Type 0} (dev_name : Text) (names : List Text) (path : Text)
      (r : Result MmregError (List Text))
      → Refuses dev_name names path Q r
      → Passes r ↔ (Q → ⊥)
  Refuses-Passes dev_name names path r (inl (q, clk, h)) =
      (λ (a, k). absurd (err-ne-ok (sym h ∙ k)), λ nq. absurd (nq q))
  Refuses-Passes dev_name names path r (inr (nq, warnings, h)) = (λ _. nq, λ _. (warnings, h))

  clocks-HasClocks :
      (dev_name dev_path : Text) (warnings : List Text)
      → Passes (check_device_clocks dev_name fs dev_path (codes "/sys/kernel/debug/clk") warnings)
        ↔ HasClocks dev_name dev_path
  unfolding check_device_clocks
  clocks-HasClocks dev_name dev_path warnings =
      go (fs.exists root) refl (fs.lines (join root (codes "clk_summary"))) refl
    where
      root : Text
      root = codes "/sys/kernel/debug/clk"

      names : List Text
      names = dt_clock_names fs dev_path

      path : Text
      path = join root (codes "clk_summary")

      judged : Option (List Text) → Result MmregError (List Text)
      judged o = elim o [
        | some lines ↦ check_clk_summary dev_name names path warnings lines
        | none ↦ ok (warn_counts dev_name fs root names warnings)
      ]

      go :
          (mounted : Bool)
          → fs.exists root ≡ mounted
          → (o : Option (List Text)) → fs.lines path ≡ o
          → Passes (if mounted then judged o else ok warnings) ↔ HasClocks dev_name dev_path
      go false h o k = (λ _ e. cc, λ _. (warnings, refl))
      go true h none k = (
        λ _ _ lines l. absurd (none-ne-some (sym k ∙ l)),
        λ _. (warn_counts dev_name fs root names warnings, refl),
      )
      go true h (some lines) k =
          let here =
            Refuses-Passes dev_name names path
              (check_clk_summary dev_name names path warnings lines)
              (check_clk_summary-Refuses dev_name names path warnings lines) in
          (
            λ p _ other l.
                subst (λ t. HasGatedClock dev_name names t → ⊥) (some-eq (sym k ∙ l)) (here.0 p),
            λ p. here.1 (p h lines k),
          )

  check_supplier-IsAwake :
      (dev_name dev_path name : Text)
      → Passes (check_supplier fs dev_name dev_path name)
        ↔ (is_supplier_link name ≡ true → IsAwake (supplier_pm_path fs dev_name dev_path name))
  unfolding check_supplier
  check_supplier-IsAwake dev_name dev_path name = guarded fs (is_supplier_link name) _ (
      bad_runtime_pm-IsAwake (supplier_pm_path fs dev_name dev_path name) (λ status.
        zombie_supplier_pm dev_name name status (supplier_pm_path fs dev_name dev_path name)))

  check_runtime_pm-IsAwake :
      (dev_name dev_path : Text)
      → Passes (check_runtime_pm fs dev_name dev_path)
        ↔ IsAwake (join dev_path (codes "power/runtime_status"))
  unfolding check_runtime_pm
  check_runtime_pm-IsAwake dev_name dev_path =
      bad_runtime_pm-IsAwake (join dev_path (codes "power/runtime_status")) (λ status.
        zombie_runtime_pm dev_name status (join dev_path (codes "power/runtime_status")) dev_path)

  check_dt_status-IfReadable :
      (dev_name dev_path : Text)
      → Passes (check_dt_status fs dev_name dev_path)
        ↔ IfReadable fs (join dev_path (codes "of_node/status")) IsEnabled
  unfolding check_dt_status
  check_dt_status-IfReadable dev_name dev_path =
      let path = join dev_path (codes "of_node/status") in
      IfReadable-iff fs path
        (file_check fs path (λ raw. is_usable_status (status_of raw))
          (λ raw. zombie_dt_status dev_name (status_of raw) path))
        (λ raw. is_usable_status_iff (status_of raw))

  check_fpga-OfEntries :
      (dev_name dev_path mgr : Text)
      → Passes (check_fpga fs dev_name dev_path mgr) ↔ (
          is_fpga_backed_device fs dev_path ≡ true
          → OfEntries fs mgr (λ name.
            IfReadable fs
              (state_path fs dev_name mgr name)
              (λ raw. Spells (trim raw) (codes "operating"))))
  unfolding check_fpga check_fpga_manager_operating check_fpga_manager
  check_fpga-OfEntries dev_name dev_path mgr = guarded fs (is_fpga_backed_device fs dev_path) _ (
      for_entries-OfEntries fs dev_name mgr (check_fpga_manager fs dev_name mgr) _ (λ name.
        IfReadable-iff fs (state_path fs dev_name mgr name)
          (file_check fs (state_path fs dev_name mgr name)
            (λ raw. eq_ignore_case (trim raw) (codes "operating"))
            (λ raw. zombie_fpga_state dev_name name (trim raw) (state_path fs dev_name mgr name)))
          (λ raw. eq_ignore_case_iff (trim raw) (codes "operating"))))

  -- The pre-flight checks pass exactly for a device that is enabled in the Device Tree and awake,
  -- whose suppliers are awake, of whose clocks none is gated in the clock summary, and that either is
  -- not on an FPGA or has only FPGA managers that operate. A file or a directory that cannot be read
  -- stands in no way.
  pub preflight_check_device_iff :
      (dev_name dev_path fpga_mgr_root : Text) (warnings : List Text)
      → Passes (preflight_check_device fs dev_name dev_path fpga_mgr_root warnings)
        ↔ IsHealthy dev_name dev_path fpga_mgr_root
  unfolding preflight_check_device
  preflight_check_device_iff dev_name dev_path mgr warnings = regroup (
      Passes-then fs _ _ (check_dt_status-IfReadable dev_name dev_path) (
        Passes-then fs _ _ (check_runtime_pm-IsAwake dev_name dev_path) (
          Passes-then fs _ _
            (for_entries-OfEntries fs dev_name dev_path (check_supplier fs dev_name dev_path) _
              (check_supplier-IsAwake dev_name dev_path))
            (Passes-keep fs _ _ (clocks-HasClocks dev_name dev_path warnings)
              (check_fpga-OfEntries dev_name dev_path mgr)))))
    where
      regroup : {R A B C D E : Type 0} → (R ↔ (A × (B × (C × (D × E))))) → R ↔ (A × B × C × D × E)
      regroup f = (
        λ r. let (a, (b, (c, (d, e)))) = f.0 r in (a, b, c, d, e),
        λ (a, b, c, d, e). f.1 (a, (b, (c, (d, e)))),
      )
