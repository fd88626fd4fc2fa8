-- ===== src/Opening/Steps.antt =====
-- What each step of opening a window holds: src/device.rs (`DeviceBuilder::open`), src/memregs.rs
-- (`OsMapper::map`), src/memcheck.rs (`RuntimePmGuard`).
use mmreg.Opening.Ledger.{
  Holds, Holds-take, Holds-drop, Leaves, Leaves-bind, Leaves-on_error, Leaves-done, Leaves-lift,
  Leaves-call, guard_list, resources,
}
use mmreg.Error.{MmregError}
use mmreg.Memory.{MapperType, auto, dev_mem, uio}
use mmreg.Opening.Build.{
  Setting, Window, window, guard_power, restore, map_with, lock_path, open_lock, opened, install,
  open_window, close,
}
use mmreg.Opening.Mapping.{map_devmem, map_uio, os_map_kind, os_map, is_on, acquire_power}
use mmreg.Opening.Resolve.{Target, resolve}
use mmreg.Opening.{
  DeviceBuilder, Backend, os, custom, Resource, mapping, power, OpenLog, OpenWorld, pure, take,
  drop, Opened,
}
use mmreg.Strings.{trim}
use mmreg.Prelude.{
  ℕ, Bool, true, false, not, List, [], ◌∷◌, Option, none, some, if◌then◌else◌, Text, Result, ok,
  err,
}

module _ {Mem : Type 0} (e : Setting Mem) where
  restore-Holds :
      {l : OpenLog} (g : Option Text) (w : OpenWorld Mem)
      → Holds l (guard_list g) w.log
      → Holds l [] (restore e g w).log
  restore-Holds none w h = h
  restore-Holds (some owner) w h = Holds-drop h

  pub close-Holds :
      {l : OpenLog} (o : Opened) (w : OpenWorld Mem)
      → Holds l (resources o) w.log
      → Holds l [] (close e o w).log
  close-Holds o w h = restore-Holds o.guard (drop (mapping o.backend) w) (Holds-drop h)

  map_devmem-keeps :
      (I : OpenLog → Type 0) (debug : Bool) (address size : ℕ) (ro : Bool) (w : OpenWorld Mem)
      → I w.log
      → Leaves I
          (λ _. I)
          (map_devmem e.platform e.region_text e.regions e.os e.debug debug address size ro w)
  map_devmem-keeps I false address size ro w h = Leaves-lift I (err _) w h
  map_devmem-keeps I true address size ro w h =
      Leaves-bind I (λ _. I) _ _ _ w (Leaves-call I _ _ w h) (λ _ v g. Leaves-call I _ _ v g)

  map_uio-keeps :
      (I : OpenLog → Type 0) (path : Text) (index address size : ℕ) (ro : Bool) (w : OpenWorld Mem)
      → I w.log
      → Leaves I
          (λ _. I)
          (map_uio e.platform e.region_text e.regions e.os e.debug path index address size ro w)
  unfolding map_uio
  map_uio-keeps I path index address size ro w h =
      Leaves-bind I (λ _. I) _ _ _ w (Leaves-lift I _ w h)
        λ off v g.
          Leaves-bind I (λ _. I) _ _ _ v (Leaves-call I _ _ v g) λ _ u k. Leaves-call I _ _ u k

  os_map_kind-keeps :
      (I : OpenLog → Type 0) (kind : MapperType) (ro : Bool) (address size : ℕ) (w : OpenWorld Mem)
      → I w.log
      → Leaves I
          (λ _. I)
          (os_map_kind e.platform e.region_text e.regions e.os e.debug kind ro address size w)
  os_map_kind-keeps I auto ro address size w h = map_devmem-keeps I e.debug address size ro w h
  os_map_kind-keeps I dev_mem ro address size w h = map_devmem-keeps I e.debug address size ro w h
  os_map_kind-keeps I (uio path index) ro address size w h =
      map_uio-keeps I path index address size ro w h

  module _ (l : OpenLog) where
    os_map-Holds :
        (rs : List Resource) (kind : MapperType) (ro : Bool) (address size : ℕ) (w : OpenWorld Mem)
        → Holds l rs w.log
        → Leaves
            (Holds l rs)
            (λ b. Holds l (mapping b ∷ rs))
            (os_map e.platform e.region_text e.regions e.os e.debug kind ro address size w)
    unfolding os_map
    os_map-Holds rs kind ro address size w h =
        Leaves-bind (Holds l rs) (λ _. Holds l rs) _ _ _ w
          (os_map_kind-keeps (Holds l rs) kind ro address size w h)
          (λ _ v g.
            Leaves-done _ _ (os kind) (take (mapping (os kind)) v)
              (Holds-take (mapping (os kind)) g))

    map_with-Holds :
        (rs : List Resource) (has_custom ro : Bool) (win : Window) (kind : MapperType)
        (w : OpenWorld Mem)
        → Holds l rs w.log
        → Leaves (Holds l rs) (λ b. Holds l (mapping b ∷ rs)) (map_with e has_custom ro win kind w)
    unfolding map_with Leaves
    map_with-Holds rs true ro win kind w h =
        go (e.os.custom_map_error w.log win.base_address win.size)
      where
        go :
            (o : Option MmregError)
            → Leaves
                (Holds l rs)
                (λ b. Holds l (mapping b ∷ rs))
                (elim o as (λ x. Result MmregError Backend × OpenWorld Mem) [
                  | some x ↦ (err x, w)
                  | none ↦ (ok custom, take (mapping custom) w)
                ])
        go none = Holds-take (mapping custom) h
        go (some x) = h
    map_with-Holds rs false ro win kind w h = os_map-Holds rs kind ro win.base_address win.size w h

    open_lock-keeps :
        (I : OpenLog → Type 0) (o : Option Text) (w : OpenWorld Mem)
        → I w.log
        → Leaves I (λ _. I) (open_lock e o w)
    unfolding Leaves
    open_lock-keeps I none w h = h
    open_lock-keeps I (some path) w h = go (e.os.lock_error w.log path)
      where
        go :
            (o : Option MmregError)
            → Leaves I
                (λ _. I)
                (elim o as (λ x. Result MmregError (Unit {0}) × OpenWorld Mem) [
                  | some x ↦ (err x, w)
                  | none ↦ (ok tt, w)
                ])
        go none = h
        go (some x) = h

    install-Holds :
        (b : DeviceBuilder) (win : Window) (target : Target) (pm : Option Text × List Text)
        (w : OpenWorld Mem)
        → Holds l (guard_list pm.0) w.log
        → Leaves (Holds l []) (λ o. Holds l (resources o)) (install e b win target pm w)
    unfolding install
    install-Holds b win target pm w h =
        Leaves-bind (Holds l []) (λ k. Holds l (mapping k ∷ guard_list pm.0)) _ _ _ w
          (Leaves-on_error (Holds l (guard_list pm.0)) (Holds l []) _ _ _ w
            (map_with-Holds (guard_list pm.0) b.custom_mapper b.read_only win target.mapper w h)
            (restore-Holds pm.0))
          λ k v g.
            Leaves-bind (Holds l []) (λ _. Holds l (mapping k ∷ guard_list pm.0)) _ _ _ v
              (Leaves-on_error (Holds l (mapping k ∷ guard_list pm.0)) (Holds l []) _ _ _ v
                (open_lock-keeps (Holds l (mapping k ∷ guard_list pm.0))
                  (lock_path e b.custom_mapper target.mapper) v g)
                (λ u i. restore-Holds pm.0 (drop (mapping k) u) (Holds-drop i)))
              λ _ u i. Leaves-done _ _ (opened e b win target pm k) u i

    acquire_power-Holds :
        (path : Text) (w : OpenWorld Mem)
        → Holds l [] w.log
        → Leaves
            (Holds l [])
            (λ (pm : Option Text × List Text). Holds l (guard_list pm.0))
            (acquire_power e.os e.warning path w)
    unfolding acquire_power Leaves
    acquire_power-Holds path w h = go (e.os.power_control w.log path)
      where
        Result_of : Type 0
        Result_of = Result MmregError (Option Text × List Text) × OpenWorld Mem

        P : Option Text × List Text → OpenLog → Type 0
        P pm = Holds l (guard_list pm.0)

        written :
            (o : Option Text)
            → Leaves {Mem = Mem} (Holds l []) P (elim o as (λ x. Result_of) [
              | none ↦ (ok (some path, []), take (power path) w)
              | some x ↦ (ok (none, e.warning path x ∷ []), w)
            ])
        written none = Holds-take (power path) h
        written (some x) = h

        kept :
            (b : Bool) (q : Result_of)
            → Leaves {Mem = Mem} (Holds l []) P q
            → Leaves {Mem = Mem} (Holds l []) P (if b then (ok (none, []), w) else q)
        kept true q g = h
        kept false q g = g

        go :
            (o : Option Text)
            → Leaves {Mem = Mem} (Holds l []) P (elim o as (λ x. Result_of) [
              | none ↦ (ok (none, []), w)
              | some setting ↦
                  if is_on (trim setting)
                  then (ok (none, []), w)
                  else (elim (e.os.power_error w.log path) [
                    | none ↦ (ok (some path, []), take (power path) w)
                    | some x ↦ (ok (none, e.warning path x ∷ []), w)
                  ])
            ])
        go none = h
        go (some setting) = kept (is_on (trim setting)) _ (written (e.os.power_error w.log path))

    guard_power-Holds :
        (has_custom : Bool) (kind : MapperType) (owner : Option Text) (w : OpenWorld Mem)
        → Holds l [] w.log
        → Leaves
            (Holds l [])
            (λ (pm : Option Text × List Text). Holds l (guard_list pm.0))
            (guard_power e has_custom kind owner w)
    unfolding Leaves
    guard_power-Holds false dev_mem (some owner) w h = go e.debug
      where
        go :
            (b : Bool)
            → Leaves {Mem = Mem}
                (Holds l [])
                (λ (pm : Option Text × List Text). Holds l (guard_list pm.0))
                ((if b then acquire_power e.os e.warning owner else pure (none, [])) w)
        go true = acquire_power-Holds owner w h
        go false = h
    guard_power-Holds false dev_mem none w h = h
    guard_power-Holds false auto owner w h = h
    guard_power-Holds false (uio path index) owner w h = h
    guard_power-Holds true kind owner w h = h

    pub open_window-Holds :
        (b : DeviceBuilder) (w : OpenWorld Mem)
        → Holds l [] w.log
        → Leaves (Holds l []) (λ o. Holds l (resources o)) (open_window e b w)
    unfolding open_window
    open_window-Holds b w h =
        Leaves-bind (Holds l []) (λ _. Holds l []) _ _ _ w
          (Leaves-lift (Holds l []) (window e b b.spec) w h)
          λ win v g.
            Leaves-bind (Holds l []) (λ _. Holds l []) _ _ _ v
              (Leaves-lift (Holds l [])
                (resolve e.sysfs win.base_address win.size win.mapper_type (not b.force_map)) v g)
              λ target u k.
                Leaves-bind (Holds l []) (λ pm. Holds l (guard_list pm.0)) _ _
                  (install e b win target) u
                  (guard_power-Holds b.custom_mapper target.mapper target.owner u k)
                  (λ pm t i. install-Holds b win target pm t i)
