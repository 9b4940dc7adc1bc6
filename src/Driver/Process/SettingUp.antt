-- ===== src/Driver/Process/SettingUp.antt =====
-- The driver's part of setting up the process of a volume.
use example_docker_volume_pl.Common.{ℕ, refl, List, Outcome, ok, err, panic}
use example_docker_volume_pl.Common.State.Ends.{Ends, Leads}
use example_docker_volume_pl.Common.Text.{Str}
use example_docker_volume_pl.Common.Map.{Map}
use example_docker_volume_pl.Os.{Os}
use example_docker_volume_pl.Driver.{Volume, Library, Driver, Error, mount_point}
use example_docker_volume_pl.Driver.Handlers.{set_up}
use example_docker_volume_pl.Driver.Process.{Setup, setup_process}
use example_docker_volume_pl.Driver.Process.Frame.{Same, setup_process-I}
use example_docker_volume_pl.Driver.Saving.{Holds}

module _ (os : Os) (lib : Library) (btime : ℕ) where
  open os use {World}

  -- Setting up the process of a volume changes no other volume and no table, and of the volume itself
  -- the cached mount point and the process only.
  pub set_up-Leads :
      (folder : Str) (volumes : Map Volume) (tables : List (Map ℕ)) (v : Volume)
      → Leads
          (Holds folder volumes tables)
          (λ w t. Same v w × Holds folder volumes tables t)
          (Holds folder volumes tables)
          (set_up os lib btime v)
  unfolding set_up
  set_up-Leads folder volumes tables v s h =
      ended
        (setup_process os btime (mount_point os lib) (record { volume = v; outside = s.outside })).0
        (setup_process os btime (mount_point os lib) (record { volume = v; outside = s.outside })).1
        (setup_process-I os btime (mount_point os lib) v
          (record { volume = v; outside = s.outside }) (refl, refl, refl, refl, refl))
    where
      ended :
          (r : Outcome Error (Unit {0})) (t : Setup World)
          → Same v t.volume
          → let s' : Driver World = record s { outside = t.outside } in
            let u : Outcome Error Volume × Driver World = elim r [
              | panic ↦ (panic, s')
              | ok _ ↦ (ok t.volume, s')
              | err _ ↦ (ok t.volume, s')
            ] in
            Ends
              (λ w t. Same v w × Holds folder volumes tables t)
              (Holds folder volumes tables)
              u.0
              u.1
      ended (ok _) t m = (m, h)
      ended (err _) t m = (m, h)
      ended panic t m = h
