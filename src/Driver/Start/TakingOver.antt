-- ===== src/Driver/Start/TakingOver.antt =====
-- What the loop of `pluginDriver_NewWithVolumeProcess` makes of the volumes that it has loaded.
use example_docker_volume_pl.Common.{
  ℕ, ◌≡◌, refl, Option, none, some, List, [], ◌∷◌, Outcome, ok, err, panic,
}
use example_docker_volume_pl.Common.State.{◌>>=◌, ◌>>◌, of_outcome}
use example_docker_volume_pl.Common.State.Laws.{Keeps}
use example_docker_volume_pl.Common.State.Ends.{Ends, Leads, Keeps-Leads, >>=-Leads}
use example_docker_volume_pl.Common.Text.{Str}
use example_docker_volume_pl.Common.Map.{Map}
use example_docker_volume_pl.Os.{Os}
use example_docker_volume_pl.Utils.{User}
use example_docker_volume_pl.Driver.{Volume, Library, Driver, Error, on_world, mount_point}
use example_docker_volume_pl.Driver.Handlers.{set_up, mounts_of}
use example_docker_volume_pl.Driver.Process.Frame.{Same}
use example_docker_volume_pl.Driver.Process.SettingUp.{set_up-Leads}
use example_docker_volume_pl.Driver.Saving.{Holds}
use example_docker_volume_pl.Driver.Start.Steps.{user_of, then_set_up, then_access}
use example_docker_volume_pl.Driver.Start.{take_over, take_over_all, access_to}

-- The same names in the same order, each with the same volume but for its process.
abbrev pub SameAll : Map Volume → Map Volume → Type 0
SameAll [] [] = Unit {0}
SameAll [] (x ∷ ws) = ⊥
SameAll (x ∷ vs) [] = ⊥
SameAll ((n, v) ∷ vs) ((m, w) ∷ ws) = (n ≡ m) × Same v w × SameAll vs ws

module _ (os : Os) (lib : Library) (btime : ℕ) (folder : Str) (volumes : Map Volume)
    (tables : List (Map ℕ)) where
  open os use {World, lstat, current_user}

  abbrev H : Driver World → Type 0
  H = Holds folder volumes tables

  on_world-H : {A : Type 0} (f : World → A × World) → Keeps H (on_world f)
  on_world-H f s h = h

  of_outcome-H : {A : Type 0} (r : Outcome Error A) → Keeps H (of_outcome r)
  of_outcome-H r s h = h

  mounts_of-H : (v : Volume) → Keeps H (mounts_of v)
  unfolding mounts_of
  mounts_of-H v s h = cases v.mounts
    where
      cases :
          (o : Option ℕ)
          → let r : Outcome Error ℕ × Driver World = elim o [
            | none ↦ (panic, s)
            | some a ↦ (ok a, s)
          ] in
            H r.1
      cases none = h
      cases (some a) = h

  abbrev Result : Volume → Volume → Driver World → Type 0
  Result v w t = Same v w × H t

  then_set_up-Leads : (v : Volume) → Leads H (Result v) H (then_set_up os lib btime v)
  then_set_up-Leads v =
      >>=-Leads (λ _. H) (Result v) H (mounts_of v) (λ _. set_up os lib btime v)
        (Keeps-Leads H H (mounts_of v) (λ t h. h) (mounts_of-H v))
        (λ _. set_up-Leads os lib btime folder volumes tables v)

  then_access-Leads :
      (v : Volume) (user : User) → Leads H (Result v) H (then_access os lib btime v user)
  then_access-Leads v user =
      >>=-Leads (λ _. H) (Result v) H (on_world (lstat (mount_point os lib v)))
        (λ status. of_outcome (access_to user 0o7 status) >> then_set_up os lib btime v)
        (Keeps-Leads H H (on_world (lstat (mount_point os lib v))) (λ t h. h)
          (on_world-H (lstat (mount_point os lib v))))
        (λ status.
          >>=-Leads (λ _. H) (Result v) H (of_outcome (access_to user 0o7 status))
            (λ _. then_set_up os lib btime v)
            (Keeps-Leads H H (of_outcome (access_to user 0o7 status)) (λ t h. h)
              (of_outcome-H (access_to user 0o7 status)))
            (λ _. then_set_up-Leads v))

  take_over-Leads : (v : Volume) → Leads H (Result v) H (take_over os lib btime v)
  unfolding take_over
  take_over-Leads v =
      >>=-Leads (λ _. H) (Result v) H (on_world current_user)
        (λ current. of_outcome (user_of current) >>= then_access os lib btime v)
        (Keeps-Leads H H (on_world current_user) (λ t h. h) (on_world-H current_user))
        (λ current.
          >>=-Leads (λ _. H) (Result v) H (of_outcome (user_of current))
            (then_access os lib btime v)
            (Keeps-Leads H H (of_outcome (user_of current)) (λ t h. h)
              (of_outcome-H (user_of current)))
            (then_access-Leads v))

  both_ended :
      (name : Str) (v : Volume) (vs : Map Volume) (r : Outcome Error Volume) (t : Driver World)
      (r' : Outcome Error (Map Volume)) (t' : Driver World)
      → Ends (Result v) H r t
      → (H t → Ends (λ ws t. SameAll vs ws × H t) H r' t')
      → let u : Outcome Error (Map Volume) × Driver World = elim r [
        | err e ↦ (err e, t)
        | panic ↦ (panic, t)
        | ok v' ↦ elim r' [
          | err e ↦ (err e, t')
          | panic ↦ (panic, t')
          | ok volumes' ↦ (ok ((name, v') ∷ volumes'), t')
        ]
      ] in
        Ends (λ ws t. SameAll ((name, v) ∷ vs) ws × H t) H u.0 u.1
  both_ended name v vs (err e) t r' t' h k = h
  both_ended name v vs panic t r' t' h k = h
  both_ended name v vs (ok v') t (err e) t' (m, h) k = k h
  both_ended name v vs (ok v') t panic t' (m, h) k = k h
  both_ended name v vs (ok v') t (ok ws) t' (m, h) k = let (ms, h') = k h in ((refl, m, ms), h')

  -- The loop changes no table, and of each volume only its process and its cached mount point.
  pub take_over_all-Leads :
      (vs : Map Volume) → Leads H (λ ws t. SameAll vs ws × H t) H (take_over_all os lib btime vs)
  unfolding take_over_all
  take_over_all-Leads [] s h = (tt, h)
  take_over_all-Leads ((name, v) ∷ vs) s h =
      let v' : Volume = record v { mount_point = mount_point os lib v } in
      let first = take_over os lib btime v' s in
      let rest = take_over_all os lib btime vs first.1 in
      both_ended name v vs first.0 first.1 rest.0 rest.1 (take_over-Leads v' s h)
        (take_over_all-Leads vs first.1)
