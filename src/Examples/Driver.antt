-- ===== src/Examples/Driver.antt =====
-- The driver with one volume.
use example_docker_volume_pl.Common.{
  map, ◌+◌, ◌-◌, ◌<◌, ◌≡◌, refl, ◌&&◌, none, some, List, [], ◌∷◌, if◌then◌else◌, arith, ok, err,
  All, ◌^◌,
}
use example_docker_volume_pl.Common.Text.{Str, codes, str_eq, starts_with, trim_space}
use example_docker_volume_pl.Common.Map.{lookup, insert, delete}
use example_docker_volume_pl.Utils.Hashes.{sha256_string_to_string}
use example_docker_volume_pl.Driver.{Volume, Driver, active_mounts, snapshot, save, write_file}
use example_docker_volume_pl.Driver.Handlers.{
  Answer, list, table, mount, unmount, create, remove_volume, add_mount, unmount_locked,
  write_table, find_volume, mounts_of, register, make_folder, new_table, set_up, add_volume,
  active_error, forget_monitor, delete_volume,
}
use example_docker_volume_pl.Driver.Process.{setup_process, start_if_none, pick_up}
use example_docker_volume_pl.Driver.Counts.{IsWell, mounted}
use example_docker_volume_pl.Driver.Counts.Requests.{mount-mounted, unmount-mounted}
use example_docker_volume_pl.Driver.Counts.Sequences.{
  Request, mount_request, unmount_request, handle, handle_all, counted_all, is_some,
  handle_all-mounted,
}
use example_docker_volume_pl.Driver.Volumes.Remove.{
  remove_volume-active, remove_volume-ok, remove_volume-Kept,
}
use example_docker_volume_pl.Driver.Volumes.Create.{create-ok, create-Kept}
use example_docker_volume_pl.Driver.Race.{unmount_locked-race}
use example_docker_volume_pl.Driver.Reachable.{
  start, next, create_step, mount_step, Reachable-IsWell,
}
use example_docker_volume_pl.Driver.Reading.{IsAnswered, list-get}
use example_docker_volume_pl.Examples.World.{system, lenient}
use example_docker_volume_pl.Examples.Drivers.{
  a, b, volume, empty, empty-IsWell, idle, idle-IsWell, busy,
}

abbrev requests : List Request
requests = mount_request a b ∷ mount_request b b ∷ mount_request a b ∷ unmount_request a b ∷ []

mount-mounted_example :
    IsWell (mount system lenient a b idle).1
    × ((n i : Str)
        → mounted (mount system lenient a b idle).1 n i
          ≡ (if str_eq a n && str_eq b i then mounted idle n i + 1 else mounted idle n i))
unfolding lookup table str_eq
mount-mounted_example = mount-mounted system lenient a b idle volume idle-IsWell refl (omega arith)

once : IsWell (mount system lenient a b idle).1
unfolding lookup table str_eq
once = (mount-mounted system lenient a b idle volume idle-IsWell refl (omega arith)).0

unmount-mounted_example :
    IsWell (unmount system lenient a b (mount system lenient a b idle).1).1
    × ((n i : Str)
        → mounted (unmount system lenient a b (mount system lenient a b idle).1).1 n i ≡ (
            if str_eq a n && str_eq b i
            then mounted (mount system lenient a b idle).1 n i - 1
            else mounted (mount system lenient a b idle).1 n i))
unmount-mounted_example = unmount-mounted system lenient a b (mount system lenient a b idle).1 once

idle-mounted : (n i : Str) → mounted idle n i ≡ 0
unfolding lookup table
idle-mounted n i = ground arith

handle_all-mounted_example :
    IsWell (handle_all system lenient requests idle)
    × ((n i : Str)
        → mounted (handle_all system lenient requests idle) n i
          ≡ counted_all (λ n. is_some (lookup n idle.volumes)) requests (mounted idle) n i)
handle_all-mounted_example =
    handle_all-mounted system lenient requests idle idle-IsWell
      (λ n i. rw (idle-mounted n i) (omega arith))

once_mounted : 0 < mounted (mount system lenient a b idle).1 a b
unfolding lookup table str_eq
once_mounted =
    let e = (mount-mounted system lenient a b idle volume idle-IsWell refl (omega arith)).1 a b in
    omega (arith, e)

remove_volume-active_example :
    remove_volume system lenient 0 a (mount system lenient a b idle).1
    ≡ (err (active_mounts a 1), (mount system lenient a b idle).1)
unfolding mount find_volume mounts_of lookup write_table table insert save write_file str_eq
    add_mount
remove_volume-active_example =
    remove_volume-active system lenient 0 (mount system lenient a b idle).1 a b once once_mounted

remove_volume-Kept_example :
    IsWell (remove_volume system lenient 0 a idle).1
    × ((n i : Str) → mounted (remove_volume system lenient 0 a idle).1 n i ≡ mounted idle n i)
    × ((n : Str)
        → lookup n (remove_volume system lenient 0 a idle).1.volumes ≡ (
            if str_eq a n
            then lookup a (remove_volume system lenient 0 a idle).1.volumes
            else lookup n idle.volumes))
remove_volume-Kept_example = remove_volume-Kept system lenient 0 idle a idle-IsWell

idle_removed :
    remove_volume system lenient 0 a idle ≡ (ok tt, (remove_volume system lenient 0 a idle).1)
unfolding remove_volume find_volume mounts_of active_error forget_monitor delete_volume save
    write_file lookup table delete str_eq
idle_removed = refl

remove_volume-ok_example :
    ((i : Str) → mounted idle a i ≡ 0)
    × ((n : Str)
        → lookup n (remove_volume system lenient 0 a idle).1.volumes
          ≡ (if str_eq a n then none else lookup n idle.volumes))
    × (lenient.marshal (
          snapshot
            (remove_volume system lenient 0 a idle).1.tables
            (remove_volume system lenient 0 a idle).1.volumes)
        ≡ ok (remove_volume system lenient 0 a idle).1.file)
remove_volume-ok_example =
    remove_volume-ok system lenient 0 idle (remove_volume system lenient 0 a idle).1 a idle-IsWell
      idle_removed

create-Kept_example :
    IsWell (create system lenient 0 b [] idle).1
    × ((n i : Str) → mounted (create system lenient 0 b [] idle).1 n i ≡ mounted idle n i)
    × ((n : Str)
        → lookup n (create system lenient 0 b [] idle).1.volumes ≡ (
            if str_eq b n
            then lookup b (create system lenient 0 b [] idle).1.volumes
            else lookup n idle.volumes))
create-Kept_example = create-Kept system lenient 0 idle b [] idle-IsWell

created : create system lenient 0 b [] idle ≡ (ok tt, (create system lenient 0 b [] idle).1)
unfolding create make_folder register new_table set_up add_volume setup_process start_if_none
    pick_up save write_file lookup insert str_eq starts_with trim_space
created = refl

create-ok_example :
    (lookup b idle.volumes ≡ none)
    × ((v : Volume) × ((lookup b (create system lenient 0 b [] idle).1.volumes ≡ some v)
          × (v.base_path ≡ codes "/mnt")
          × (v.path ≡ sha256_string_to_string lenient.sha256 b)
          × (v.options ≡ some [])))
    × ((i : Str) → mounted (create system lenient 0 b [] idle).1 b i ≡ 0)
    × (lenient.marshal (
          snapshot
            (create system lenient 0 b [] idle).1.tables
            (create system lenient 0 b [] idle).1.volumes)
        ≡ ok (create system lenient 0 b [] idle).1.file)
create-ok_example =
    create-ok system lenient 0 idle (create system lenient 0 b [] idle).1 b [] idle-IsWell created

busy-IsWell : IsWell busy
unfolding lookup table str_eq insert mount find_volume mounts_of write_table add_mount save
    write_file
busy-IsWell =
    (mount-mounted system lenient a b (mount system lenient a b idle).1 volume once refl
      (omega arith)).0

unmount_locked-race_example :
    mounted (unmount_locked system lenient b 0 2 (unmount_locked system lenient b 0 2 busy).1).1 a b
    ≡ mounted busy a b - 1
unfolding lookup table str_eq
unmount_locked-race_example =
    unmount_locked-race system lenient a b busy volume 0 2 busy-IsWell refl refl refl

list-get_example :
    (xs : List Answer) × (list system lenient idle ≡ (ok xs, idle))
    × (map (λ x. x.name) xs ≡ a ∷ [])
    × All (IsAnswered system lenient idle) xs
list-get_example = list-get system lenient idle (tt, tt)

-- A volume is created in the empty driver, and mounted.
abbrev first : Driver (Unit {0})
first = (create system lenient 0 a [] empty).1

abbrev first_volume : Volume
first_volume = record volume { path = codes "6661"; created_at = 100; options = some [] }

first-mounted : (n i : Str) → mounted first n i + 1 < 2 ^ 63
unfolding lookup
first-mounted n i =
    let e = (create-Kept system lenient 0 empty a [] empty-IsWell).1 n i in omega (arith, e)

Reachable-IsWell_example : IsWell (handle system lenient (mount_request a b) first) × (a ≡ a)
unfolding create make_folder register new_table set_up add_volume setup_process start_if_none
    pick_up save write_file lookup insert str_eq starts_with trim_space mount find_volume mounts_of
    write_table table sha256_string_to_string
Reachable-IsWell_example =
    Reachable-IsWell system lenient 0 a a first_volume first_volume 0 empty-IsWell
      (next (next (start empty) (create_step empty a []))
        (mount_step first (mount_request a b) first-mounted))
      refl refl refl refl
