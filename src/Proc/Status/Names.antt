-- ===== src/Proc/Status/Names.antt =====
-- Which states have a name, for each release of the kernel.
use example_docker_volume_pl.Common.{
  ◌≡◌, refl, ap, ◌∙◌, Bool, true, false, not, ◌&&◌, Option, some, List, [], ◌∷◌, ◌++◌, arith, ok,
  append-nil,
}
use example_docker_volume_pl.Common.Map.{Map, IsMap}
use example_docker_volume_pl.Common.State.{M, ◌>>◌}
use example_docker_volume_pl.Common.Text.{Str, codes, str_eq}
use example_docker_volume_pl.Common.Number.{parse_uint}
use example_docker_volume_pl.Semver.{VersionInfo, parse, compare}
use example_docker_volume_pl.Proc.Status.Adding.{
  when, AllFresh, all_fresh, all_fresh-AllFresh, is_map, is_map-IsMap, AllFresh-when, add_if-fresh,
}
use example_docker_volume_pl.Common.State.Laws.{>>=-step}
use example_docker_volume_pl.Proc.Status.{
  ProcessStatus, Globals, Error, add_new, add_if, first_states, tracing_states, paging_states,
  dead_states, waking_states, parked_states, idle_states, add_by_release, release_or, load_for,
  load_process_status_names,
}
use example_docker_volume_pl.Proc.Status.Releases.{
  linux, at_least, at_most, is_negative_lem, nonneg-compare, nonpos-compare, at_least_weaken,
}

-- The letters of the states that a release has, and their names.
abbrev pub named_states : VersionInfo → Map Str
named_states r =
    ((codes "R", codes "Running")
      ∷ (codes "S", codes "Sleeping in an interruptible wait")
      ∷ (codes "D", codes "Waiting in uninterruptible disk sleep")
      ∷ (codes "Z", codes "Zombie")
      ∷ (codes "T", codes "Stopped (on a signal) or (before Linux 2.6.33) trace stopped")
      ∷ [])
    ++ when (at_least 2 6 33 r) ((codes "t", codes "Tracing stop (Linux 2.6.33 onward)") ∷ [])
    ++ when (not (at_least 2 6 0 r)) ((codes "W", codes "Paging (only before Linux 2.6.0)") ∷ [])
    ++ when (at_least 2 6 0 r) ((codes "X", codes "Dead (from Linux 2.6.0 onward)") ∷ [])
    ++ when (at_least 2 6 33 r && at_most 3 13 0 r) (
        (codes "x", codes "Dead (Linux 2.6.33 to 3.13 only)")
        ∷ (codes "K", codes "Wakekill (Linux 2.6.33 to 3.13 only)")
        ∷ (codes "W", codes "Waking (Linux 2.6.33 to 3.13 only)")
        ∷ [])
    ++ when (at_least 3 9 0 r && at_most 3 13 0 r)
        ((codes "P", codes "Parked (Linux 3.9 to 3.13 only)") ∷ [])
    ++ when (at_least 4 14 0 r) ((codes "I", codes "Idle (Linux 4.14 onward)") ∷ [])

-- Two lists of states that share none, of which each has every state once.
check : (add m : Map Str) → all_fresh add m ≡ true → AllFresh add m
check = all_fresh-AllFresh

module _ (r : VersionInfo) where
  abbrev t : Bool
  t = at_least 2 6 33 r

  abbrev d : Bool
  d = at_least 2 6 0 r

  abbrev x : Bool
  x = at_least 2 6 33 r && at_most 3 13 0 r

  abbrev k : Bool
  k = at_least 3 9 0 r && at_most 3 13 0 r

  abbrev m1 : Map Str
  m1 = first_states ++ when t tracing_states

  abbrev m2 : Map Str
  m2 = m1 ++ when (not d) paging_states

  abbrev m3 : Map Str
  m3 = m2 ++ when d dead_states

  abbrev m4 : Map Str
  m4 = m3 ++ when x waking_states

  abbrev m5 : Map Str
  m5 = m4 ++ when k parked_states

  fresh_m1 :
      (add : Map Str)
      → all_fresh add first_states ≡ true
      → all_fresh add tracing_states ≡ true
      → AllFresh add m1
  fresh_m1 add a b =
      AllFresh-when add first_states tracing_states t (check add first_states a)
        (check add tracing_states b)

  fresh_m2 :
      (add : Map Str) → AllFresh add m1 → all_fresh add paging_states ≡ true → AllFresh add m2
  fresh_m2 add a b = AllFresh-when add m1 paging_states (not d) a (check add paging_states b)

  fresh_m3 : (add : Map Str) → AllFresh add m2 → all_fresh add dead_states ≡ true → AllFresh add m3
  fresh_m3 add a b = AllFresh-when add m2 dead_states d a (check add dead_states b)

  no_paging : x ≡ true → not d ≡ false
  no_paging h = ground (arith, at_least_weaken r)

  -- The states that wake up share a letter with the one before 2.6.0.
  fresh_waking : x ≡ true → AllFresh waking_states m3
  unfolding all_fresh
  fresh_waking h =
      fresh_m3 waking_states (rw (no_paging h, append-nil) (fresh_m1 waking_states refl refl)) refl

  fresh_m5 :
      (add : Map Str)
      → AllFresh add m3
      → all_fresh add waking_states ≡ true
      → all_fresh add parked_states ≡ true
      → AllFresh add m5
  fresh_m5 add a b c =
      AllFresh-when add m4 parked_states k
        (AllFresh-when add m3 waking_states x a (check add waking_states b))
        (check add parked_states c)

  module _ (g : Globals) where
    abbrev with_names : Map Str → Globals
    with_names m = record g { process_status_names = m }

    abbrev Added : Bool → List (ProcessStatus × Str) → Map Str → Type 0
    Added c add m =
        (add_if c add (with_names m) ≡ (ok tt, with_names (m ++ when c add)))
        × IsMap (m ++ when c add)

    Added-tracing : Added t tracing_states first_states
    unfolding all_fresh is_map
    Added-tracing =
        add_if-fresh t tracing_states first_states g (is_map-IsMap first_states refl)
          (is_map-IsMap tracing_states refl) (λ _. check tracing_states first_states refl)

    Added-paging : Added (not d) paging_states m1
    unfolding all_fresh is_map
    Added-paging =
        add_if-fresh (not d) paging_states m1 g Added-tracing.1 (is_map-IsMap paging_states refl)
          (λ _. fresh_m1 paging_states refl refl)

    Added-dead : Added d dead_states m2
    unfolding all_fresh is_map
    Added-dead =
        add_if-fresh d dead_states m2 g Added-paging.1 (is_map-IsMap dead_states refl)
          (λ _. fresh_m2 dead_states (fresh_m1 dead_states refl refl) refl)

    Added-waking : Added x waking_states m3
    unfolding all_fresh is_map
    Added-waking =
        add_if-fresh x waking_states m3 g Added-dead.1 (is_map-IsMap waking_states refl)
          fresh_waking

    Added-parked : Added k parked_states m4
    unfolding all_fresh is_map
    Added-parked =
        add_if-fresh k parked_states m4 g Added-waking.1 (is_map-IsMap parked_states refl) (λ _.
          AllFresh-when parked_states m3 waking_states x
            (fresh_m3 parked_states (fresh_m2 parked_states (fresh_m1 parked_states refl refl) refl)
              refl)
            (check parked_states waking_states refl))

    Added-idle : Added (at_least 4 14 0 r) idle_states m5
    unfolding all_fresh is_map
    Added-idle =
        add_if-fresh (at_least 4 14 0 r) idle_states m5 g Added-parked.1
          (is_map-IsMap idle_states refl)
          (λ _.
            fresh_m5 idle_states
              (fresh_m3 idle_states (fresh_m2 idle_states (fresh_m1 idle_states refl refl) refl)
                refl)
              refl refl)

    abbrev after_waking : M Error Globals (Unit {0})
    after_waking = add_if k parked_states >> add_if (at_least 4 14 0 r) idle_states

    abbrev after_paging : M Error Globals (Unit {0})
    after_paging = add_if d dead_states >> (add_if x waking_states >> after_waking)

    -- The additions one after the other.
    additions :
        (add_if t tracing_states >> (add_if (not d) paging_states >> after_paging))
          (with_names first_states)
        ≡ (ok tt, with_names (named_states r))
    additions =
        >>=-step (add_if t tracing_states) (λ _. add_if (not d) paging_states >> after_paging)
          Added-tracing.0
        ∙ >>=-step (add_if (not d) paging_states) (λ _. after_paging) Added-paging.0
        ∙ >>=-step (add_if d dead_states) (λ _. add_if x waking_states >> after_waking) Added-dead.0
        ∙ >>=-step (add_if x waking_states) (λ _. after_waking) Added-waking.0
        ∙ >>=-step (add_if k parked_states) (λ _. add_if (at_least 4 14 0 r) idle_states)
            Added-parked.0
        ∙ Added-idle.0

    -- The conditions of the source are those of the specification.
    add_by_release-names :
        add_by_release
          (linux 2 6 0)
          (linux 2 6 33)
          (linux 3 9 0)
          (linux 3 13 0)
          (linux 4 14 0)
          r
          (with_names first_states)
        ≡ (ok tt, with_names (named_states r))
    unfolding add_by_release
    add_by_release-names =
        rw
          (
            nonneg-compare 2 6 33 r,
            is_negative_lem (compare r (linux 2 6 0)),
            nonneg-compare 2 6 0 r,
            nonneg-compare 3 9 0 r,
            nonneg-compare 4 14 0 r,
            nonpos-compare 3 13 0 r,
          )
          additions

-- The versions that the source writes out are read, and the first states are new in an empty map.
load_for-names :
    (r : VersionInfo) (g : Globals)
    → load_for (some r) g ≡ (ok tt, record g { process_status_names = named_states r })
unfolding load_for parse parse_uint add_new str_eq
load_for-names r g = add_by_release-names r g

-- `loadProcessStatusNames` with a release, its own or the package's, does not fail: afterwards the
-- names are exactly the letters and texts written out in `named_states`, each for the releases that
-- stand there, where "to 3.13" takes 3.13.0 in but not 3.13.1; and no letter has two names.
pub load_process_status_names-names :
    (release : Option VersionInfo) (g : Globals) (r : VersionInfo)
    → release_or release g ≡ some r
    → (load_process_status_names release g
        ≡ (ok tt, record g { process_status_names = named_states r }))
      × IsMap (named_states r)
unfolding load_process_status_names
load_process_status_names-names release g r h =
    (ap (λ o. load_for o g) h ∙ load_for-names r g, (Added-idle r g).1)
