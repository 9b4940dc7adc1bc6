-- ===== src/Driver/Volumes/Creating.antt =====
-- `Create` step by step: what each leaves, and what its failure leaves.
use example_docker_volume_pl.Common.{ℕ, ◌≡◌, ap, ◌∙◌, none, some, [], ◌∷◌, ◌++◌, length, arith}
use example_docker_volume_pl.Common.State.{◌>>=◌, ◌>>◌, fail_if}
use example_docker_volume_pl.Common.State.Ends.{
  Leads, Keeps-Leads, Gives-Leads, >>=-Leads, Leads-map,
}
use example_docker_volume_pl.Common.Text.{Str}
use example_docker_volume_pl.Common.Map.{Map, lookup, insert}
use example_docker_volume_pl.Common.Map.Laws.{lookup-insert}
use example_docker_volume_pl.Utils.Hashes.{sha256_string_to_string}
use example_docker_volume_pl.Os.{Os}
use example_docker_volume_pl.Driver.{Volume, Library, Driver, demand, save, on_world}
use example_docker_volume_pl.Driver.Handlers.{
  folder_error, new_table, set_up, add_volume, register, make_folder,
}
use example_docker_volume_pl.Driver.Process.Frame.{Same}
use example_docker_volume_pl.Driver.Process.SettingUp.{set_up-Leads}
use example_docker_volume_pl.Driver.Saving.{
  Holds, demand-Holds, fail_if-Holds, save-Holds, save-Gives, IsSaved,
}
use example_docker_volume_pl.Driver.Counts.{IsWell}
use example_docker_volume_pl.Driver.Counts.Requests.{Holds-mounted, Holds-IsWell}
use example_docker_volume_pl.Driver.Volumes.{
  IsWellOf-insert, IsWellOf-new, mounts_in-insert, mounts_in-new,
}
use example_docker_volume_pl.Driver.Volumes.Keeping.{Before, Kept, other_volumes, Before-Kept}

module _ (os : Os) (lib : Library) (btime : ℕ) where
  open os use {World, lstat, mkdir_all, now}
  open lib use {marshal, join_path, sha256}

  -- The volume that `Create` starts from.
  abbrev pub fresh : Driver World → Str → Map Str → ℕ → Volume
  fresh s name options time = record {
    base_path = s.propagated_mount;
    path = sha256_string_to_string sha256 name;
    mount_point = [];
    created_at = time;
    mounts = some (length s.tables);
    options = some options;
    puid = [];
  }

  module _ (s : Driver World) (name : Str) (options : Map Str) where
    -- The new table is there.
    abbrev pub WithTable : Driver World → Type 0
    WithTable = Holds s.propagated_mount s.volumes (s.tables ++ [] ∷ [])

    -- The new volume is there as well.
    abbrev pub WithVolume : Volume → Driver World → Type 0
    WithVolume v = Holds s.propagated_mount (insert name v s.volumes) (s.tables ++ [] ∷ [])

    WithTable-Kept : IsWell s → (t : Driver World) → WithTable t → Kept s name t
    WithTable-Kept h t b = (
      Holds-IsWell t b (IsWellOf-new s.volumes s.tables h),
      λ n i. Holds-mounted t b n i ∙ mounts_in-new s.tables (lookup n s.volumes) i,
      λ n. other_volumes s name t.volumes n (λ e j. lookup n (b.1 j)),
    )

    pub WithVolume-Kept :
        IsWell s
        → lookup name s.volumes ≡ none
        → (v : Volume) → v.mounts ≡ some (length s.tables)
        → (t : Driver World) → WithVolume v t
        → Kept s name t
    WithVolume-Kept h e v m t b = (
      Holds-IsWell t b (IsWellOf-insert s.volumes s.tables name v m h),
      λ n i. Holds-mounted t b n i ∙ mounts_in-insert s.volumes s.tables name v m h n i e,
      λ n.
          other_volumes s name t.volumes n
            (λ f. (λ j. lookup n (b.1 j)) ∙ ground (arith, lookup-insert name n v s.volumes)),
    )

    -- What `Create` leaves where it succeeds.
    abbrev pub Created : Unit {0} → Driver World → Type 0
    Created _ t =
        (v : Volume) × (time : ℕ) × (Same (fresh s name options time) v)
        × (IsSaved os lib s.propagated_mount (insert name v s.volumes) (s.tables ++ [] ∷ []) t)

  module _ (s : Driver World) (name : Str) (options : Map Str) (h : IsWell s)
      (none_yet : lookup name s.volumes ≡ none) where
    abbrev B : Driver World → Type 0
    B = Before s

    abbrev K : Driver World → Type 0
    K = Kept s name

    abbrev C : Unit {0} → Driver World → Type 0
    C = Created s name options

    -- The last two statements.
    keep_volume :
        (time : ℕ) (v w : Volume)
        → Same (fresh s name options time) w
        → Leads (WithTable s name options) C K (add_volume os lib btime name w >> save os lib)
    unfolding add_volume
    keep_volume time v w same t b =
        let W = WithVolume s name options w in
        let S : Unit {0} → Driver World → Type 0 =
          λ _. IsSaved os lib s.propagated_mount (insert name w s.volumes) (s.tables ++ [] ∷ []) in
        Leads-map S C K K (λ _ u saved. (w, time, same, saved)) (λ u k. k) (save os lib)
          (Gives-Leads S K W (save os lib) (WithVolume-Kept s name options h none_yet w same.3)
            (save-Holds os lib s.propagated_mount (insert name w s.volumes) (s.tables ++ [] ∷ []))
            (save-Gives os lib s.propagated_mount (insert name w s.volumes) (s.tables ++ [] ∷ [])))
          (record t { volumes = insert name w t.volumes }) (b.0, ap (insert name w) b.1, b.2)

    register-Leads : (time : ℕ) → Leads B C K (register os lib btime name options time)
    unfolding register new_table
    register-Leads time t (f, v, a) =
        let v0 = fresh t name options time in
        let T = WithTable s name options in
        >>=-Leads (λ w u. Same v0 w × T u) C K (set_up os lib btime v0)
          (λ w. add_volume os lib btime name w >> save os lib)
          (Leads-map (λ w u. Same v0 w × T u) (λ w u. Same v0 w × T u) T K (λ _ u q. q)
            (WithTable-Kept s name options h) (set_up os lib btime v0)
            (set_up-Leads os lib btime s.propagated_mount s.volumes (s.tables ++ [] ∷ []) v0))
          (λ w u ((b, p, c, m, o), q).
            keep_volume time v0 w (b ∙ f, p, c, m ∙ ap (λ x. some (length x)) a, o) u q)
          (record t { tables = t.tables ++ [] ∷ [] }) (f, v, ap (λ x. x ++ [] ∷ []) a)

    on_world-Leads : {A : Type 0} (f : World → A × World) → Leads B (λ _. B) K (on_world f)
    on_world-Leads f t b = b

    pub make_folder-Leads :
        (folder : Str) → Leads B C K (make_folder os lib btime name options folder)
    unfolding make_folder
    make_folder-Leads folder =
        >>=-Leads (λ _. B) C K (on_world (lstat folder))
          (λ status.
            fail_if (folder_error folder status)
            >> (demand (mkdir_all folder) >> (on_world now >>= register os lib btime name options)))
          (on_world-Leads (lstat folder))
          (λ status.
            >>=-Leads (λ _. B) C K (fail_if (folder_error folder status))
              (λ _.
                demand (mkdir_all folder) >> (on_world now >>= register os lib btime name options))
              (Keeps-Leads B K (fail_if (folder_error folder status)) (Before-Kept s name h)
                (fail_if-Holds s.propagated_mount s.volumes s.tables (folder_error folder status)))
              (λ _.
                >>=-Leads (λ _. B) C K (demand (mkdir_all folder))
                  (λ _. on_world now >>= register os lib btime name options)
                  (Keeps-Leads B K (demand (mkdir_all folder)) (Before-Kept s name h)
                    (demand-Holds s.propagated_mount s.volumes s.tables (mkdir_all folder)))
                  (λ _.
                    >>=-Leads (λ _. B) C K (on_world now) (register os lib btime name options)
                      (on_world-Leads now) register-Leads)))
