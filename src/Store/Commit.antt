-- ===== src/Store/Commit.antt =====
-- agent/src/store.rs: what `mutate` leaves behind on each of its ends.
use proton_vpn_omarchy_core.Base.{◌≡◌, refl, ◌⊎◌, inl, inr}
use proton_vpn_omarchy_core.Json.{Value}
use proton_vpn_omarchy_core.Backend.{Result, ok, err}
use proton_vpn_omarchy_core.Io.{IoError, IoResult, After}
use proton_vpn_omarchy_core.Store.Edit.{Edit}
use proton_vpn_omarchy_core.Store.File.{StoreFile, next_file}
use proton_vpn_omarchy_core.Store.Disk.{Disk}
use proton_vpn_omarchy_core.Store.Handle.{
  Inner, publish_store, mutate, after_change, replied, store_io_error,
}
use proton_vpn_omarchy_core.Store.Persist.{Holds, HoldsAt, IsWritten, persist-Triple}

module _ (disk : Disk) (path lifecycle_path : disk.FilePath) where
  abbrev State : Type 0
  State = Inner disk path lifecycle_path

  -- The end of `mutate` by that of the change: refused, and the data is what the change left; or
  -- written and published with a new revision; or not written, and the data is as it was.
  abbrev pub Committed :
      (disk.World → Type 0) → StoreFile → Value → State → State × Result Value → Type 0
  Committed W file reply s r =
      (r.1 ≡ ok reply)
      × (r.0.file ≡ file)
      × (r.0.coordinator ≡ publish_store disk path lifecycle_path file s.coordinator)
      × W r.0.world

  abbrev pub Reverted : State → State × Result Value → Type 0
  Reverted s r =
      ((e : IoError) × (r.1 ≡ err (store_io_error e)))
      × (r.0.file ≡ s.file)
      × (r.0.coordinator ≡ s.coordinator)

  abbrev pub Settled : State → StoreFile × Result Value → State × Result Value → Type 0
  Settled s (file, err e) r = r ≡ (record s { file = file }, err e)
  Settled s (file, ok reply) r =
      Committed (IsWritten disk path lifecycle_path s.file (next_file file) s.world)
        (next_file file) reply s r
      ⊎ Reverted s r

  pub replied-Settled :
      (W : disk.World → Type 0) (file : StoreFile) (reply : Value) (s : State)
      (r : State × IoResult (Unit {0}))
      → After
          (λ _.
            HoldsAt disk path lifecycle_path file
              (publish_store disk path lifecycle_path file s.coordinator)
              W)
          (Holds disk path lifecycle_path s.file s.coordinator)
          r
      → Committed W file reply s (replied disk path lifecycle_path reply r)
        ⊎ Reverted s (replied disk path lifecycle_path reply r)
  replied-Settled W file reply s (t, IoResult.ok u) h = inl (refl, h.0, h.1, h.2)
  replied-Settled W file reply s (t, IoResult.failed e) h = inr ((e, refl), h.0, h.1)

  after_change-Settled :
      (s : State) (changed : StoreFile × Result Value)
      → Settled s changed (after_change disk path lifecycle_path s changed)
  after_change-Settled s (file, err e) = refl
  after_change-Settled s (file, ok reply) =
      replied-Settled (IsWritten disk path lifecycle_path s.file (next_file file) s.world)
        (next_file file) reply s _
        (persist-Triple disk path lifecycle_path s.file (next_file file) s.coordinator s.world
          (record s { file = next_file file }) (refl, refl, refl))

  -- Whatever the change and whatever the file system does, a request that changes the store has
  -- one of three ends. The change refuses: its error is the reply, the data is as the change left
  -- it, and nothing is written or published. All that is needed is written, and the file system is as
  -- these calls leave it, one after the other: that of the store's file, that of the lifecycle settings
  -- if they differ, and that of the start of the agent if that differs; the reply is that of the change, and the data, with the next revision, is kept and
  -- published. Or a write fails: the
  -- reply is a `store_io` error, and the data and what is published are as before.
  pub mutate_lem :
      (mutation : Edit StoreFile Value) (s : State)
      → Settled s (mutation s.file) (mutate disk path lifecycle_path mutation s)
  unfolding mutate
  mutate_lem mutation s = after_change-Settled s (mutation s.file)
