-- ===== src/Store/Atomic.antt =====
-- agent/src/store.rs: a file of the store is replaced as a whole or not at all.
use proton_vpn_omarchy_core.Base.{
  [], ◌∷◌, ◌++◌, Option, none, some, ◌≡◌, ◌≢◌, refl, leb, length, if-both,
}
use proton_vpn_omarchy_core.Io.{
  IoResult, ok, failed, Act, ◌>>=◌, done, fail, attempt, or_undo, After, Triple, Keeps, bind-Triple,
  bind-Keeps, attempt-Keeps, or_undo-Triple, After-mono, proceed,
}
use proton_vpn_omarchy_core.Store.File.{StoreFile, max_store_bytes}
use proton_vpn_omarchy_core.Store.Disk.{
  Disk, Bytes, temporary, require_path, of_result, write_and_rename, replace_file, save_store,
  save_bytes, save_under, too_large, no_parent,
}

After-both :
    {S : Type 0} (P B F : S → Type 0) (r : S × IoResult (Unit {0}))
    → After (λ _. P) P r
    → After (λ _. B) F r
    → After (λ _ s. P s × B s) P r
After-both P B F (s, ok a) h k = (h, k)
After-both P B F (s, failed e) h k = h

-- What the file system's documentation says of each call, as far as it is about what files hold:
-- a call changes only the file it names, and a rename that succeeds puts the file in place.
pub record IsLawful (disk : Disk) (content : disk.World → disk.FilePath → Option Bytes)
    : Type 0 where
  pub keeps_on_create_dir :
      (p q : disk.FilePath) (o : Option Bytes)
      → Keeps (λ w. content w q ≡ o) (disk.create_dir_all p)
  pub keeps_on_set_private :
      (p q : disk.FilePath) (o : Option Bytes) → Keeps (λ w. content w q ≡ o) (disk.set_private p)
  pub keeps_on_sync :
      (p q : disk.FilePath) (o : Option Bytes) → Keeps (λ w. content w q ≡ o) (disk.sync_all p)
  pub keeps_on_create :
      (p q : disk.FilePath) (o : Option Bytes)
      → p ≢ q
      → Keeps (λ w. content w q ≡ o) (disk.create_new p)
  pub keeps_on_write :
      (p q : disk.FilePath) (b : Bytes) (o : Option Bytes)
      → p ≢ q
      → Keeps (λ w. content w q ≡ o) (disk.write_all p b)
  pub keeps_on_remove :
      (p q : disk.FilePath) (o : Option Bytes)
      → p ≢ q
      → Keeps (λ w. content w q ≡ o) (disk.remove_file p)
  pub creates :
      (p : disk.FilePath)
      → Triple (λ w. Unit) (disk.create_new p) (λ _ w. content w p ≡ some []) (λ w. Unit)
  pub writes :
      (p : disk.FilePath) (b old : Bytes)
      → Triple
          (λ w. content w p ≡ some old)
          (disk.write_all p b)
          (λ _ w. content w p ≡ some (old ++ b))
          (λ w. Unit)
  pub renames :
      (p q : disk.FilePath) (new old : Option Bytes)
      → Triple
          (λ w. (content w p ≡ new) × (content w q ≡ old))
          (disk.rename p q)
          (λ _ w. content w q ≡ new)
          (λ w. content w q ≡ old)

module _ (disk : Disk) (content : disk.World → disk.FilePath → Option Bytes)
    (lawful : IsLawful disk content) (path : disk.FilePath) (old : Option Bytes) where
  abbrev World : Type 0
  World = disk.World

  abbrev Same : World → Type 0
  Same w = content w path ≡ old

  abbrev Has : Bytes → World → Type 0
  Has b w = content w path ≡ some b

  module _ (target : disk.FilePath) (apart : target ≢ path) where
    abbrev Both : Bytes → World → Type 0
    Both b w = Same w × (content w target ≡ some b)

    create-Triple : Triple Same (disk.create_new target) (λ _. Both []) Same
    create-Triple w h =
        After-both Same (λ v. content v target ≡ some []) (λ v. Unit) (disk.create_new target w)
          (lawful.keeps_on_create target path old apart w h) (lawful.creates target w tt)

    write-Triple :
        (b before : Bytes)
        → Triple (Both before) (disk.write_all target b) (λ _. Both (before ++ b)) Same
    write-Triple b before w h =
        After-both Same (λ v. content v target ≡ some (before ++ b)) (λ v. Unit)
          (disk.write_all target b w) (lawful.keeps_on_write target path b old apart w h.0)
          (lawful.writes target b before w h.1)

    sync-Triple : (b : Bytes) → Triple (Both b) (disk.sync_all target) (λ _. Both b) Same
    sync-Triple b w h =
        After-both Same (λ v. content v target ≡ some b) (λ v. content v target ≡ some b)
          (disk.sync_all target w) (lawful.keeps_on_sync target path old w h.0)
          (lawful.keeps_on_sync target target (some b) w h.1)

    rename-Triple : (b : Bytes) → Triple (Both b) (disk.rename target path) (λ _. Has b) Same
    rename-Triple b w h = lawful.renames target path (some b) old w (h.1, h.0)

    write_and_rename-Triple :
        (bytes : Bytes)
        → Triple
            (Both [])
            (write_and_rename disk target path bytes)
            (λ _. Has (bytes ++ 10 ∷ []))
            Same
    unfolding write_and_rename
    write_and_rename-Triple bytes =
        bind-Triple (Both []) (disk.write_all target bytes) (λ _. Both bytes)
          (λ _. disk.write_all target (10 ∷ []) >>= λ _.
            disk.sync_all target >>= λ _. disk.rename target path)
          (λ _. Has (bytes ++ 10 ∷ [])) Same (write-Triple bytes [])
          λ _.
            bind-Triple (Both bytes) (disk.write_all target (10 ∷ []))
              (λ _. Both (bytes ++ 10 ∷ []))
              (λ _. disk.sync_all target >>= λ _. disk.rename target path)
              (λ _. Has (bytes ++ 10 ∷ [])) Same (write-Triple (10 ∷ []) bytes)
              λ _.
                bind-Triple (Both (bytes ++ 10 ∷ [])) (disk.sync_all target)
                  (λ _. Both (bytes ++ 10 ∷ [])) (λ _. disk.rename target path)
                  (λ _. Has (bytes ++ 10 ∷ [])) Same (sync-Triple _)
                  λ _. rename-Triple (bytes ++ 10 ∷ [])

    abbrev discarding : Act World (Unit {0})
    discarding = attempt (disk.remove_file target) >>= λ _. done tt

    discard-Keeps : Keeps Same discarding
    discard-Keeps =
        bind-Keeps Same (attempt (disk.remove_file target)) (λ _. done tt)
          (attempt-Keeps Same (disk.remove_file target)
            (lawful.keeps_on_remove target path old apart))
          (λ _ w h. h)

    replace_file-Triple :
        (bytes : Bytes)
        → Triple Same (replace_file disk target path bytes) (λ _. Has (bytes ++ 10 ∷ [])) Same
    unfolding replace_file
    replace_file-Triple bytes =
        bind-Triple Same (disk.create_new target) (λ _. Both [])
          (λ _. or_undo (write_and_rename disk target path bytes) discarding)
          (λ _. Has (bytes ++ 10 ∷ [])) Same create-Triple
          λ _.
            or_undo-Triple (Both []) (write_and_rename disk target path bytes) discarding
              (λ _. Has (bytes ++ 10 ∷ [])) Same Same (write_and_rename-Triple bytes) discard-Keeps

  -- What a save that succeeds leaves in the file.
  abbrev pub IsSaved : StoreFile → World → Type 0
  IsSaved file w = (bytes : Bytes) × (disk.encode_store file ≡ ok bytes) × Has (bytes ++ 10 ∷ []) w

  module _
      (apart : (parent : disk.FilePath) (w : World)
        → temporary disk ".state-v1" parent w ≢ path) where
    save_bytes-Triple :
        (parent : disk.FilePath) (bytes : Bytes)
        → Triple Same (save_bytes disk parent path bytes) (λ _. Has (bytes ++ 10 ∷ [])) Same
    unfolding save_bytes
    save_bytes-Triple parent bytes w h =
        if-both {A = Act World (Unit {0})}
          (λ m.
            After (λ _. Has (bytes ++ 10 ∷ [])) Same
              (proceed (λ _ v. replace_file disk (temporary disk ".state-v1" parent v) path bytes v)
                (m w)))
          (leb (length bytes) max_store_bytes) (done tt) (fail (too_large disk))
          (replace_file-Triple (temporary disk ".state-v1" parent w) (apart parent w) bytes w h) h

    encoded-Triple :
        (file : StoreFile) (parent : disk.FilePath)
        → Triple Same
            (of_result disk (disk.encode_store file) >>= λ bytes. save_bytes disk parent path bytes)
            (λ _. IsSaved file)
            Same
    encoded-Triple file parent w h = of_encoding (disk.encode_store file) refl
      where
        of_encoding :
            (r : IoResult Bytes)
            → disk.encode_store file ≡ r
            → After
                (λ _. IsSaved file)
                Same
                (proceed (λ bytes. save_bytes disk parent path bytes) (w, r))
        of_encoding (ok bytes) e =
            After-mono (λ _. Has (bytes ++ 10 ∷ [])) (λ _. IsSaved file) Same Same
              (save_bytes disk parent path bytes w) (λ _ v k. (bytes, e, k)) (λ v k. k)
              (save_bytes-Triple parent bytes w h)
        of_encoding (failed x) e = h

    save_under-Triple :
        (file : StoreFile) (parent : disk.FilePath)
        → Triple Same (save_under disk parent path file) (λ _. IsSaved file) Same
    unfolding save_under
    save_under-Triple file parent =
        bind-Triple Same (disk.create_dir_all parent) (λ _. Same)
          (λ _. disk.set_private parent >>= λ _.
            of_result disk (disk.encode_store file) >>= λ bytes. save_bytes disk parent path bytes)
          (λ _. IsSaved file) Same (lawful.keeps_on_create_dir parent path old)
          λ _.
            bind-Triple Same (disk.set_private parent) (λ _. Same)
              (λ _. of_result disk (disk.encode_store file) >>= λ bytes.
                save_bytes disk parent path bytes)
              (λ _. IsSaved file) Same (lawful.keeps_on_set_private parent path old)
              λ _. encoded-Triple file parent

    pub save_store-Triple :
        (file : StoreFile) → Triple Same (save_store disk path file) (λ _. IsSaved file) Same
    unfolding save_store
    save_store-Triple file w h = of_parent (disk.parent path)
      where
        of_parent :
            (o : Option disk.FilePath)
            → After
                (λ _. IsSaved file)
                Same
                (proceed
                  (λ parent. save_under disk parent path file)
                  (require_path disk o (no_parent disk) w))
        of_parent none = h
        of_parent (some parent) = save_under-Triple file parent w h

-- On a file system that does as documented, and where the temporary file is another one than the
-- store's: a save that succeeds leaves the encoded data and a newline in the store's file, and one
-- that fails, at whichever call, leaves there what was there before.
pub save_store-IsAtomic :
    (disk : Disk) (content : disk.World → disk.FilePath → Option Bytes) (path : disk.FilePath)
    (file : StoreFile) (w : disk.World)
    → IsLawful disk content
    → ((parent : disk.FilePath) (v : disk.World) → temporary disk ".state-v1" parent v ≢ path)
    → After
        (λ _ v.
          (bytes : Bytes) × (disk.encode_store file ≡ ok bytes)
          × (content v path ≡ some (bytes ++ 10 ∷ [])))
        (λ v. content v path ≡ content w path)
        (save_store disk path file w)
save_store-IsAtomic disk content path file w lawful apart =
    save_store-Triple disk content lawful path (content w path) apart file w refl
