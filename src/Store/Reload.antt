-- ===== src/Store/Reload.antt =====
-- agent/src/store.rs: what loading makes of the file that a save has left.
use proton_vpn_omarchy_core.Base.{
  arith, ℕ, ◌+◌, Bool, true, false, [], ◌∷◌, ◌++◌, Option, some, ◌≡◌, ◌≢◌, refl, sym, ap, ◌∙◌, leb,
  ltb, ◌==◌, length, if◌then◌else◌, concat, decimal,
}
use proton_vpn_omarchy_core.Io.{
  IoError, IoResult, ok, failed, After, After-mono, ◌>>=◌, ◌>>◌, done, fail, invalid_data,
}
use proton_vpn_omarchy_core.Store.File.{StoreFile, store_version, max_store_bytes}
use proton_vpn_omarchy_core.Store.Disk.{
  Disk, Bytes, regular, of_result, temporary, save_store, load_store, too_large, io_error,
}
use proton_vpn_omarchy_core.Store.Atomic.{IsLawful, save_store-IsAtomic}

-- What is documented of reading: a regular file is known by its size and gives what it holds.
pub record IsReadable (disk : Disk) (content : disk.World → disk.FilePath → Option Bytes)
    : Type 0 where
  pub measures :
      (p : disk.FilePath) (b : Bytes) (w : disk.World)
      → content w p ≡ some b
      → disk.symlink_metadata p w ≡ (w, ok (record { file_type = regular; size = length b }))
  pub reads :
      (p : disk.FilePath) (b : Bytes) (w : disk.World)
      → content w p ≡ some b
      → disk.read p w ≡ (w, ok b)

abbrev refused_version : StoreFile → IoError
refused_version file =
    io_error invalid_data
      (concat ("unsupported canonical store version " ∷ decimal file.version ∷ []))

-- `load_store` on what a regular file holds.
abbrev checked_version : IoResult StoreFile → IoResult StoreFile
checked_version (failed e) = failed e
checked_version (ok file) =
    if file.version == store_version then ok file else failed (refused_version file)

abbrev loaded : Disk → Bytes → IoResult StoreFile
loaded disk bytes =
    if leb (length bytes) max_store_bytes
    then checked_version (disk.decode_store bytes)
    else failed (too_large disk)

module _ (disk : Disk) (content : disk.World → disk.FilePath → Option Bytes)
    (readable : IsReadable disk content) (path : disk.FilePath) where
  load_store-holding :
      (b : Bytes) (w : disk.World)
      → content w path ≡ some b
      → load_store disk path w ≡ (w, loaded disk b)
  unfolding load_store
  load_store-holding b w h =
      rw (readable.measures path b w h) (of_size (leb (length b) max_store_bytes))
    where
      of_version :
          (file : StoreFile) (c : Bool)
          → ((if c then done tt else fail (refused_version file)) >> done file) w
            ≡ (w, if c then ok file else failed (refused_version file))
      of_version file true = refl
      of_version file false = refl

      of_decoded :
          (r : IoResult StoreFile)
          → (of_result disk r >>= λ file.
                (if file.version == store_version then done tt else fail (refused_version file))
                >> done file)
              w
            ≡ (w, checked_version r)
      of_decoded (ok file) = of_version file (file.version == store_version)
      of_decoded (failed e) = refl

      of_size :
          (c : Bool)
          → ((if c then done tt else fail (too_large disk))
                >> (disk.read path >>= λ bytes. of_result disk (disk.decode_store bytes) >>= λ file.
                    (if file.version == store_version then done tt else fail (refused_version file))
                    >> done file))
              w
            ≡ (w, if c then checked_version (disk.decode_store b) else failed (too_large disk))
      of_size true = rw (readable.reads path b w h) (of_decoded (disk.decode_store b))
      of_size false = refl

length-newline : (b : Bytes) → length (b ++ 10 ∷ []) ≡ length b + 1
length-newline [] = refl
length-newline (x ∷ b) =
    let rest : length (b ++ 10 ∷ []) ≡ length b + 1 = length-newline b in omega arith

leb-suc : (m n : ℕ) → leb (m + 1) n ≡ ltb m n
leb-suc m n = ground arith

loaded-newline :
    (disk : Disk) (file : StoreFile) (b : Bytes)
    → file.version ≡ store_version
    → disk.decode_store (b ++ 10 ∷ []) ≡ ok file
    → loaded disk (b ++ 10 ∷ [])
      ≡ (if ltb (length b) max_store_bytes then ok file else failed (too_large disk))
loaded-newline disk file b current e =
    rw (length-newline b, e, leb-suc (length b) max_store_bytes, current) refl

module _ (disk : Disk) (content : disk.World → disk.FilePath → Option Bytes) (path : disk.FilePath)
    (file : StoreFile) (w : disk.World) where
  -- What `save_store-IsAtomic` says of a save that succeeds.
  abbrev Saved : disk.World → Type 0
  Saved v = (b : Bytes) × (disk.encode_store file ≡ ok b) × (content v path ≡ some (b ++ 10 ∷ []))

  abbrev pub Reloads : disk.World → Type 0
  Reloads v =
      (b : Bytes) × (disk.encode_store file ≡ ok b)
      × (load_store disk path v
          ≡ (v, if ltb (length b) max_store_bytes then ok file else failed (too_large disk)))

  abbrev pub LoadsAsBefore : disk.World → Type 0
  LoadsAsBefore v =
      (b : Bytes)
      → content w path ≡ some b
      → (load_store disk path v).1 ≡ (load_store disk path w).1

  -- On a file system that does as documented, and for data of the current version that its encoding
  -- gives back: after a save that succeeds, loading gives that data if its encoding is shorter than
  -- the limit, and is refused as too large otherwise; and after a save that fails, a regular file
  -- loads as it did before.
  pub load_store-save_store :
      IsLawful disk content
      → IsReadable disk content
      → ((parent : disk.FilePath) (v : disk.World) → temporary disk ".state-v1" parent v ≢ path)
      → file.version ≡ store_version
      → ((b : Bytes) → disk.encode_store file ≡ ok b → disk.decode_store (b ++ 10 ∷ []) ≡ ok file)
      → After (λ _. Reloads) LoadsAsBefore (save_store disk path file w)
  load_store-save_store lawful readable apart current decodes =
      After-mono (λ _. Saved) (λ _. Reloads) (λ v. content v path ≡ content w path) LoadsAsBefore
        (save_store disk path file w) (λ _ v saved. reloads v saved.0 saved.1 saved.2)
        (λ v same b h. ap (λ q. q.1) (holding b v (same ∙ h)) ∙ sym (ap (λ q. q.1) (holding b w h)))
        (save_store-IsAtomic disk content path file w lawful apart)
    where
      holding :
          (b : Bytes) (v : disk.World)
          → content v path ≡ some b
          → load_store disk path v ≡ (v, loaded disk b)
      holding = load_store-holding disk content readable path

      reloads :
          (v : disk.World) (b : Bytes)
          → disk.encode_store file ≡ ok b
          → content v path ≡ some (b ++ 10 ∷ [])
          → Reloads v
      reloads v b e h = (
        b,
        e,
        holding _ v h ∙ ap (λ r. (v, r)) (loaded-newline disk file b current (decodes b e)),
      )
