-- ===== src/Store/Disk.antt =====
-- agent/src/store.rs: the files of the store. The file system, the encodings of serde_json and the
-- process's number are parameters; `Act` is a call that changes the file system or fails.
use proton_vpn_omarchy_core.Base.{
  ℕ, ◌==◌, Bool, true, false, ◌||◌, not, String, List, [], ◌∷◌, Option, none, some, length, ltb,
  leb, concat, decimal, str_eq, and_then, if◌then◌else◌,
}
use proton_vpn_omarchy_core.Json.{Value, Fields, natural, boolean, string, json, as_object}
use proton_vpn_omarchy_core.Io.{
  ErrorKind, invalid_input, invalid_data, already_exists, not_found, IoError, IoResult, ok, failed,
  Act, ◌>>=◌, ◌>>◌, done, fail, current, attempt, or_undo,
}
use proton_vpn_omarchy_core.Store.File.{StoreFile, Onboarding, store_version, max_store_bytes}
use proton_vpn_omarchy_core.Store.Seed.{import_object}

pub data FileType : Type 0 where
  regular symbolic_link other_type : FileType

pub record Metadata : Type 0 where
  pub file_type : FileType
  pub size : ℕ

abbrev pub Bytes : Type 0
Bytes = List ℕ

pub record Disk : Type 1 where
  pub World : Type 0
  pub FilePath : Type 0
  pub parent : FilePath → Option FilePath
  pub join : FilePath → String → FilePath
  pub file_name : FilePath → Option String
  pub autostart_unit : FilePath
  pub process_id : ℕ
  pub now_ms : World → ℕ
  pub exists : World → FilePath → Bool
  pub create_dir_all : FilePath → Act World (Unit {0})
  pub set_private : FilePath → Act World (Unit {0})  -- mode 0o700
  pub create_new : FilePath → Act World (Unit {0})  -- mode 0o600
  pub write_all : FilePath → Bytes → Act World (Unit {0})
  pub sync_all : FilePath → Act World (Unit {0})
  pub rename : FilePath → FilePath → Act World (Unit {0})
  pub remove_file : FilePath → Act World (Unit {0})
  pub symlink_metadata : FilePath → Act World Metadata
  pub read_link : FilePath → Act World FilePath
  pub symlink : FilePath → FilePath → Act World (Unit {0})
  pub read : FilePath → Act World Bytes
  pub encode_store : StoreFile → IoResult Bytes
  pub encode_value : Value → IoResult Bytes
  pub decode_store : Bytes → IoResult StoreFile
  pub decode_value : Bytes → IoResult Value

abbrev pub io_error : ErrorKind → String → IoError
io_error kind message = record { kind = kind; message = message }

abbrev is_regular : Metadata → Bool
is_regular m = elim m.file_type [ regular ↦ true | _ ↦ false ]

abbrev is_symlink : Metadata → Bool
is_symlink m = elim m.file_type [ symbolic_link ↦ true | _ ↦ false ]

abbrev is_not_found : IoError → Bool
is_not_found e = elim e.kind [ not_found ↦ true | _ ↦ false ]

abbrev same_name : Option String → Option String → Bool
same_name none none = true
same_name (some a) (some b) = str_eq a b
same_name _ _ = false

abbrev newline : Bytes
newline = 10 ∷ []

module _ (disk : Disk) where
  open disk use {World, FilePath, join}

  abbrev pub of_result : {A : Type 0} → IoResult A → Act World A
  of_result r = λ w. (w, r)

  abbrev pub require_path : Option FilePath → IoError → Act World FilePath
  require_path none e = fail e
  require_path (some p) e = done p

  abbrev unless : Bool → IoError → Act World (Unit {0})
  unless b e = if b then done tt else fail e

  abbrev when : Bool → Act World (Unit {0}) → Act World (Unit {0})
  when b m = if b then m else done tt

  abbrev pub temporary : String → FilePath → World → FilePath
  temporary stem parent w =
      join parent (
        concat (stem ∷ "." ∷ decimal disk.process_id ∷ "." ∷ decimal (disk.now_ms w) ∷ ".tmp" ∷ []))

  -- A new file that is written, flushed and renamed over the old one, and removed on an error.
  unfoldable pub write_and_rename : FilePath → FilePath → Bytes → Act World (Unit {0})
  write_and_rename target path bytes = do
    disk.write_all target bytes
    disk.write_all target newline
    disk.sync_all target
    disk.rename target path

  abbrev discard : FilePath → Act World (Unit {0})
  discard target = do removed ← attempt (disk.remove_file target); done tt

  unfoldable pub replace_file : FilePath → FilePath → Bytes → Act World (Unit {0})
  unfolding write_and_rename
  replace_file target path bytes = do
    disk.create_new target
    or_undo (write_and_rename target path bytes) (discard target)

  abbrev pub too_large : IoError
  too_large = io_error invalid_data "canonical store exceeds the size limit"

  unfoldable pub save_bytes : FilePath → FilePath → Bytes → Act World (Unit {0})
  unfolding replace_file decimal
  save_bytes parent path bytes = do
    unless (leb (length bytes) max_store_bytes) too_large
    w ← current
    replace_file (temporary ".state-v1" parent w) path bytes

  unfoldable pub save_under : FilePath → FilePath → StoreFile → Act World (Unit {0})
  unfolding save_bytes
  save_under parent path file = do
    disk.create_dir_all parent
    disk.set_private parent
    bytes ← of_result (disk.encode_store file)
    save_bytes parent path bytes

  abbrev pub no_parent : IoError
  no_parent = io_error invalid_input "canonical store has no parent directory"

  unfoldable pub save_store : FilePath → StoreFile → Act World (Unit {0})
  unfolding save_under
  save_store path file = do
    parent ← require_path (disk.parent path) no_parent
    save_under parent path file

  unfoldable pub save_private_bytes : FilePath → Bytes → Act World (Unit {0})
  unfolding replace_file decimal
  save_private_bytes path bytes = do
    parent ←
        require_path (disk.parent path)
          (io_error invalid_input "private state has no parent directory")
    disk.create_dir_all parent
    disk.set_private parent
    w ← current
    replace_file (temporary ".lifecycle" parent w) path bytes

  abbrev lifecycle_value : Onboarding → Value
  lifecycle_value s = json (
      ("version", natural 1)
      ∷ ("onboarding_complete", boolean s.complete)
      ∷ ("locale", string s.locale)
      ∷ ("start_with_omarchy", boolean s.start_with_omarchy)
      ∷ ("auto_connect", boolean s.auto_connect)
      ∷ ("notifications_enabled", boolean s.notifications_enabled)
      ∷ ("port_forwarding_notifications_enabled", boolean s.port_forwarding_notifications_enabled)
      ∷ [])

  unfoldable pub save_lifecycle : FilePath → Onboarding → Act World (Unit {0})
  unfolding save_private_bytes
  save_lifecycle path s = do
    bytes ← of_result (disk.encode_value (lifecycle_value s))
    save_private_bytes path bytes

  unfoldable pub remove_registration : FilePath → Bool → Metadata → Act World (Unit {0})
  remove_registration link enabled metadata = do
    unless (is_symlink metadata)
        (io_error already_exists "refusing to replace a non-symlink autostart registration")
    target ← disk.read_link link
    unless (same_name (disk.file_name target) (disk.file_name disk.autostart_unit))
        (io_error already_exists "refusing to replace an unrelated autostart registration")
    when (not enabled) (disk.remove_file link)

  unfoldable pub add_registration : FilePath → FilePath → Bool → IoError → Act World (Unit {0})
  add_registration wants_dir link enabled e =
      if is_not_found e
      then when enabled (do disk.create_dir_all wants_dir; disk.symlink disk.autostart_unit link)
      else fail e

  abbrev on_metadata : FilePath → FilePath → Bool → IoResult Metadata → Act World (Unit {0})
  on_metadata wants_dir link enabled (ok metadata) = remove_registration link enabled metadata
  on_metadata wants_dir link enabled (failed e) = add_registration wants_dir link enabled e

  unfoldable pub sync_autostart_registration : FilePath → Bool → Act World (Unit {0})
  unfolding remove_registration add_registration
  sync_autostart_registration lifecycle_path enabled = do
    config_home ←
        require_path (and_then (disk.parent lifecycle_path) disk.parent)
          (io_error invalid_input "invalid lifecycle path")
    let wants_dir = join config_home "systemd/user/default.target.wants"
    let link = join wants_dir "proton-omarchy-agent.service"
    found ← attempt (disk.symlink_metadata link)
    on_metadata wants_dir link enabled found

  unfoldable pub load_store : FilePath → Act World StoreFile
  load_store path = do
    metadata ← disk.symlink_metadata path
    unless (is_regular metadata) (io_error invalid_data "canonical store is not a regular file")
    unless (leb metadata.size max_store_bytes) too_large
    bytes ← disk.read path
    file ← of_result (disk.decode_store bytes)
    unless (file.version == store_version) (
        io_error invalid_data
          (concat ("unsupported canonical store version " ∷ decimal file.version ∷ [])))
    done file

  abbrev import_root : Option Fields → StoreFile → StoreFile × Bool
  import_root none file = (file, false)
  import_root (some o) file = import_object o file

  unfoldable pub import_legacy : FilePath → StoreFile → Act World (StoreFile × Bool)
  unfolding import_object
  import_legacy path file = do
    w ← current
    if not (disk.exists w path) then done (file, false) else (do
      metadata ← disk.symlink_metadata path
      if not (is_regular metadata) || ltb max_store_bytes metadata.size
          then done (file, false)
          else (do
            bytes ← disk.read path
            root ← of_result (disk.decode_value bytes)
            done (import_root (as_object root) file)))
