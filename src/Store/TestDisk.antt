-- ===== src/Store/TestDisk.antt =====
-- A file system in memory, for the tests of the store: what each path holds.
use text.Mathlib.TextLemmas.{head-eq_of_cons-eq}
use proton_vpn_omarchy_core.Base.{
  ℕ, false, code, String, [], ◌∷◌, ◌++◌, Option, none, some, ◌≡◌, ◌≢◌, refl, sym, ap, ◌∙◌, arith,
  str_eq, str_eq_refl, str_eq_of_ne, is_some, if◌then◌else◌, length,
}
use proton_vpn_omarchy_core.Json.{null}
use proton_vpn_omarchy_core.Io.{
  other, IoError, IoResult, ok, failed, Act, Keeps, Triple, After, done, fail,
}
use proton_vpn_omarchy_core.Store.File.{StoreFile, default_store_file}
use proton_vpn_omarchy_core.Store.Disk.{Disk, Bytes, Metadata, regular, io_error, temporary}
use proton_vpn_omarchy_core.Store.Atomic.{IsLawful}
use proton_vpn_omarchy_core.Store.Reload.{IsReadable}

abbrev pub Files : Type 0
Files = String → Option Bytes

abbrev pub no_files : Files
no_files p = none

abbrev set_file : String → Option Bytes → Files → Files
set_file p o w q = if str_eq q p then o else w q

abbrev refused : IoError
refused = io_error other "refused"

abbrev created : Option Bytes → String → Act Files (Unit {0})
created (some b) p = fail refused
created none p = λ w. (set_file p (some []) w, ok tt)

abbrev written : Option Bytes → String → Bytes → Act Files (Unit {0})
written none p b = fail refused
written (some old) p b = λ w. (set_file p (some (old ++ b)) w, ok tt)

abbrev moved : Option Bytes → String → String → Act Files (Unit {0})
moved none p q = fail refused
moved (some b) p q = λ w. (set_file q (some b) (set_file p none w), ok tt)

abbrev metadata_of : Option Bytes → IoResult Metadata
metadata_of none = failed (io_error proton_vpn_omarchy_core.Io.not_found "no such file")
metadata_of (some b) = ok (record { file_type = regular; size = length b })

abbrev contents_of : Option Bytes → IoResult Bytes
contents_of none = failed refused
contents_of (some b) = ok b

-- The encoding is that of data that differs from the default in its revision only.
abbrev decoded : Bytes → IoResult StoreFile
decoded (start ∷ revision ∷ rest) = ok (record default_store_file { revision = revision })
decoded _ = failed refused

abbrev pub memory : Disk
memory = record {
  World = Files;
  FilePath = String;
  parent = λ p. some "home";
  join = λ p name. String.◌∷◌ "t" name;
  file_name = λ p. some p;
  autostart_unit = "unit";
  process_id = 7;
  now_ms = λ w. 1000;
  exists = λ w p. is_some (w p);
  create_dir_all = λ p. done tt;
  set_private = λ p. done tt;
  create_new = λ p w. created (w p) p w;
  write_all = λ p b w. written (w p) p b w;
  sync_all = λ p. done tt;
  rename = λ p q w. moved (w p) p q w;
  remove_file = λ p w. (set_file p none w, ok tt);
  symlink_metadata = λ p w. (w, metadata_of (w p));
  read_link = λ p. done "unit";
  symlink = λ p q w. (set_file q (some []) w, ok tt);
  read = λ p w. (w, contents_of (w p));
  encode_store = λ file. ok (123 ∷ file.revision ∷ 125 ∷ []);
  encode_value = λ v. ok (123 ∷ 125 ∷ []);
  decode_store = decoded;
  decode_value = λ b. ok null;
}

abbrev pub content : Files → String → Option Bytes
content w p = w p

set_file-other : (p q : String) (o : Option Bytes) (w : Files) → p ≢ q → set_file p o w q ≡ w q
set_file-other p q o w ne =
    let e : str_eq q p ≡ false = str_eq_of_ne q p (λ same. ne (sym same)) in rw e refl

set_file-same : (p : String) (o : Option Bytes) (w : Files) → set_file p o w p ≡ o
set_file-same p o w = rw (str_eq_refl p) refl

pub memory-IsLawful : IsLawful memory content
memory-IsLawful = record {
  keeps_on_create_dir = λ p q o w h. h;
  keeps_on_set_private = λ p q o w h. h;
  keeps_on_sync = λ p q o w h. h;
  keeps_on_create = λ p q o ne w h. create_other p q o ne w h (w p);
  keeps_on_write = λ p q b o ne w h. write_other p q b o ne w h (w p);
  keeps_on_remove = λ p q o ne w h. set_file-other p q none w ne ∙ h;
  creates = λ p w h. create_same p w (w p);
  writes = λ p b old w h. write_same p b old w (w p) h;
  renames = λ p q new old w h. move p q new old w (w p) h.0 h.1;
}
  where
    create_other :
        (p q : String) (o : Option Bytes)
        → p ≢ q
        → (w : Files) → w q ≡ o
        → (c : Option Bytes) → After (λ _ v. v q ≡ o) (λ v. v q ≡ o) (created c p w)
    create_other p q o ne w h none = set_file-other p q (some []) w ne ∙ h
    create_other p q o ne w h (some b) = h

    write_other :
        (p q : String) (b : Bytes) (o : Option Bytes)
        → p ≢ q
        → (w : Files) → w q ≡ o
        → (c : Option Bytes) → After (λ _ v. v q ≡ o) (λ v. v q ≡ o) (written c p b w)
    write_other p q b o ne w h none = h
    write_other p q b o ne w h (some old) = set_file-other p q (some (old ++ b)) w ne ∙ h

    create_same :
        (p : String) (w : Files) (c : Option Bytes)
        → After (λ _ v. v p ≡ some []) (λ v. Unit) (created c p w)
    create_same p w none = set_file-same p (some []) w
    create_same p w (some b) = tt

    write_same :
        (p : String) (b old : Bytes) (w : Files) (c : Option Bytes)
        → c ≡ some old
        → After (λ _ v. v p ≡ some (old ++ b)) (λ v. Unit) (written c p b w)
    write_same p b old w none e = tt
    write_same p b old w (some before) e =
        let same : before ≡ old = cc in
        set_file-same p (some (before ++ b)) w ∙ ap (λ c. some (c ++ b)) same

    move :
        (p q : String) (new old : Option Bytes) (w : Files) (c : Option Bytes)
        → c ≡ new
        → w q ≡ old
        → After (λ _ v. v q ≡ new) (λ v. v q ≡ old) (moved c p q w)
    move p q new old w none e h = h
    move p q new old w (some b) e h = set_file-same q (some b) (set_file p none w) ∙ e

pub memory-IsReadable : IsReadable memory content
memory-IsReadable = record {
  measures = λ p b w h. ap (λ c. (w, metadata_of c)) h;
  reads = λ p b w h. ap (λ c. (w, contents_of c)) h;
}

-- No temporary file has the store's name.
pub temporary_apart :
    (parent : String) (w : Files) → temporary memory ".state-v1" parent w ≢ "state"
temporary_apart parent w e = apart (code "t") (code "s") refl refl (ap code (head-eq_of_cons-eq e))
  where
    apart : (m n : ℕ) → m ≡ 116 → n ≡ 115 → m ≡ n → ⊥
    apart m n h k same = omega arith
