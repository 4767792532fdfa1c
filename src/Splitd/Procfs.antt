-- ===== src/Splitd/Procfs.antt =====
-- splitd/src/procfs.rs: what is read of a process in /proc. The reads and `from_utf8_lossy` are
-- parameters.
use proton_vpn_omarchy_core.Base.{
  ℕ, zero, suc, ◌+◌, ◌*◌, ◌-◌, ◌^◌, Bool, true, false, not, ◌&&◌, List, [], ◌∷◌, ◌++◌, String,
  Option, none, some, code, any, str_eq, keep, map, is_empty, is_whitespace, is_ascii_digit,
  same_char, split_at_char, strip_prefix, onto_first, join_with, and_then, ltb, ◌==◌, if◌then◌else◌,
}
use proton_vpn_omarchy_core.Io.{IoError, IoResult, ok, failed, invalid_data}
use proton_vpn_omarchy_core.Splitd.Tracking.{ProcessInfo}
use proton_vpn_omarchy_core.Splitd.Connector.{Bytes}

abbrev invalid : String → IoError
invalid message = record { kind = invalid_data; message = message }

abbrev pub required : {A : Type 0} → Option A → IoError → IoResult A
required none e = failed e
required (some a) e = ok a

-- `split_whitespace`: the words between the white space.
unfoldable pub pieces : String → List String
pieces String.[] = String.[] ∷ []
pieces (String.◌∷◌ c s) =
    let rest = pieces s in if is_whitespace c then String.[] ∷ rest else onto_first c rest

unfoldable pub split_whitespace : String → List String
unfolding pieces keep
split_whitespace s = keep (λ w. not (is_empty w)) (pieces s)

-- `str::parse::<u32>`: decimal digits, after a plus sign at most, of a number below 2^32.
unfoldable pub parse_digits : ℕ → String → Option ℕ
parse_digits n String.[] = some n
parse_digits n (String.◌∷◌ c s) =
    if is_ascii_digit c then parse_digits (n * 10 + (code c - 48)) s else none

abbrev pub without_plus : String → String
without_plus String.[] = String.[]
without_plus (String.◌∷◌ c s) = if same_char c "+" then s else String.◌∷◌ c s

abbrev pub if_below : ℕ → ℕ → Option ℕ
if_below limit n = if ltb n limit then some n else none

unfoldable pub parse_u32 : String → Option ℕ
unfolding parse_digits
parse_u32 s =
    let digits = without_plus s in
    if is_empty digits then none else and_then (parse_digits 0 digits) (if_below (2 ^ 32))

-- `find_map(|line| line.strip_prefix("Uid:"))`. A carriage return that `lines` takes off is white
-- space to what follows.
unfoldable pub find_uid : List String → Option String
unfolding strip_prefix
find_uid [] = none
find_uid (line ∷ lines) = elim (strip_prefix line "Uid:") [
  | some rest ↦ some rest
  | none ↦ find_uid lines
]

abbrev pub nth : {A : Type 0} → ℕ → List A → Option A
nth n [] = none
nth zero (x ∷ xs) = some x
nth (suc n) (x ∷ xs) = nth n xs

abbrev pub result_then : {A B : Type 0} → IoResult A → (A → IoResult B) → IoResult B
result_then (ok a) f = f a
result_then (failed e) f = failed e

unfoldable pub parse_uid : String → IoResult ℕ
unfolding find_uid split_at_char split_whitespace parse_u32
parse_uid status =
    result_then
      (required
        (and_then (find_uid (split_at_char "\n" status)) (λ line. nth 0 (split_whitespace line)))
        (invalid "process UID missing"))
      (λ raw.
        required (and_then (parse_u32 raw) (if_below (2 ^ 16))) (invalid "process UID unsupported"))

-- `rsplit_once(") ")`: what stands behind the last one.
unfoldable pub behind_last : String → Option String
unfolding strip_prefix
behind_last String.[] = none
behind_last (String.◌∷◌ c s) = elim (behind_last s) [
  | some rest ↦ some rest
  | none ↦ strip_prefix (String.◌∷◌ c s) ") "
]

unfoldable pub parse_ppid : String → IoResult ℕ
unfolding behind_last split_whitespace parse_u32
parse_ppid stat =
    result_then (required (behind_last stat) (invalid "process stat malformed")) (λ suffix.
      required (and_then (nth 1 (split_whitespace suffix)) parse_u32)
        (invalid "process parent missing"))

-- `split(|byte| *byte == 0)`.
abbrev byte_onto : ℕ → List Bytes → List Bytes
byte_onto b [] = (b ∷ []) ∷ []
byte_onto b (w ∷ ws) = (b ∷ w) ∷ ws

unfoldable pub split_at_nul : Bytes → List Bytes
split_at_nul [] = [] ∷ []
split_at_nul (b ∷ bs) = let rest = split_at_nul bs in if b == 0 then [] ∷ rest else byte_onto b rest

abbrev is_full : Bytes → Bool
is_full [] = false
is_full (b ∷ bs) = true

module _ (lossy : Bytes → String) where
  unfoldable pub parse_cmdline : Bytes → String
  unfolding split_at_nul keep join_with
  parse_cmdline bytes = join_with " " (map lossy (keep is_full (split_at_nul bytes)))

  -- The files of a process, by its number: `status`, `stat`, the link `exe`, and `cmdline`.
  pub record Proc : Type 0 where
    pub status : ℕ → IoResult String
    pub stat : ℕ → IoResult String
    pub exe : ℕ → IoResult String
    pub cmdline : ℕ → IoResult Bytes
    pub entries : IoResult (List (IoResult (Option String)))

  abbrev with_executable : IoResult String → List String
  with_executable (failed e) = []
  with_executable (ok value) = if is_empty value then [] else value ∷ []

  abbrev with_cmdline : IoResult Bytes → List String → List String
  with_cmdline (failed e) ids = ids
  with_cmdline (ok bytes) ids =
      let value = parse_cmdline bytes in
      if not (is_empty value) && not (any (str_eq value) ids) then ids ++ value ∷ [] else ids

  unfoldable pub read_process : Proc → ℕ → IoResult ProcessInfo
  unfolding parse_uid parse_ppid parse_cmdline
  read_process proc pid = result_then (proc.status pid) λ status.
      result_then (parse_uid status) λ uid. result_then (proc.stat pid) λ stat.
        result_then (parse_ppid stat) λ ppid. ok (record {
          uid = uid;
          pid = pid;
          ppid = ppid;
          identities = with_cmdline (proc.cmdline pid) (with_executable (proc.exe pid));
        })

  -- The loop of `scan`: an entry that cannot be read, is no number, or has gone is left out.
  abbrev read_entry : Proc → IoResult (Option String) → Option ℕ
  read_entry proc (failed e) = none
  read_entry proc (ok name) = and_then name parse_u32

  abbrev of_result : IoResult ProcessInfo → List ProcessInfo → List ProcessInfo
  of_result (ok p) ps = p ∷ ps
  of_result (failed e) ps = ps

  abbrev with_process : Proc → Option ℕ → List ProcessInfo → List ProcessInfo
  with_process proc none ps = ps
  with_process proc (some pid) ps = of_result (read_process proc pid) ps

  unfoldable pub scan_entries : Proc → List (IoResult (Option String)) → List ProcessInfo
  unfolding read_process parse_u32
  scan_entries proc [] = []
  scan_entries proc (e ∷ es) = with_process proc (read_entry proc e) (scan_entries proc es)

  unfoldable pub scan : Proc → IoResult (List ProcessInfo)
  unfolding scan_entries
  scan proc = result_then proc.entries (λ es. ok (scan_entries proc es))
