-- ===== src/Store/Activation.antt =====
-- agent/src/store.rs: what the activation of an account leaves behind.
use proton_vpn_omarchy_core.Base.{
  subst, Bool, true, false, String, Option, none, some, ◌≡◌, refl, ap, ◌∙◌, ◌⊎◌, inl, inr, ℕ,
  str_eq_refl, str_eq_iff, Bool-cases,
}
use proton_vpn_omarchy_core.Json.{Value}
use proton_vpn_omarchy_core.Backend.{Result, ok, err}
use proton_vpn_omarchy_core.Io.{IoResult, Triple, or_undo, bind-Triple}
use proton_vpn_omarchy_core.Operations.Registry.{Coordinator}
use proton_vpn_omarchy_core.Store.File.{StoreFile}
use proton_vpn_omarchy_core.Store.Disk.{Disk, save_store}
use proton_vpn_omarchy_core.Store.Handle.{
  Inner, publish_store, publish_locked, save, roll_back, store_io_error,
}
use proton_vpn_omarchy_core.Store.Commit.{Committed, Reverted, replied-Settled}
use proton_vpn_omarchy_core.Store.Persist.{Holds, HoldsAt, saving-Step, publishing-Triple}
use proton_vpn_omarchy_core.Store.Accounts.{
  prepare, activated, when_prepared, activate_key, save_activated, is_active, changed_value,
}

module _ (ip_text : String → Option String) (disk : Disk)
    (path lifecycle_path : disk.FilePath) where
  abbrev State : Type 0
  State = Inner disk path lifecycle_path

  -- The store's file has been written, and nothing else.
  abbrev pub IsSaved : StoreFile → disk.World → disk.World → Type 0
  IsSaved file v w = save_store disk path file v ≡ (w, IoResult.ok tt)

  save_activated-Triple :
      (previous file : StoreFile) (c : Coordinator) (v : disk.World)
      → Triple
          (HoldsAt disk path lifecycle_path file c (λ w. w ≡ v))
          (save_activated ip_text disk path lifecycle_path previous)
          (λ _.
            HoldsAt disk path lifecycle_path file
              (publish_store disk path lifecycle_path file c)
              (IsSaved file v))
          (Holds disk path lifecycle_path previous c)
  unfolding save_activated
  save_activated-Triple previous file c v =
      let At = HoldsAt disk path lifecycle_path file c in
      let W = λ (w : disk.World). w ≡ v in
      let V = λ (w : disk.World). (u : disk.World) × (u ≡ v) × IsSaved file u w in
      bind-Triple (At W)
        (or_undo (save disk path lifecycle_path) (roll_back disk path lifecycle_path previous))
        (λ _. At V) (λ _. publish_locked disk path lifecycle_path)
        (λ _.
          HoldsAt disk path lifecycle_path file (publish_store disk path lifecycle_path file c)
            (IsSaved file v))
        (Holds disk path lifecycle_path previous c)
        (saving-Step disk path lifecycle_path previous file c W)
        (λ _.
          publishing-Triple disk path lifecycle_path previous file c V (IsSaved file v)
            (λ w (u, same, saved). subst (λ u. IsSaved file u w) same saved))

  -- The end of an activation by that of the preparation of the account's data.
  abbrev pub Activated : String → State → StoreFile × Result Bool → State × Result Value → Type 0
  Activated key s (file, err e) r = r ≡ (record s { file = file }, err e)
  Activated key s (file, ok b) r =
      Committed disk path lifecycle_path
        (IsSaved (activated ip_text disk path lifecycle_path key file) s.world)
        (activated ip_text disk path lifecycle_path key file) (changed_value true) s r
      ⊎ Reverted disk path lifecycle_path s r

  when_prepared-Activated :
      (key : String) (s : State) (prepared : StoreFile × Result Bool)
      → Activated key s prepared (when_prepared ip_text disk path lifecycle_path key s prepared)
  when_prepared-Activated key s (file, err e) = refl
  when_prepared-Activated key s (file, ok b) =
      let next = activated ip_text disk path lifecycle_path key file in
      replied-Settled disk path lifecycle_path (IsSaved next s.world) next (changed_value true) s _
        (save_activated-Triple s.file next s.coordinator s.world (record s { file = next })
          (refl, refl, refl))

  again :
      (now : String → ℕ) (key : String) (s : State)
      → s.file.active_account_key ≡ some key
      → activate_key ip_text disk path lifecycle_path now key s ≡ (s, ok (changed_value false))
  unfolding activate_key
  again now key s e =
      let same : is_active key s.file.active_account_key ≡ true =
        ap (is_active key) e ∙ str_eq_refl key in
      rw same refl

  is_active-some : (key : String) (o : Option String) → is_active key o ≡ true → o ≡ some key
  is_active-some key none e = absurd (let no : ⊥ = cc in no)
  is_active-some key (some k) e = ap some ((str_eq_iff k key).0 e)

  ends_active :
      (key : String) (s : State) (prepared : StoreFile × Result Bool) (r : State × Result Value)
      (v : Value)
      → Activated key s prepared r
      → r.1 ≡ ok v
      → r.0.file.active_account_key ≡ some key
  ends_active key s (file, err e) r v h ok_v =
      absurd (let f : r.1 ≡ err e = ap (λ r. r.1) h in let no : ⊥ = cc in no)
  ends_active key s (file, ok b) r v (inl h) ok_v = ap (λ f. f.active_account_key) h.1
  ends_active key s (file, ok b) r v (inr h) ok_v =
      absurd (let f : r.1 ≡ err (store_io_error h.0.0) = h.0.1 in let no : ⊥ = cc in no)

  step_active :
      (now : String → ℕ) (key : String) (s : State) (v : Value)
      → (activate_key ip_text disk path lifecycle_path now key s).1 ≡ ok v
      → (activate_key ip_text disk path lifecycle_path now key s).0.file.active_account_key
        ≡ some key
  unfolding activate_key
  step_active now key s v e = elim (Bool-cases (is_active key s.file.active_account_key)) [
    | inl same ↦ rw same (is_active-some key s.file.active_account_key same)
    | inr other ↦ rw other (
        ends_active key s (prepare ip_text now key s.file) _ v
          (when_prepared-Activated key s (prepare ip_text now key s.file)) (rw other at e))
  ]

-- The activation of an account that is not the active one has one of three ends. Its data cannot be
-- prepared, and that error is the reply. Or the prepared data, with the account as the active one and
-- the next revision, is written, and the file system is as that write leaves it: the reply says that it
-- changed, and that data is kept and published. Or the write fails: the reply is a `store_io` error, and the data and what is published are as
-- before.
pub activate_key_lem :
    (ip_text : String → Option String) (disk : Disk) (path lifecycle_path : disk.FilePath)
    (now : String → ℕ) (key : String) (s : Inner disk path lifecycle_path)
    → is_active key s.file.active_account_key ≡ false
    → Activated ip_text disk path lifecycle_path key s
        (prepare ip_text now key s.file)
        (activate_key ip_text disk path lifecycle_path now key s)
unfolding activate_key
activate_key_lem ip_text disk path lifecycle_path now key s other = rw other (
    when_prepared-Activated ip_text disk path lifecycle_path key s (prepare ip_text now key s.file))

-- An activation that succeeds makes the account the active one, and the same activation once more
-- changes nothing at all.
pub activate_key-again :
    (ip_text : String → Option String) (disk : Disk) (path lifecycle_path : disk.FilePath)
    (now later : String → ℕ) (key : String) (s : Inner disk path lifecycle_path) (v : Value)
    → (activate_key ip_text disk path lifecycle_path now key s).1 ≡ ok v
    → ((activate_key ip_text disk path lifecycle_path now key s).0.file.active_account_key
        ≡ some key)
      × (activate_key ip_text disk path lifecycle_path later key
            (activate_key ip_text disk path lifecycle_path now key s).0
          ≡ ((activate_key ip_text disk path lifecycle_path now key s).0, ok (changed_value false)))
activate_key-again ip_text disk path lifecycle_path now later key s v e =
    let active = step_active ip_text disk path lifecycle_path now key s v e in
    (
      active,
      again ip_text disk path lifecycle_path later key
          (activate_key ip_text disk path lifecycle_path now key s).0 active,
    )
