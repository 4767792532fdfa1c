-- ===== src/Agent/Whole.antt =====
-- agent/src/store.rs and agent/src/state_reducer.rs: what each step of the agent preserves.
use proton_vpn_omarchy_core.Base.{
  ◌≡◌, ℕ, Bool, false, not, String, Option, none, some, sym, subst, inl, inr, is_empty, trim,
  keep_if, map_some, Bool-cases,
}
use proton_vpn_omarchy_core.Json.{Value}
use proton_vpn_omarchy_core.Backend.{Result, ok, err, failure_of}
use proton_vpn_omarchy_core.Operations.Registry.{Coordinator, OperationLease}
use proton_vpn_omarchy_core.Operations.Begin.{begin}
use proton_vpn_omarchy_core.Operations.Calls.{begins, finishes, step}
use proton_vpn_omarchy_core.StateReducer.Events.{apply_event}
use proton_vpn_omarchy_core.StateReducer.Runs.{IsWhole, stages-IsWhole, apply_event-IsWhole}
use proton_vpn_omarchy_core.Store.File.{StoreFile, next_file}
use proton_vpn_omarchy_core.Store.Disk.{Disk}
use proton_vpn_omarchy_core.Store.Handle.{
  Inner, request, admitted, concluded_with, request_inner, publish_store,
}
use proton_vpn_omarchy_core.Store.Ids.{account_fingerprint}
use proton_vpn_omarchy_core.Store.Accounts.{
  activate_account, activate_key, activated, prepare, is_active, changed_value,
}
use proton_vpn_omarchy_core.Store.Commit.{Settled, Reverted, mutate_lem}
use proton_vpn_omarchy_core.Store.Activation.{Activated, activate_key_lem}
use proton_vpn_omarchy_core.Store.Keeps.{IsKept, AllAccounts-RestsOn}
use proton_vpn_omarchy_core.Store.Kept.{request_inner-rule}
use proton_vpn_omarchy_core.Store.Tidy.{IsTidy-IsKept}
use proton_vpn_omarchy_core.Store.Distinct.{HasOwnTargets-IsKept}
use proton_vpn_omarchy_core.Store.OwnIds.{HasOwnIds-IsKept}
use proton_vpn_omarchy_core.Store.Seeding.{IsGood, AllGood, default_account-IsGood, prepare-AllGood}
use proton_vpn_omarchy_core.Agent.{Step, asked, reported, called, activating, report, perform}

IsGood-IsKept : IsKept IsGood
IsGood-IsKept =
    let tidy = IsTidy-IsKept in
    let targets = HasOwnTargets-IsKept in
    let ids = HasOwnIds-IsKept in
    record {
      saved = λ ip_text raw existing id now o a e q. (
        tidy.saved ip_text raw existing id now o a e q.0,
        targets.saved ip_text raw existing id now o a e q.1,
        ids.saved ip_text raw existing id now o a e q.2,
      );
      copied = λ ip_text raw id_time now o a few e q. (
        tidy.copied ip_text raw id_time now o a few e q.0,
        targets.copied ip_text raw id_time now o a few e q.1,
        ids.copied ip_text raw id_time now o a few e q.2,
      );
      defaulted =
          λ a v q. (tidy.defaulted a v q.0, targets.defaulted a v q.1, ids.defaulted a v q.2);
      pinned = λ id_time now id b a q. (
        tidy.pinned id_time now id b a q.0,
        targets.pinned id_time now id b a q.1,
        ids.pinned id_time now id b a q.2,
      );
      put_first = λ id_time now r a q. (
        tidy.put_first id_time now r a q.0,
        targets.put_first id_time now r a q.1,
        ids.put_first id_time now r a q.2,
      );
      fewer = λ a ps p less q.
          (tidy.fewer a ps p less q.0, targets.fewer a ps p less q.1, ids.fewer a ps p less q.2);
      located = λ a params ls e q. (
        tidy.located a params ls e q.0,
        targets.located a params ls e q.1,
        ids.located a params ls e q.2,
      );
    }

module _ (disk : Disk) (path lifecycle_path : disk.FilePath) where
  abbrev State : Type 0
  State = Inner disk path lifecycle_path

  -- Every account is good, the snapshot is consistent, and it shows a sound registry.
  abbrev pub IsWell : State → Type 0
  IsWell s = AllGood s.file × IsWhole s.coordinator

  published-IsWhole :
      (file : StoreFile) (c : Coordinator)
      → IsWhole c
      → IsWhole (publish_store disk path lifecycle_path file c)
  unfolding publish_store
  published-IsWhole file c (consistent, sound) = (
    record {
      tier_fits = consistent.tier_fits;
      connection_ok = consistent.connection_ok;
      features_ok = consistent.features_ok;
    },
    sound,
  )

  published-IsWell :
      (file : StoreFile) (s t : State)
      → AllGood file
      → IsWhole s.coordinator
      → t.file ≡ file
      → t.coordinator ≡ publish_store disk path lifecycle_path file s.coordinator
      → IsWell t
  published-IsWell file s t good whole kept shown = (
    subst AllGood (sym kept) good,
    subst IsWhole (sym shown) (published-IsWhole file s.coordinator whole),
  )

  Reverted-IsWell :
      (s : State) (r : State × Result Value)
      → IsWell s
      → Reverted disk path lifecycle_path s r
      → IsWell r.0
  Reverted-IsWell s r (good, whole) h =
      (subst AllGood (sym h.1) good, subst IsWhole (sym h.2) whole)

  Settled-IsWell :
      (s : State) (changed : StoreFile × Result Value) (r : State × Result Value)
      → IsWell s
      → AllGood changed.0
      → Settled disk path lifecycle_path s changed r
      → IsWell r.0
  Settled-IsWell s (file, err e) r well good h = subst (λ r. IsWell r.0) (sym h) (good, well.1)
  Settled-IsWell s (file, ok reply) r well good (inl h) =
      published-IsWell (next_file file) s r.0 good well.1 h.1 h.2
  Settled-IsWell s (file, ok reply) r well good (inr h) = Reverted-IsWell s r well h

  module _ (ip_text : String → Option String) where
    request_inner-IsWell :
        (id_time now : ℕ) (method : String) (params : Value) (s : State)
        → IsWell s
        → IsWell (request_inner disk path lifecycle_path ip_text id_time now method params s).0
    request_inner-IsWell id_time now method params s well =
        request_inner-rule IsGood-IsKept (AllAccounts-RestsOn IsGood default_account-IsGood) ip_text
          id_time now disk path lifecycle_path (λ r. IsWell r.0) method params s (λ r. well)
          (λ m keeps.
            Settled-IsWell s (m s.file) _ well (keeps.at s.file well.0)
              (mutate_lem disk path lifecycle_path m s))

    request-IsWell :
        (id_time now earlier later : ℕ) (client method : String) (params : Value) (s : State)
        → IsWell s
        → IsWell
            (request disk path lifecycle_path ip_text id_time now earlier later client method params
              s).0
    unfolding request
    request-IsWell id_time now earlier later client method params s well =
        of_begin (begin earlier client method s.coordinator)
          (unfold step in stages-IsWhole s.coordinator (begins earlier client method) well.1)
      where
        of_end :
            (lease : Option OperationLease) (r : State × Result Value)
            → IsWell r.0
            → IsWell (concluded_with disk path lifecycle_path ip_text id_time now later lease r).0
        of_end lease (t, r) (good, whole) = (
          good,
          unfold step in stages-IsWhole t.coordinator (finishes later lease (failure_of r)) whole,
        )

        of_begin :
            (b : Result (Option OperationLease) × Coordinator)
            → IsWhole b.1
            → IsWell
                (admitted disk path lifecycle_path ip_text id_time now later method params s b).0
        of_begin (err e, c) whole = (well.0, whole)
        of_begin (ok lease, c) whole =
            of_end lease
              (request_inner disk path lifecycle_path ip_text id_time now method params
                (record s { coordinator = c }))
              (request_inner-IsWell id_time now method params (record s { coordinator = c })
                (well.0, whole))

    Activated-IsWell :
        (key : String) (s : State) (prepared : StoreFile × Result Bool) (r : State × Result Value)
        → IsWell s
        → AllGood prepared.0
        → Activated ip_text disk path lifecycle_path key s prepared r
        → IsWell r.0
    Activated-IsWell key s (file, err e) r well good h =
        subst (λ r. IsWell r.0) (sym h) (good, well.1)
    Activated-IsWell key s (file, ok b) r well good (inl h) =
        published-IsWell (activated ip_text disk path lifecycle_path key file) s r.0 good well.1 h.1
          h.2
    Activated-IsWell key s (file, ok b) r well good (inr h) = Reverted-IsWell s r well h

    activate_key-IsWell :
        (dates : String → ℕ) (key : String) (s : State)
        → IsWell s
        → IsWell (activate_key ip_text disk path lifecycle_path dates key s).0
    activate_key-IsWell dates key s well =
        elim (Bool-cases (is_active key s.file.active_account_key)) [
          | inl e ↦ unfold activate_key in rw e well
          | inr e ↦
              Activated-IsWell key s (prepare ip_text dates key s.file) _ well
                (prepare-AllGood ip_text dates key s.file well.0)
                (activate_key_lem ip_text disk path lifecycle_path dates key s e)
        ]

    activate_account-IsWell :
        (to_lowercase : String → String) (dates : String → ℕ) (name : Option String) (s : State)
        → IsWell s
        → IsWell (activate_account ip_text disk path lifecycle_path to_lowercase dates name s).0
    unfolding activate_account
    activate_account-IsWell to_lowercase dates name s well =
        of_name (keep_if (λ n. not (is_empty n)) (map_some trim name))
      where
        of_name :
            (o : Option String)
            → IsWell
                (elim o as (λ _. State × Result Value) [
                  | none ↦ (s, ok (changed_value false))
                  | some n ↦
                      activate_key ip_text disk path lifecycle_path dates
                        (account_fingerprint to_lowercase n)
                        s
                ]).0
        of_name none = well
        of_name (some n) = activate_key-IsWell dates (account_fingerprint to_lowercase n) s well

    report-IsWell :
        (to_lowercase : String → String) (now : ℕ) (dates : String → ℕ) (event : String) (v : Value)
        (s : State)
        → IsWell s
        → IsWell (report disk path lifecycle_path ip_text to_lowercase now dates event v s)
    unfolding report
    report-IsWell to_lowercase now dates event v s well =
        of_applied (apply_event now event v s.coordinator)
          (apply_event-IsWhole now event v s.coordinator well.1)
      where
        of_applied :
            (applied : Coordinator × Option String)
            → IsWhole applied.0
            → IsWell (activating disk path lifecycle_path ip_text to_lowercase dates s applied)
        of_applied (c, none) whole = (well.0, whole)
        of_applied (c, some name) whole =
            activate_account-IsWell to_lowercase dates (some name) (record s { coordinator = c })
              (well.0, whole)

    pub perform-IsWell :
        (to_lowercase : String → String) (s : State) (step : Step)
        → IsWell s
        → IsWell (perform disk path lifecycle_path ip_text to_lowercase s step)
    unfolding perform
    perform-IsWell to_lowercase s (asked earlier later id_time now client method params) well =
        request-IsWell id_time now earlier later client method params s well
    perform-IsWell to_lowercase s (reported now dates event v) well =
        report-IsWell to_lowercase now dates event v s well
    perform-IsWell to_lowercase s (called call) well =
        (well.0, stages-IsWhole s.coordinator call well.1)
