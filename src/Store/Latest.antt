-- ===== src/Store/Latest.antt =====
-- agent/src/store.rs: a connection that has just been recorded is the most recent one.
use proton_vpn_omarchy_core.Base.{
  ℕ, ◌+◌, ◌^◌, ◌≤◌, ◌<◌, Bool, true, false, not, List, [], ◌∷◌, Option, some, ◌≡◌, refl, sym, ap,
  subst, ◌∙◌, inl, inr, ◌⊎◌, arith, leb, length, keep, All, All-mono, All-Memᴰ, Memᴰ, find,
  and_then, Option-cases, if-both, if◌then◌else◌,
}
use mathlib.Core.List.Memᴰ.{head, tail}
use proton_vpn_omarchy_core.Json.{Value, Fields, object, natural, get-put-same, as_object}
use proton_vpn_omarchy_core.Store.File.{AccountStore, number_at, max_unpinned_recents}
use proton_vpn_omarchy_core.Store.Requests.{with_recents}
use proton_vpn_omarchy_core.Store.Recents.{
  connection_time, is_unpinned, latest, later_of, newest_time, most_recent_connection, recent_key,
  has_key_of, trim_recents,
}
use proton_vpn_omarchy_core.Store.Defaults.{validate_default}
use proton_vpn_omarchy_core.Store.Changes.{
  dated_after, finished_recent, others_of, recorded, with_recorded,
}
use proton_vpn_omarchy_core.Store.Resolve.{resolve_last, resolve_found, resolved_recent}
use proton_vpn_omarchy_core.Store.Sorting.{keep-All, All-of_All_mem}
use proton_vpn_omarchy_core.Store.Trimming.{trim_recents-IsTrimmed, trim_recents-Memᴰ}

-- An entry of a list that is this one or older.
abbrev IsOrOlder : Value → Value → Type 0
IsOrOlder x v = (v ≡ x) ⊎ (connection_time v < connection_time x)

latest-All :
    (P : Value → Type 0) (vs : List Value) (w : Value) → latest vs ≡ some w → All P vs → P w
unfolding latest later_of
latest-All P [] w e h = absurd (let no : ⊥ = cc in no)
latest-All P (v ∷ vs) w e h = elim (Option-cases (latest vs)) [
  | inl none_left ↦ let e' = rw none_left at e in let same : v ≡ w = cc in subst P same h.0
  | inr (u, found) ↦
      let of_rest = latest-All P vs u found h.1 in
      let e' : some (if leb (connection_time v) (connection_time u) then u else v) ≡ some w =
        rw found at e in
      let same : (if leb (connection_time v) (connection_time u) then u else v) ≡ w = cc in
      subst P same (if-both P (leb (connection_time v) (connection_time u)) u v of_rest h.0)
]

later_of-new :
    (x v : Value) → v ≡ x → IsOrOlder x v → (w : Value) → IsOrOlder x w → later_of v (some w) ≡ x
unfolding later_of
later_of-new x v same o w (inl e) =
    if-both (λ u. u ≡ x) (leb (connection_time v) (connection_time w)) w v e same
later_of-new x v same o w (inr older) =
    let behind : leb (connection_time v) (connection_time w) ≡ false =
      not_le (connection_time v) (connection_time w)
        (subst (λ t. connection_time w < connection_time t) (sym same) older) in
    rw behind same
  where
    not_le : (m n : ℕ) → n < m → leb m n ≡ false
    not_le m n h = ground arith

later_of-old : (x v : Value) → IsOrOlder x v → later_of v (some x) ≡ x
unfolding later_of
later_of-old x v (inl e) =
    if-both (λ u. u ≡ x) (leb (connection_time v) (connection_time x)) x v refl e
later_of-old x v (inr older) =
    let before : leb (connection_time v) (connection_time x) ≡ true = le_of _ _ older in
    rw before refl
  where
    le_of : (m n : ℕ) → m < n → leb m n ≡ true
    le_of m n h = ground arith

latest-of_newest :
    (x : Value) (vs : List Value) → All (IsOrOlder x) vs → Memᴰ x vs → latest vs ≡ some x
unfolding latest
latest-of_newest x [] h mem = elim mem [ ]
latest-of_newest x (v ∷ vs) h (head e) = elim (Option-cases (latest vs)) [
  | inl none_left ↦ ap (λ o. some (later_of v o)) none_left ∙ ap some (unfold later_of in sym e)
  | inr (w, found) ↦
      ap (λ o. some (later_of v o)) found
      ∙ ap some (later_of-new x v (sym e) h.0 w (latest-All (IsOrOlder x) vs w found h.1))
]
latest-of_newest x (v ∷ vs) h (tail mem) =
    ap (λ o. some (later_of v o)) (latest-of_newest x vs h.1 mem) ∙ ap some (later_of-old x v h.0)

newest_time-All : (vs : List Value) → All (λ v. connection_time v ≤ newest_time vs) vs
unfolding newest_time connection_time number_at
newest_time-All [] = tt
newest_time-All (v ∷ vs) = (
  first (connection_time v) (newest_time vs),
  All-mono vs (λ w h. behind (connection_time v) (newest_time vs) _ h) (newest_time-All vs),
)
  where
    first : (m n : ℕ) → m ≤ (if leb n m then m else n)
    first m n = ground arith

    behind : (m n k : ℕ) → k ≤ n → k ≤ (if leb n m then m else n)
    behind m n k h = ground arith

newest_time-keep : (p : Value → Bool) (vs : List Value) → newest_time (keep p vs) ≤ newest_time vs
unfolding newest_time keep
newest_time-keep p [] = omega arith
newest_time-keep p (v ∷ vs) = ground (arith, newest_time-keep p vs)

module _ (id_time now : ℕ) where
  connection_time-finished :
      (recent : Fields) (reused : Option Fields) (others : List Value)
      → connection_time (object (finished_recent id_time now recent reused others))
        ≡ dated_after id_time now (newest_time others)
  unfolding connection_time number_at finished_recent
  connection_time-finished recent reused others =
      rw
        (get-put-same _ "lastConnectionTimeMs"
          (natural (dated_after id_time now (newest_time others))))
        refl

  newer : (newest : ℕ) → newest + 1 < 2 ^ 64 → newest < dated_after id_time now newest
  newer newest h = ground arith

  -- The entries that `with_recorded` puts before trimming.
  listed : Fields → AccountStore → AccountStore
  unfolding recorded others_of
  listed recent account =
      with_recents
        (object (recorded id_time now recent account)
          ∷ others_of id_time now (recent_key recent) account.recents)
        account

  listed-older :
      (recent : Fields) (account : AccountStore)
      → newest_time account.recents + 1 < 2 ^ 64
      → All
          (IsOrOlder (object (recorded id_time now recent account)))
          (listed recent account).recents
  unfolding listed recorded others_of
  listed-older recent account h =
      let others = others_of id_time now (recent_key recent) account.recents in
      let time =
        connection_time-finished recent
          (and_then (find (has_key_of (recent_key recent)) account.recents) as_object) others in
      let fewer = newest_time-keep (λ r. not (has_key_of (recent_key recent) r)) account.recents in
      (
        inl refl,
        All-mono others
            (λ v older. inr (
              subst (λ t. connection_time v < t) (sym time)
                (behind (connection_time v) (newest_time others) _ older
                  (newer (newest_time others) (omega (arith, fewer, h))))))
            (newest_time-All others),
      )
    where
      behind : (k m n : ℕ) → k ≤ m → m < n → k < n
      behind k m n h i = omega arith

  -- The recorded entry is not pushed out: what stays instead would have to be newer.
  trimmed-Memᴰ :
      (recent : Fields) (account : AccountStore)
      → newest_time account.recents + 1 < 2 ^ 64
      → Memᴰ
          (object (recorded id_time now recent account))
          (trim_recents (listed recent account)).recents
  trimmed-Memᴰ recent account h =
      elim (trim_recents-Memᴰ (listed recent account) (object (recorded id_time now recent account))
        (unfold listed in head refl)) [
          | inl mem ↦ mem
          | inr out ↦
              first_of (object (recorded id_time now recent account)) _
                (trim_recents-IsTrimmed (listed recent account)).1 (listed-older recent account h)
                out.1 out.2
        ]
    where
      not_both : (m n : ℕ) → m < n → n ≤ m → ⊥
      not_both m n h i = omega arith

      first_of :
          (x : Value) (vs : List Value)
          → All (λ v. Memᴰ v (listed recent account).recents) vs
          → All (IsOrOlder x) (listed recent account).recents
          → length (keep is_unpinned vs) ≡ max_unpinned_recents
          → All (λ w. connection_time x ≤ connection_time w) (keep is_unpinned vs)
          → Memᴰ x vs
      first_of x vs from older full newer =
          of_kept (keep is_unpinned vs) full newer
            (keep-All (λ v. Memᴰ v vs) is_unpinned vs (All-of_All_mem _ vs (λ v mem. mem)))
        where
          of_kept :
              (ks : List Value)
              → length ks ≡ max_unpinned_recents
              → All (λ w. connection_time x ≤ connection_time w) ks
              → All (λ w. Memᴰ w vs) ks
              → Memᴰ x vs
          of_kept [] full newer mems = absurd (omega arith)
          of_kept (w ∷ ws) full newer mems =
              elim (All-Memᴰ (IsOrOlder x) _ w older (All-Memᴰ _ vs w from mems.0)) [
                | inl same ↦ subst (λ v. Memᴰ v vs) same mems.0
                | inr less ↦ absurd (not_both (connection_time w) _ less newer.0)
              ]

  -- A connection that is recorded is the most recent one then, and the choice "last" resolves to what
  -- that recent connection resolves to. (No recorded time is the greatest number of 64 bits.)
  pub most_recent_connection-with_recorded :
      (recent : Fields) (account : AccountStore)
      → newest_time account.recents + 1 < 2 ^ 64
      → (most_recent_connection (with_recorded id_time now recent account)
          ≡ some (object (recorded id_time now recent account)))
        × (resolve_last (with_recorded id_time now recent account)
            ≡ resolved_recent
                (with_recorded id_time now recent account)
                (object (recorded id_time now recent account))
                "last")
  unfolding most_recent_connection with_recorded validate_default resolve_last resolve_found listed
  most_recent_connection-with_recorded recent account h =
      let found =
        latest-of_newest (object (recorded id_time now recent account))
          (trim_recents (listed recent account)).recents
          (All-mono _ (λ v mem. All-Memᴰ _ _ v (listed-older recent account h) mem)
            (trim_recents-IsTrimmed (listed recent account)).1)
          (trimmed-Memᴰ recent account h) in
      (found, ap (resolve_found (with_recorded id_time now recent account)) found)
