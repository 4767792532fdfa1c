-- ===== src/Store/Trimming.antt =====
-- agent/src/store.rs: what `trim_recents` keeps of the recents, and in which order.
use proton_vpn_omarchy_core.Base.{
  ℕ, ◌≤◌, true, false, List, [], ◌∷◌, ◌++◌, append-nil, ◌≡◌, refl, sym, ap, subst, ◌∙◌, inl, inr,
  ◌⊎◌, arith, leb, length, take, length-take-le, keep, All, All-mono, All-append, All-take,
  Pairwise, Memᴰ, Bool-cases,
}
use proton_vpn_omarchy_core.Json.{Value}
use proton_vpn_omarchy_core.Store.File.{AccountStore, max_unpinned_recents}
use proton_vpn_omarchy_core.Store.Requests.{with_recents}
use proton_vpn_omarchy_core.Store.Recents.{
  sort, is_pinned, is_unpinned, pin_time, connection_time, pinned_before, unpinned_before,
  trim_recents,
}
use proton_vpn_omarchy_core.Store.Sorting.{
  keep-All, keep-holds, keep-of_All, keep-of_none, keep-append, keep-Memᴰ, take-of_short,
  All-of_All_mem, Memᴰ-append_left, Memᴰ-append_right, Pairwise-take, take-or_after, sort-All,
  sort-Memᴰ, sort-Pairwise, sort-of_sorted, Before,
}

pinned_part : List Value → List Value
pinned_part vs = sort pinned_before (keep is_pinned vs)

unpinned_part : List Value → List Value
unpinned_part vs = sort unpinned_before (keep is_unpinned vs)

unpinned-of_pinned : (v : Value) → is_pinned v ≡ true → is_unpinned v ≡ false
unfolding is_unpinned
unpinned-of_pinned v h = rw h refl

pinned-of_unpinned : (v : Value) → is_unpinned v ≡ true → is_pinned v ≡ false
unfolding is_unpinned
pinned-of_unpinned v h = elim (Bool-cases (is_pinned v)) [
  | inl e ↦ absurd (let h' = rw e at h in let no : ⊥ = cc in no)
  | inr e ↦ e
]

pinned_of_not : (v : Value) → is_unpinned v ≡ false → is_pinned v ≡ true
unfolding is_unpinned
pinned_of_not v h = elim (Bool-cases (is_pinned v)) [
  | inl e ↦ e
  | inr e ↦ absurd (let h' = rw e at h in let no : ⊥ = cc in no)
]

abbrev OldestPinFirst : Value → Value → Type 0
OldestPinFirst v w = pin_time v ≤ pin_time w

abbrev NewestFirst : Value → Value → Type 0
NewestFirst v w = connection_time w ≤ connection_time v

le-total : (m n : ℕ) → leb m n ≡ false → leb n m ≡ true
le-total m n h = ground arith

le_trans : (k m n : ℕ) → leb k m ≡ true → leb m n ≡ true → leb k n ≡ true
le_trans k m n h i = ground arith

pinned_part-Pairwise : (vs : List Value) → Pairwise (Before pinned_before) (pinned_part vs)
unfolding pinned_part pinned_before
pinned_part-Pairwise vs =
    sort-Pairwise pinned_before (λ v w h. le-total (pin_time v) (pin_time w) h)
      (λ u v w h i. le_trans (pin_time u) (pin_time v) (pin_time w) h i) (keep is_pinned vs)

unpinned_part-Pairwise : (vs : List Value) → Pairwise (Before unpinned_before) (unpinned_part vs)
unfolding unpinned_part unpinned_before
unpinned_part-Pairwise vs =
    sort-Pairwise unpinned_before (λ v w h. le-total (connection_time w) (connection_time v) h)
      (λ u v w h i. le_trans (connection_time w) (connection_time v) (connection_time u) i h)
      (keep is_unpinned vs)

pinned_part-All : (vs : List Value) → All (λ v. is_pinned v ≡ true) (pinned_part vs)
unfolding pinned_part
pinned_part-All vs = sort-All pinned_before (λ v. is_pinned v ≡ true) _ (keep-holds is_pinned vs)

unpinned_part-All : (vs : List Value) → All (λ v. is_unpinned v ≡ true) (unpinned_part vs)
unfolding unpinned_part
unpinned_part-All vs =
    sort-All unpinned_before (λ v. is_unpinned v ≡ true) _ (keep-holds is_unpinned vs)

-- The parts of a list that stands as `trim_recents` leaves it.
module _ (ps us : List Value) (hp : All (λ v. is_pinned v ≡ true) ps)
    (hu : All (λ v. is_unpinned v ≡ true) us) where
  keep-pinned-parts : keep is_pinned (ps ++ us) ≡ ps
  keep-pinned-parts =
      keep-append is_pinned ps us
      ∙ ap (λ vs. vs ++ keep is_pinned us) (keep-of_All is_pinned ps hp)
      ∙ ap (λ vs. ps ++ vs) (keep-of_none is_pinned us (All-mono us pinned-of_unpinned hu))
      ∙ append-nil ps

  keep-unpinned-parts : keep is_unpinned (ps ++ us) ≡ us
  keep-unpinned-parts =
      keep-append is_unpinned ps us
      ∙ ap (λ vs. vs ++ keep is_unpinned us)
          (keep-of_none is_unpinned ps (All-mono ps unpinned-of_pinned hp))
      ∙ keep-of_All is_unpinned us hu

abbrev kept_unpinned : List Value → List Value
kept_unpinned vs = take max_unpinned_recents (unpinned_part vs)

trimmed_list : List Value → List Value
unfolding pinned_part unpinned_part
trimmed_list vs = pinned_part vs ++ kept_unpinned vs

trim_recents-list : (a : AccountStore) → (trim_recents a).recents ≡ trimmed_list a.recents
unfolding trim_recents trimmed_list pinned_part unpinned_part
trim_recents-list a = refl

kept-All : (vs : List Value) → All (λ v. is_unpinned v ≡ true) (kept_unpinned vs)
kept-All vs = All-take (λ v. is_unpinned v ≡ true) max_unpinned_recents _ (unpinned_part-All vs)

keep-unpinned-trimmed : (vs : List Value) → keep is_unpinned (trimmed_list vs) ≡ kept_unpinned vs
unfolding trimmed_list
keep-unpinned-trimmed vs = keep-unpinned-parts _ _ (pinned_part-All vs) (kept-All vs)

keep-pinned-trimmed : (vs : List Value) → keep is_pinned (trimmed_list vs) ≡ pinned_part vs
unfolding trimmed_list
keep-pinned-trimmed vs = keep-pinned-parts _ _ (pinned_part-All vs) (kept-All vs)

pub unpinned-trimmed :
    (a : AccountStore) → length (keep is_unpinned (trim_recents a).recents) ≤ max_unpinned_recents
unpinned-trimmed a =
    subst (λ vs. length vs ≤ max_unpinned_recents)
      (sym (ap (keep is_unpinned) (trim_recents-list a) ∙ keep-unpinned-trimmed a.recents))
      (length-take-le max_unpinned_recents (unpinned_part a.recents))

trimmed_list_idem : (vs : List Value) → trimmed_list (trimmed_list vs) ≡ trimmed_list vs
trimmed_list_idem vs =
    let pins : pinned_part (trimmed_list vs) ≡ pinned_part vs =
      unfold pinned_part in
      ap (sort pinned_before) (keep-pinned-trimmed vs)
      ∙ sort-of_sorted pinned_before (pinned_part vs) (pinned_part-Pairwise vs) in
    let rest : unpinned_part (trimmed_list vs) ≡ kept_unpinned vs =
      unfold unpinned_part in
      ap (sort unpinned_before) (keep-unpinned-trimmed vs)
      ∙ sort-of_sorted unpinned_before (kept_unpinned vs) (
          Pairwise-take (Before unpinned_before) max_unpinned_recents _
            (unpinned_part-Pairwise vs)) in
    let short : take max_unpinned_recents (kept_unpinned vs) ≡ kept_unpinned vs =
      take-of_short max_unpinned_recents _
        (length-take-le max_unpinned_recents (unpinned_part vs)) in
    unfold trimmed_list in
    ap (λ ps. ps ++ kept_unpinned (trimmed_list vs)) pins
    ∙ ap (λ us. pinned_part vs ++ us) (ap (take max_unpinned_recents) rest ∙ short)

abbrev InOrder : List Value → List Value → Type 0
InOrder ps us =
    All (λ v. is_pinned v ≡ true) ps
    × Pairwise OldestPinFirst ps
    × All (λ v. is_unpinned v ≡ true) us
    × Pairwise NewestFirst us
    × (length us ≤ max_unpinned_recents)

-- The recents are pinned ones, from the oldest pin, and then at most six others, from the newest.
abbrev pub IsTrimmed : List Value → Type 0
IsTrimmed vs = (ps : List Value) × (us : List Value) × (vs ≡ ps ++ us) × InOrder ps us

Pairwise-mono :
    (R S : Value → Value → Type 0) (vs : List Value)
    → ((v w : Value) → R v w → S v w)
    → Pairwise R vs
    → Pairwise S vs
Pairwise-mono R S [] f h = tt
Pairwise-mono R S (v ∷ vs) f h = (All-mono vs (f v) h.0, Pairwise-mono R S vs f h.1)

trimmed_list-IsTrimmed : (vs : List Value) → IsTrimmed (trimmed_list vs)
unfolding trimmed_list pinned_before unpinned_before
trimmed_list-IsTrimmed vs = (
  pinned_part vs,
  kept_unpinned vs,
  refl,
  (
    pinned_part-All vs,
    Pairwise-mono (Before pinned_before) OldestPinFirst _ (λ v w h. le_of (pin_time v) _ h)
        (pinned_part-Pairwise vs),
    kept-All vs,
    Pairwise-mono (Before unpinned_before) NewestFirst _ (λ v w h. le_of (connection_time w) _ h)
        (Pairwise-take (Before unpinned_before) max_unpinned_recents _ (unpinned_part-Pairwise vs)),
    length-take-le max_unpinned_recents (unpinned_part vs),
  ),
)
  where
    le_of : (m n : ℕ) → leb m n ≡ true → m ≤ n
    le_of m n h = ground arith

trimmed_list-from : (vs : List Value) → All (λ v. Memᴰ v vs) (trimmed_list vs)
unfolding trimmed_list pinned_part unpinned_part
trimmed_list-from vs =
    let all : All (λ v. Memᴰ v vs) vs = All-of_All_mem _ vs (λ v mem. mem) in
    All-append (λ v. Memᴰ v vs) _ _
      (sort-All pinned_before (λ v. Memᴰ v vs) _ (keep-All (λ v. Memᴰ v vs) is_pinned vs all))
      (All-take (λ v. Memᴰ v vs) max_unpinned_recents _
        (sort-All unpinned_before (λ v. Memᴰ v vs) _
          (keep-All (λ v. Memᴰ v vs) is_unpinned vs all)))

trim_recents-as : (a : AccountStore) → trim_recents a ≡ with_recents (trimmed_list a.recents) a
unfolding trim_recents trimmed_list pinned_part unpinned_part
trim_recents-as a = refl

abbrev IsPushedOut : Value → List Value → Type 0
IsPushedOut v vs =
    (is_unpinned v ≡ true)
    × (length (keep is_unpinned vs) ≡ max_unpinned_recents)
    × All (λ w. connection_time v ≤ connection_time w) (keep is_unpinned vs)

stays :
    (vs : List Value) (v : Value)
    → Memᴰ v vs
    → Memᴰ v (trimmed_list vs) ⊎ IsPushedOut v (trimmed_list vs)
unfolding trimmed_list pinned_part unpinned_part unpinned_before
stays vs v mem = elim (Bool-cases (is_unpinned v)) [
  | inr e ↦ inl (
      Memᴰ-append_left v _ _
        (sort-Memᴰ pinned_before v _ (keep-Memᴰ is_pinned vs v mem (pinned_of_not v e))))
  | inl e ↦
      elim (take-or_after (Before unpinned_before) max_unpinned_recents (unpinned_part vs) v
        (unpinned_part-Pairwise vs)
        (sort-Memᴰ unpinned_before v _ (keep-Memᴰ is_unpinned vs v mem e))) [
          | inl kept ↦ inl (Memᴰ-append_right v (pinned_part vs) _ kept)
          | inr (full, newer) ↦ inr (
            e,
            ap length (keep-unpinned-trimmed vs) ∙ full,
            subst (All (λ w. connection_time v ≤ connection_time w))
                (sym (keep-unpinned-trimmed vs))
                (All-mono (kept_unpinned vs) (λ w h. le_of (connection_time v) _ h) newer),
          )
        ]
]
  where
    le_of : (m n : ℕ) → leb m n ≡ true → m ≤ n
    le_of m n h = ground arith

pub trim_recents-IsTrimmed :
    (a : AccountStore)
    → IsTrimmed (trim_recents a).recents
      × All (λ v. Memᴰ v a.recents) (trim_recents a).recents
      × (trim_recents (trim_recents a) ≡ trim_recents a)
trim_recents-IsTrimmed a = (
  subst IsTrimmed (sym (trim_recents-list a)) (trimmed_list-IsTrimmed a.recents),
  subst (All (λ v. Memᴰ v a.recents)) (sym (trim_recents-list a)) (trimmed_list-from a.recents),
  trim_recents-as (trim_recents a)
      ∙ ap (λ b. with_recents (trimmed_list b.recents) b) (trim_recents-as a)
      ∙ ap (λ vs. with_recents vs a) (trimmed_list_idem a.recents)
      ∙ sym (trim_recents-as a),
)

-- A recent connection stays when the list is trimmed, or else it is not pinned and six others that
-- are not pinned, none of them older, stay.
pub trim_recents-Memᴰ :
    (a : AccountStore) (v : Value)
    → Memᴰ v a.recents
    → Memᴰ v (trim_recents a).recents
      ⊎ ((is_unpinned v ≡ true)
          × (length (keep is_unpinned (trim_recents a).recents) ≡ max_unpinned_recents)
          × All
              (λ w. connection_time v ≤ connection_time w)
              (keep is_unpinned (trim_recents a).recents))
trim_recents-Memᴰ a v mem =
    subst (λ vs. Memᴰ v vs ⊎ IsPushedOut v vs) (sym (trim_recents-list a)) (stays a.recents v mem)
