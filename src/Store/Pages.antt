-- ===== src/Store/Pages.antt =====
-- agent/src/store.rs: a client that follows the pages of a list sees all of it.
use proton_vpn_omarchy_core.Base.{
  Option, none, some, map_some, true, ℕ, zero, suc, ◌+◌, ◌-◌, ◌≤◌, ◌<◌, min, false, List, [], ◌∷◌,
  ◌++◌, ◌≡◌, refl, sym, ap, subst, ◌∙◌, inl, inr, arith, length, take, ltb, if◌then◌else◌,
  Bool-cases,
}
use proton_vpn_omarchy_core.Json.{Value}
use proton_vpn_omarchy_core.Store.File.{StoreFile, account_ref}
use proton_vpn_omarchy_core.Store.Values.{usize_max}
use proton_vpn_omarchy_core.Store.Changes.{Collection, items_of, skip, page_of}
use proton_vpn_omarchy_core.Store.Sorting.{take-of_short}

take-skip : (n : ℕ) (vs : List Value) → take n vs ++ skip n vs ≡ vs
unfolding skip
take-skip zero vs = refl
take-skip (suc n) [] = refl
take-skip (suc n) (v ∷ vs) = ap (λ ws. v ∷ ws) (take-skip n vs)

skip-nil : (n : ℕ) → skip n [] ≡ []
unfolding skip
skip-nil zero = refl
skip-nil (suc n) = refl

skip-skip : (m n : ℕ) (vs : List Value) → skip n (skip m vs) ≡ skip (m + n) vs
unfolding skip
skip-skip zero n vs = ap (λ k. skip k vs) (plain n)
  where
    plain : (n : ℕ) → n ≡ 0 + n
    plain n = omega arith
skip-skip (suc m) n [] = skip-nil n ∙ sym (skip-nil (suc m + n))
skip-skip (suc m) n (v ∷ vs) = skip-skip m n vs ∙ ap (λ k. skip k (v ∷ vs)) (moved m n)
  where
    moved : (m n : ℕ) → suc (m + n) ≡ suc m + n
    moved m n = omega arith

length-skip : (n : ℕ) (vs : List Value) → length (skip n vs) ≡ length vs - n
unfolding skip
length-skip zero vs = omega arith
length-skip (suc n) [] = omega arith
length-skip (suc n) (v ∷ vs) = omega (arith, length-skip n vs)

module _ (collection : Collection) (file : StoreFile) (limit : ℕ) where
  -- A client that asks for the next page as long as there is more. It has no answer if it has not
  -- come to the last page in so many requests.
  unfoldable pub follow : ℕ → ℕ → Option (List Value)
  unfolding page_of
  follow zero offset = none
  follow (suc fuel) offset =
      let page = page_of collection file offset limit in
      let rest = follow fuel (offset + limit) in
      if page.has_more then map_some (λ vs. page.items ++ vs) rest else some page.items

  abbrev all_items : List Value
  all_items = items_of collection (account_ref file)

  follow-skip :
      (fuel offset : ℕ)
      → 0 < limit
      → length all_items < usize_max
      → 0 < fuel
      → length all_items < offset + fuel
      → follow fuel offset ≡ some (skip offset all_items)
  unfolding follow page_of
  follow-skip zero offset h small asked enough = absurd (omega arith)
  follow-skip (suc fuel) offset h small asked enough =
      elim (Bool-cases (ltb (min (offset + limit) usize_max) (length all_items))) [
        | inl more ↦ rw more (
            ap (map_some (λ vs. take limit (skip offset all_items) ++ vs)) (
              follow-skip fuel (offset + limit) h small
                (again limit offset fuel (length all_items) small more enough)
                (further limit offset fuel (length all_items) h enough)
              ∙ ap some (sym (skip-skip offset limit all_items)))
            ∙ ap some (take-skip limit (skip offset all_items)))
        | inr last ↦ rw last (
            ap some (
              take-of_short limit (skip offset all_items) (
                subst (λ n. n ≤ limit) (sym (length-skip offset all_items))
                  (rest_fits (length all_items) offset limit small last))))
      ]
    where
      further : (l o f n : ℕ) → 0 < l → n < o + suc f → n < o + l + f
      further l o f n h e = omega arith

      again :
          (l o f n : ℕ)
          → n < usize_max
          → ltb (min (o + l) usize_max) n ≡ true
          → n < o + suc f
          → 0 < f
      again l o f n few more h = ground arith

      rest_fits : (n o l : ℕ) → n < usize_max → ltb (min (o + l) usize_max) n ≡ false → n - o ≤ l
      rest_fits n o l small e = ground arith

-- A client that starts at the first entry and asks for the next page while `has_more` is true comes to
-- the last page in at most one request more than there are entries, and has then got every entry of the
-- list, once and in order.
-- (The pages hold at least one entry, and the list is shorter than the greatest `usize`.)
pub follow-all :
    (collection : Collection) (file : StoreFile) (limit : ℕ)
    → 0 < limit
    → length (items_of collection (account_ref file)) < usize_max
    → follow collection file limit (length (items_of collection (account_ref file)) + 1) 0
      ≡ some (items_of collection (account_ref file))
follow-all collection file limit h small =
    follow-skip collection file limit (length (items_of collection (account_ref file)) + 1) 0 h
      small (omega arith) (omega arith)
    ∙ unfold skip in refl
