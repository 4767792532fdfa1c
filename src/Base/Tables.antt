-- ===== src/Base/Tables.antt =====
-- Maps with texts for keys: `BTreeMap<String, _>` and what `Entry` and `get` make of one.
use mathlib.Core.Path.{◌≡◌, refl, sym, ap, subst, ◌∙◌}
use mathlib.Core.Logic.{inl, inr}
use mathlib.Core.Bool.{Bool, false}
use mathlib.Core.Option.{Option, none, some}
use mathlib.Core.List.{List, [], ◌∷◌, map}
use Prim.Native.String.{String}
use proton_vpn_omarchy_core.Base.Tests.{if◌then◌else◌, is_some, Bool-cases, if-both}
use proton_vpn_omarchy_core.Base.Text.{str_eq, str_eq_iff, str_eq_refl}
use proton_vpn_omarchy_core.Base.Lists.{All}

abbrev pub Table : Type 0 → Type 0
Table A = List (String × A)

module _ {A : Type 0} where
  unfoldable pub entry : String → Table A → Option A
  entry k [] = none
  entry k ((j, a) ∷ t) = if str_eq j k then some a else entry k t

  unfoldable pub set_entry : String → A → Table A → Table A
  set_entry k a [] = (k, a) ∷ []
  set_entry k a ((j, b) ∷ t) = if str_eq j k then (j, a) ∷ t else (j, b) ∷ set_entry k a t

  abbrev pub has_entry : String → Table A → Bool
  has_entry k t = is_some (entry k t)

  abbrev pub names : Table A → List String
  names = map (λ e. e.0)

  pub entry-set_entry-same : (k : String) (a : A) (t : Table A) → entry k (set_entry k a t) ≡ some a
  unfolding entry set_entry
  entry-set_entry-same k a [] = rw (str_eq_refl k) refl
  entry-set_entry-same k a ((j, b) ∷ t) = elim (Bool-cases (str_eq j k)) [
    | inl same ↦ rw same (rw same refl)
    | inr other ↦ rw other (rw other (entry-set_entry-same k a t))
  ]

  pub entry-set_entry-other :
      (k j : String) (a : A) (t : Table A)
      → str_eq k j ≡ false
      → entry j (set_entry k a t) ≡ entry j t
  unfolding entry set_entry
  entry-set_entry-other k j a [] ne = rw ne refl
  entry-set_entry-other k j a ((i, b) ∷ t) ne = elim (Bool-cases (str_eq i k)) [
    | inl same ↦
        let ik : i ≡ k = (str_eq_iff i k).0 same in
        let ij : str_eq i j ≡ false = rw ik ne in
        let past : (c : A) → entry j ((i, c) ∷ t) ≡ entry j t = λ c. rw ij refl in
        rw same (past a ∙ sym (past b))
    | inr other ↦
        rw other (ap (λ o. if str_eq i j then some b else o) (entry-set_entry-other k j a t ne))
  ]

  -- What holds of every value of a table and of the new one holds of every value afterwards.
  pub All-set_entry :
      (P : A → Type 0) (k : String) (a : A) (t : Table A)
      → All (λ e. P e.1) t
      → P a
      → All (λ e. P e.1) (set_entry k a t)
  unfolding set_entry
  All-set_entry P k a [] h p = (p, tt)
  All-set_entry P k a ((j, b) ∷ t) h p =
      if-both (All (λ e. P e.1)) (str_eq j k) ((j, a) ∷ t) ((j, b) ∷ set_entry k a t) (p, h.1)
        (h.0, All-set_entry P k a t h.1 p)

  pub entry-All :
      (P : A → Type 0) (k : String) (a : A) (t : Table A)
      → All (λ e. P e.1) t
      → entry k t ≡ some a
      → P a
  unfolding entry
  entry-All P k a [] h e = absurd (let no : ⊥ = cc in no)
  entry-All P k a ((j, b) ∷ t) h e = elim (Bool-cases (str_eq j k)) [
    | inl same ↦ let e' = rw same at e in let ba : b ≡ a = cc in subst P ba h.0
    | inr other ↦ entry-All P k a t h.1 (rw other at e)
  ]
