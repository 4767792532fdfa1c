-- ===== src/Base/Trimmed.antt =====
-- A text that is trimmed stays as it is when it is trimmed again.
use Prim.Native.Char.{Char}
use Prim.Native.String.{String}
use mathlib.Core.Path.{◌≡◌, refl, sym, ap, ◌∙◌}
use mathlib.Core.Logic.{inl, inr}
use mathlib.Core.Bool.{true, false, ◌&&◌}
use proton_vpn_omarchy_core.Base.Tests.{Bool-cases}
use proton_vpn_omarchy_core.Base.Text.{trim, trim_start, trim_end, is_whitespace, is_empty}

trim_end-cons :
    (c : Char) (s : String)
    → (is_whitespace c && is_empty (trim_end s)) ≡ false
    → trim_end (String.◌∷◌ c s) ≡ String.◌∷◌ c (trim_end s)
unfolding trim_end
trim_end-cons c s e = rw e refl

trim_end-blank :
    (c : Char) (s : String)
    → (is_whitespace c && is_empty (trim_end s)) ≡ true
    → trim_end (String.◌∷◌ c s) ≡ String.[]
unfolding trim_end
trim_end-blank c s e = rw e refl

trim_end_idem : (s : String) → trim_end (trim_end s) ≡ trim_end s
trim_end_idem String.[] = unfold trim_end in refl
trim_end_idem (String.◌∷◌ c s) = elim (Bool-cases (is_whitespace c && is_empty (trim_end s))) [
  | inl e ↦
      ap trim_end (trim_end-blank c s e) ∙ unfold trim_end in refl ∙ sym (trim_end-blank c s e)
  | inr e ↦
      ap trim_end (trim_end-cons c s e)
      ∙ trim_end-cons c (trim_end s) (ap (λ t. is_whitespace c && is_empty t) (trim_end_idem s) ∙ e)
      ∙ ap (String.◌∷◌ c) (trim_end_idem s)
      ∙ sym (trim_end-cons c s e)
]

trim_start-trim_end : (s : String) → trim_start (trim_end (trim_start s)) ≡ trim_end (trim_start s)
trim_start-trim_end String.[] = unfold trim_start trim_end in refl
trim_start-trim_end (String.◌∷◌ c s) = elim (Bool-cases (is_whitespace c)) [
  | inl e ↦
      let same : trim_start (String.◌∷◌ c s) ≡ trim_start s = unfold trim_start in rw e refl in
      rw same (trim_start-trim_end s)
  | inr e ↦
      let same : trim_start (String.◌∷◌ c s) ≡ String.◌∷◌ c s = unfold trim_start in rw e refl in
      let kept = trim_end-cons c s (rw e refl) in
      let again : trim_start (String.◌∷◌ c (trim_end s)) ≡ String.◌∷◌ c (trim_end s) =
        unfold trim_start in rw e refl in
      rw (same, kept) again
]

pub trim_idem : (s : String) → trim (trim s) ≡ trim s
unfolding trim
trim_idem s = ap trim_end (trim_start-trim_end s) ∙ trim_end_idem (trim_start s)
