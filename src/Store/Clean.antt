-- ===== src/Store/Clean.antt =====
-- agent/src/store.rs: a text that a check has let through passes it again.
use proton_vpn_omarchy_core.Base.{
  ℕ, true, false, String, Option, none, some, ◌≡◌, refl, ap, arith, trim, trim_idem, is_empty,
  char_count, has_break,
}
use proton_vpn_omarchy_core.Json.{Value, Fields, string, get}
use proton_vpn_omarchy_core.Backend.{ok}
use proton_vpn_omarchy_core.Store.Checks.{
  OnOk, OnOk-ok, OnOk-bind, refuse_if-ok, ◌>>=◌, require, refuse_if,
}
use proton_vpn_omarchy_core.Store.Values.{string_value, required_string, is_refused_text}

-- Trimmed, no longer than `n` characters, and without line breaks.
abbrev pub IsClean : ℕ → String → Type 0
IsClean n s = (trim s ≡ s) × (is_refused_text n s ≡ false)

empty-IsClean : (n : ℕ) → IsClean n String.[]
unfolding trim char_count has_break
empty-IsClean n = (refl, nothing n)
  where
    nothing : (n : ℕ) → is_refused_text n String.[] ≡ false
    nothing n = ground arith

pub string_value-IsClean : (v : Option Value) (n : ℕ) → OnOk (IsClean n) (string_value v n true)
unfolding string_value
string_value-IsClean none n = OnOk-ok String.[] (empty-IsClean n)
string_value-IsClean (some v) n =
    OnOk-bind _ _
      λ raw e. OnOk-bind _ _ λ u f. OnOk-ok (trim raw) (trim_idem raw, refuse_if-ok _ _ f)

pub required_string-IsClean :
    (o : Fields) (key : String) (n : ℕ)
    → OnOk (λ s. IsClean n s × (is_empty s ≡ false)) (required_string o key n)
unfolding required_string
required_string-IsClean o key n = OnOk-bind _ _ λ s e.
    OnOk-bind _ _ λ u f. OnOk-ok s ((string_value-IsClean (get o key) n).at s e, refuse_if-ok _ _ f)

pub required_string-of_clean :
    (o : Fields) (key s : String) (n : ℕ)
    → get o key ≡ some (string s)
    → IsClean n s
    → is_empty s ≡ false
    → required_string o key n ≡ ok s
unfolding required_string string_value ◌>>=◌ require refuse_if
required_string-of_clean o key s n e (same, fine) full =
    let f : is_refused_text n (trim s) ≡ false = rw same fine in
    let g : is_empty (trim s) ≡ false = rw same full in rw e (rw f (rw g (ap ok same)))
