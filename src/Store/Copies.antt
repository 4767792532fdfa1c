-- ===== src/Store/Copies.antt =====
-- agent/src/store.rs: the name of a copy is no profile's name and is not too long.
use text.Mathlib.TextLemmas.{nil-append, cons-append, append-nil}
use proton_vpn_omarchy_core.Base.{
  ℕ, zero, suc, ◌+◌, ◌-◌, ◌*◌, ◌/◌, ◌%◌, ◌≤◌, ◌<◌, Bool, true, false, ◌&&◌, ◌==◌, Char, code,
  String, List, [], ◌∷◌, Option, none, some, ◌≡◌, refl, sym, ap, subst, ◌∙◌, inl, inr, arith, any,
  length, ltb, leb, str_eq_iff, concat, if◌then◌else◌, Bool-cases, decimal, decimal_onto,
  decimal_digit, is_ascii_digit, lower, lower-digit, to_ascii_lowercase, char_count, take_chars,
  all_below, all_below_holds, ==_iff,
}
use Prim.Native.String.{◌++◌ as append}
use proton_vpn_omarchy_core.Json.{Value, text_of}
use proton_vpn_omarchy_core.Store.File.{max_profiles}
use proton_vpn_omarchy_core.Store.Ids.{copy_suffix, copy_candidate, copy_name, has_name, is_name}
use proton_vpn_omarchy_core.Store.Fresh.{first_free-ends}

-- The number that the digits at the end of a text stand for, 0 when there are none.
abbrev step : ℕ → Char → ℕ
step acc c = if is_ascii_digit c then acc * 10 + (code c - b'0') else 0

end_number : ℕ → String → ℕ
end_number acc String.[] = acc
end_number acc (String.◌∷◌ c s) = end_number (step acc c) s

end_number-append :
    (acc : ℕ) (s t : String) → end_number acc (append s t) ≡ end_number (end_number acc s) t
unfolding end_number
end_number-append acc String.[] t = ap (end_number acc) (nil-append t)
end_number-append acc (String.◌∷◌ c s) t =
    ap (end_number acc) (cons-append c s t) ∙ end_number-append (step acc c) s t

step-lower : (acc : ℕ) (c : Char) → step acc (lower c) ≡ step acc c
step-lower acc c = elim (Bool-cases (is_ascii_digit c)) [
  | inl e ↦ ap (step acc) ((lower-digit c).0 e)
  | inr e ↦ rw ((lower-digit c).1 ∙ e, e) refl
]

end_number-lowercase :
    (acc : ℕ) (s : String) → end_number acc (to_ascii_lowercase s) ≡ end_number acc s
unfolding end_number to_ascii_lowercase
end_number-lowercase acc String.[] = refl
end_number-lowercase acc (String.◌∷◌ c s) =
    ap (λ a. end_number a (to_ascii_lowercase s)) (step-lower acc c)
    ∙ end_number-lowercase (step acc c) s

digits_are_read :
    all_below 10 (λ d. is_ascii_digit (decimal_digit d) && (code (decimal_digit d) - b'0' == d))
    ≡ true
unfolding all_below decimal_digit
digits_are_read = refl

step-decimal_digit : (acc d : ℕ) → d < 10 → step acc (decimal_digit d) ≡ acc * 10 + d
step-decimal_digit acc d h =
    let both =
      all_below_holds 10
        (λ d. is_ascii_digit (decimal_digit d) && (code (decimal_digit d) - b'0' == d)) d
        digits_are_read h in
    let is_digit : is_ascii_digit (decimal_digit d) ≡ true = left _ _ both in
    let value = (==_iff (code (decimal_digit d) - b'0') d).0 (right _ _ both) in
    rw is_digit (ap (λ n. acc * 10 + n) value)
  where
    left : (a b : Bool) → (a && b) ≡ true → a ≡ true
    left a b h = ground arith

    right : (a b : Bool) → (a && b) ≡ true → b ≡ true
    right a b h = ground arith

end_number-decimal_onto :
    (fuel n : ℕ) (rest : String)
    → n < fuel
    → end_number 0 (decimal_onto fuel n rest) ≡ end_number n rest
unfolding decimal_onto end_number
end_number-decimal_onto zero n rest h = absurd (omega arith)
end_number-decimal_onto (suc fuel) n rest h = elim (Bool-cases (ltb n 10)) [
  | inl e ↦
      let same : decimal_onto (suc fuel) n rest ≡ String.◌∷◌ (decimal_digit n) rest =
        rw (e, decimal_onto) refl in
      ap (end_number 0) same
      ∙ ap (λ a. end_number a rest) (step-decimal_digit 0 n (less n e) ∙ plain n)
  | inr e ↦
      let same : decimal_onto (suc fuel) n rest
          ≡ decimal_onto fuel (n / 10) (String.◌∷◌ (decimal_digit (n % 10)) rest) =
        rw (e, decimal_onto) refl in
      ap (end_number 0) same
      ∙ end_number-decimal_onto fuel (n / 10) _ (smaller n fuel e h)
      ∙ ap (λ a. end_number a rest) (step-decimal_digit (n / 10) (n % 10) (omega arith) ∙ whole n)
]
  where
    less : (n : ℕ) → ltb n 10 ≡ true → n < 10
    less n e = ground arith

    plain : (n : ℕ) → 0 * 10 + n ≡ n
    plain n = omega arith

    whole : (n : ℕ) → n / 10 * 10 + n % 10 ≡ n
    whole n = omega arith

    smaller : (n f : ℕ) → ltb n 10 ≡ false → n < suc f → n / 10 < f
    smaller n f e h = ground arith

-- The number at the end of a candidate: its sequence number, or none for the first.
abbrev sequence_number : ℕ → ℕ
sequence_number sequence = if sequence == 1 then 0 else sequence

end_number-copy_suffix :
    (acc sequence : ℕ) → end_number acc (copy_suffix sequence) ≡ sequence_number sequence
unfolding end_number decimal
end_number-copy_suffix acc sequence = elim (Bool-cases (sequence == 1)) [
  | inl e ↦
      let suffix : copy_suffix sequence ≡ " copy" = rw e refl in
      let number : sequence_number sequence ≡ 0 = rw e refl in
      ap (end_number acc) suffix ∙ sym number
  | inr e ↦
      let suffix : copy_suffix sequence ≡ concat (" copy " ∷ decimal sequence ∷ []) = rw e refl in
      let number : sequence_number sequence ≡ sequence = rw e refl in
      ap (end_number acc) suffix
      ∙ end_number-append acc " copy " (append (decimal sequence) String.[])
      ∙ ap (end_number 0) (append-nil (decimal sequence))
      ∙ end_number-decimal_onto (suc sequence) sequence String.[] (omega arith)
      ∙ sym number
]

end_number-candidate :
    (source : String) (sequence : ℕ)
    → end_number 0 (to_ascii_lowercase (copy_candidate source sequence)) ≡ sequence_number sequence
unfolding copy_candidate
end_number-candidate source sequence =
    let kept = take_chars (60 - char_count (copy_suffix sequence)) source in
    end_number-lowercase 0 (copy_candidate source sequence)
    ∙ end_number-append 0 kept (append (copy_suffix sequence) String.[])
    ∙ ap (end_number (end_number 0 kept)) (append-nil (copy_suffix sequence))
    ∙ end_number-copy_suffix (end_number 0 kept) sequence

sequence_number-injective : (i j : ℕ) → sequence_number (1 + i) ≡ sequence_number (1 + j) → i ≡ j
sequence_number-injective i j e = ground arith

is_name-once :
    (o : Option String) (s t : String)
    → is_name o s ≡ true
    → is_name o t ≡ true
    → to_ascii_lowercase s ≡ to_ascii_lowercase t
is_name-once none s t p q = absurd (let no : ⊥ = cc in no)
is_name-once (some u) s t p q = sym ((str_eq_iff _ _).0 p) ∙ (str_eq_iff _ _).0 q

copies_apart :
    (source : String) (v : Value) (i j : ℕ)
    → has_name (copy_candidate source (1 + i)) v ≡ true
    → has_name (copy_candidate source (1 + j)) v ≡ true
    → i ≡ j
unfolding has_name
copies_apart source v i j p q = sequence_number-injective i j (
    sym (end_number-candidate source (1 + i))
    ∙ ap (end_number 0) (is_name-once (text_of v "name") _ _ p q)
    ∙ end_number-candidate source (1 + j))

char_count-append : (s t : String) → char_count (append s t) ≡ char_count s + char_count t
unfolding char_count
char_count-append String.[] t = ap char_count (nil-append t) ∙ plain (char_count t)
  where
    plain : (n : ℕ) → n ≡ 0 + n
    plain n = omega arith
char_count-append (String.◌∷◌ c s) t =
    ap char_count (cons-append c s t)
    ∙ ap suc (char_count-append s t)
    ∙ moved (char_count s) (char_count t)
  where
    moved : (m n : ℕ) → suc (m + n) ≡ suc m + n
    moved m n = omega arith

char_count-take_chars : (n : ℕ) (s : String) → char_count (take_chars n s) ≤ n
unfolding char_count take_chars
char_count-take_chars zero s = omega arith
char_count-take_chars (suc n) String.[] = omega arith
char_count-take_chars (suc n) (String.◌∷◌ c s) = omega (arith, char_count-take_chars n s)

suffixes_are_short : all_below 130 (λ i. leb (char_count (copy_suffix i)) 60) ≡ true
unfolding all_below char_count decimal
suffixes_are_short = refl

copy_candidate-le : (source : String) (i : ℕ) → i < 130 → char_count (copy_candidate source i) ≤ 60
unfolding copy_candidate
copy_candidate-le source i h =
    let suffix = copy_suffix i in
    let short =
      all_below_holds 130 (λ i. leb (char_count (copy_suffix i)) 60) i suffixes_are_short h in
    let kept = char_count-take_chars (60 - char_count suffix) source in
    subst (λ n. n ≤ 60)
      (sym (
        char_count-append _ (append suffix String.[])
        ∙ ap (λ s. char_count (take_chars (60 - char_count suffix) source) + char_count s)
            (append-nil suffix)))
      (fits _ (char_count suffix) kept short)
  where
    fits : (k n : ℕ) → k ≤ 60 - n → leb n 60 ≡ true → k + n ≤ 60
    fits k n h e = ground arith

-- With at most 128 profiles, the loop of `copy_name` finds a name before it runs out of numbers: the
-- name of no profile, whatever the case of its letters, and of 60 characters at most.
pub copy_name-IsFree :
    (source : String) (profiles : List Value)
    → length profiles ≤ max_profiles
    → (any (has_name (copy_name source profiles)) profiles ≡ false)
      × (char_count (copy_name source profiles) ≤ 60)
unfolding copy_name
copy_name-IsFree source profiles h =
    let (s, e, free, (i, is, low, high)) =
      first_free-ends has_name (copy_candidate source) profiles (max_profiles + 1) 1 (omega arith)
        (λ v i j hi hj p q. copies_apart source v i j p q) in
    rw e (free, subst (λ t. char_count t ≤ 60) (sym is) (copy_candidate-le source i (omega arith)))
