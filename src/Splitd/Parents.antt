-- ===== src/Splitd/Parents.antt =====
-- splitd/src/procfs.rs: no name of a command hides the parent of its process.
use text.Mathlib.TextLemmas.{nil-append, cons-append}
use Prim.Native.String.{◌++◌ as append}
use proton_vpn_omarchy_core.Base.{
  ℕ, Bool, true, false, not, ◌∷◌, String, Char, none, some, ◌≡◌, refl, ap, ◌∙◌, inl, inr, keep,
  is_empty, is_whitespace, all_chars, Bool-cases,
}
use proton_vpn_omarchy_core.Io.{ok}
use proton_vpn_omarchy_core.Splitd.Procfs.{
  behind_last, pieces, split_whitespace, parse_u32, parse_ppid,
}

abbrev is_dark : Char → Bool
is_dark c = not (is_whitespace c)

-- A text that is a word: not empty, and without white space.
abbrev pub IsWord : String → Type 0
IsWord w = (is_empty w ≡ false) × (all_chars is_dark w ≡ true)

behind_last-append :
    (front s t : String) → behind_last s ≡ some t → behind_last (append front s) ≡ some t
unfolding behind_last
behind_last-append String.[] s t h = rw (nil-append s) h
behind_last-append (String.◌∷◌ c front) s t h =
    let rest : behind_last (append front s) ≡ some t = behind_last-append front s t h in
    rw (cons-append c front s, behind_last, rest) refl

behind_last-here :
    (t : String) → behind_last t ≡ none → behind_last (String.◌∷◌ ")" (String.◌∷◌ " " t)) ≡ some t
unfolding behind_last
behind_last-here t h = rw h refl

pieces-word :
    (w r : String)
    → all_chars is_dark w ≡ true
    → pieces (append w (String.◌∷◌ " " r)) ≡ w ∷ pieces r
unfolding pieces all_chars
pieces-word String.[] r h = rw (nil-append (String.◌∷◌ " " r)) refl
pieces-word (String.◌∷◌ c w) r h = elim (Bool-cases (is_whitespace c)) [
  | inl e ↦ absurd (let h' = rw e at h in let no : ⊥ = cc in no)
  | inr e ↦
      let rest : pieces (append w (String.◌∷◌ " " r)) ≡ w ∷ pieces r =
        pieces-word w r (rw e at h) in
      rw (cons-append c w (String.◌∷◌ " " r), e, rest) refl
]

split_whitespace-word :
    (w r : String)
    → IsWord w
    → split_whitespace (append w (String.◌∷◌ " " r)) ≡ w ∷ split_whitespace r
unfolding split_whitespace keep
split_whitespace-word w r h = rw (pieces-word w r h.1, h.0) refl

-- The parent that is read of a process is the second word behind the last closing parenthesis with a
-- space, whatever stands before it: the command's name, which the user chooses, may hold spaces and
-- parentheses of its own.
pub parse_ppid-stat :
    (front state parent rest : String) (ppid : ℕ)
    → IsWord state
    → IsWord parent
    → behind_last (append state (String.◌∷◌ " " (append parent (String.◌∷◌ " " rest)))) ≡ none
    → parse_u32 parent ≡ some ppid
    → parse_ppid (
        append front (
          String.◌∷◌ ")"
            (String.◌∷◌ " " (append state (String.◌∷◌ " " (append parent (String.◌∷◌ " " rest)))))))
      ≡ ok ppid
unfolding parse_ppid
parse_ppid-stat front state parent rest ppid s p h n =
    let fields : String = append state (String.◌∷◌ " " (append parent (String.◌∷◌ " " rest))) in
    let found : behind_last (append front (String.◌∷◌ ")" (String.◌∷◌ " " fields))) ≡ some fields =
      behind_last-append front (String.◌∷◌ ")" (String.◌∷◌ " " fields)) fields
        (behind_last-here fields h) in
    let words : split_whitespace fields ≡ state ∷ parent ∷ split_whitespace rest =
      split_whitespace-word state (append parent (String.◌∷◌ " " rest)) s
      ∙ ap (λ ws. state ∷ ws) (split_whitespace-word parent rest p) in
    rw (found, words, n) refl
