-- ===== src/Command/Prefix.antt =====
-- spim/spim.cpp `str_prefix`: which abbreviations it accepts.
use spim_curses.Base.{
  ℕ, suc, ◌-◌, ◌≤◌, ◌≡◌, refl, ◌∙◌, sym, ap, arith, true, false, ◌==◌, ==_iff, ==_refl,
  if◌then◌else◌, [], ◌∷◌, ◌++◌, length, contradiction, Bool-cases, inl, inr, ◌↔◌,
}
use spim_curses.Command.{str_prefix}
use spim_curses.Symbols.Defs.{Name}

-- `s1` is a prefix of `s2` of so many characters at least.
abbrev pub IsAbbreviation : Name → Name → ℕ → Type 0
IsAbbreviation s1 s2 min_match = (rest : Name) × (s1 ++ rest ≡ s2) × (min_match ≤ length s1)

str_prefix_sound :
    (s1 s2 : Name) (min_match : ℕ)
    → str_prefix s1 s2 min_match ≡ true
    → IsAbbreviation s1 s2 min_match
unfolding str_prefix
str_prefix_sound [] s2 k h = (s2, refl, omega (arith, (==_iff k 0).0 h))
str_prefix_sound (c ∷ s1) [] k h = absurd (contradiction h)
str_prefix_sound (c ∷ s1) (d ∷ s2) k h = elim (Bool-cases (c == d)) [
  | inl e ↦
      (let (rest, joined, long) = str_prefix_sound s1 s2 (k - 1) (taken e) in
        (
          rest,
          ap (λ x. x ∷ (s1 ++ rest)) ((==_iff c d).0 e) ∙ ap (λ xs. d ∷ xs) joined,
          longer long,
        ))
  | inr e ↦ absurd (contradiction (mismatch e))
]
  where
    taken : (c == d) ≡ true → str_prefix s1 s2 (k - 1) ≡ true
    taken e = sym (ap (λ b. if b then str_prefix s1 s2 (k - 1) else false) e) ∙ h

    mismatch : (c == d) ≡ false → false ≡ true
    mismatch e = sym (ap (λ b. if b then str_prefix s1 s2 (k - 1) else false) e) ∙ h

    longer : k - 1 ≤ length s1 → k ≤ suc (length s1)
    longer q = omega arith

str_prefix_complete :
    (s1 rest : Name) (min_match : ℕ)
    → min_match ≤ length s1
    → str_prefix s1 (s1 ++ rest) min_match ≡ true
unfolding str_prefix
str_prefix_complete [] rest k h = ground arith
str_prefix_complete (c ∷ s1) rest k h =
    ap (λ b. if b then str_prefix s1 (s1 ++ rest) (k - 1) else false) (==_refl c)
    ∙ str_prefix_complete s1 rest (k - 1) (omega arith)

pub str_prefix-exact :
    (s1 s2 : Name) (min_match : ℕ)
    → (str_prefix s1 s2 min_match ≡ true) ↔ IsAbbreviation s1 s2 min_match
str_prefix-exact s1 s2 k = (
  str_prefix_sound s1 s2 k,
  λ (rest, joined, long).
      ap (λ s. str_prefix s1 s k) (sym joined) ∙ str_prefix_complete s1 rest k long,
)
