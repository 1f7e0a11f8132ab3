-- ===== src/Common/Texts.antt =====
-- Texts cut and joined at a separator.
use Prim.Native.Nat.{ℕ}
use mathlib.Core.Path.{◌≡◌, refl, sym, ap, ◌∙◌}
use mathlib.Core.Logic.{◌≢◌, inl, inr}
use mathlib.Core.Bool.{Bool, true, false, ◌&&◌, ◌||◌}
use mathlib.Core.List.{List, [], ◌∷◌, ◌++◌, reverse, reverse-append, reverse-reverse, append_assoc}
use native.Mathlib.Omega.{arith}
use rungrid.Common.Tests.{◌==◌, Text, text_eq, text_eq_refl, text_eq_sound, Bool-cases}

-- The separator does not occur.
abbrev pub Lacks : ℕ → Text → Type 0
Lacks c [] = Unit
Lacks c (a ∷ s) = (a ≢ c) × Lacks c s

-- `sep.join(parts)`
unfoldable pub join : Text → List Text → Text
join sep [] = []
join sep (s ∷ []) = s
join sep (s ∷ t ∷ ts) = s ++ (sep ++ join sep (t ∷ ts))

-- `s.startswith(t)`
unfoldable pub starts_with : Text → Text → Bool
starts_with s [] = true
starts_with [] (b ∷ t) = false
starts_with (a ∷ s) (b ∷ t) = a == b && starts_with s t

pub starts_with-append : (t u : Text) → starts_with (t ++ u) t ≡ true
unfolding starts_with
starts_with-append [] u = refl
starts_with-append (a ∷ t) u = ground (arith, starts_with-append t u)

pub starts_with_sound : (s t : Text) → starts_with s t ≡ true → (u : Text) × (s ≡ t ++ u)
unfolding starts_with
starts_with_sound s [] h = (s, refl)
starts_with_sound [] (b ∷ t) h = cc
starts_with_sound (a ∷ s) (b ∷ t) h =
    let (u, e) = starts_with_sound s t (ground arith) in
    let same : a ≡ b = ground arith in (u, λ i. same i ∷ e i)

-- `s.endswith(t)`
unfoldable pub ends_with : Text → Text → Bool
unfolding text_eq
ends_with [] t = text_eq [] t
ends_with (a ∷ s) t = text_eq (a ∷ s) t || ends_with s t

pub ends_with-append : (s t : Text) → ends_with (s ++ t) t ≡ true
unfolding ends_with
ends_with-append [] [] = text_eq_refl []
ends_with-append [] (b ∷ t) = ground (arith, text_eq_refl (b ∷ t))
ends_with-append (a ∷ s) t = ground (arith, ends_with-append s t)

pub ends_with_sound : (s t : Text) → ends_with s t ≡ true → (p : Text) × (s ≡ p ++ t)
unfolding ends_with
ends_with_sound [] t h = ([], text_eq_sound [] t h)
ends_with_sound (a ∷ s) t h = elim (Bool-cases (text_eq (a ∷ s) t)) [
  | inl same ↦ ([], text_eq_sound (a ∷ s) t same)
  | inr other ↦ let (p, e) = ends_with_sound s t (rw (other) at h) in (a ∷ p, ap (λ r. a ∷ r) e)
]

pub Lacks-append : (c : ℕ) (s t : Text) → Lacks c s → Lacks c t → Lacks c (s ++ t)
Lacks-append c [] t h k = k
Lacks-append c (a ∷ s) t h k = (h.0, Lacks-append c s t h.1 k)

Lacks-reverse : (c : ℕ) (s : Text) → Lacks c s → Lacks c (reverse s)
Lacks-reverse c [] h = tt
Lacks-reverse c (a ∷ s) h =
    rw (reverse-append (a ∷ []) s)
      (Lacks-append c (reverse s) (a ∷ []) (Lacks-reverse c s h.1) (h.0, tt))

pub append_cancel : (s t u : Text) → s ++ t ≡ s ++ u → t ≡ u
append_cancel [] t u e = e
append_cancel (a ∷ s) t u e = append_cancel s t u (cc)

-- A text is cut at the first separator in one way only.
pub cut_first :
    (c : ℕ) (s t u v : Text) → Lacks c s → Lacks c t → s ++ c ∷ u ≡ t ++ c ∷ v → (s ≡ t) × (u ≡ v)
cut_first c [] [] u v h k e = (refl, cc)
cut_first c [] (b ∷ t) u v h k e = absurd (k.0 (cc))
cut_first c (a ∷ s) [] u v h k e = absurd (h.0 (cc))
cut_first c (a ∷ s) (b ∷ t) u v h k e =
    let tails : s ++ c ∷ u ≡ t ++ c ∷ v = cc in
    let ih = cut_first c s t u v h.1 k.1 tails in (cc, ih.1)

reverse_cut : (c : ℕ) (s u : Text) → reverse (s ++ c ∷ u) ≡ reverse u ++ c ∷ reverse s
reverse_cut c s u =
    reverse-append s (c ∷ u)
    ∙ (ap (λ r. r ++ reverse s) (reverse-append (c ∷ []) u)
        ∙ append_assoc (reverse u) (c ∷ []) (reverse s))

reverse-injective : (s t : Text) → reverse s ≡ reverse t → s ≡ t
reverse-injective s t e = sym (reverse-reverse s) ∙ (ap reverse e ∙ reverse-reverse t)

-- Nor can it be cut at the last separator in two ways.
pub cut_last :
    (c : ℕ) (s t u v : Text) → Lacks c u → Lacks c v → s ++ c ∷ u ≡ t ++ c ∷ v → (s ≡ t) × (u ≡ v)
cut_last c s t u v h k e =
    let flipped : reverse u ++ c ∷ reverse s ≡ reverse v ++ c ∷ reverse t =
      sym (reverse_cut c s u) ∙ (ap reverse e ∙ reverse_cut c t v) in
    let parts =
      cut_first c (reverse u) (reverse v) (reverse s) (reverse t) (Lacks-reverse c u h)
        (Lacks-reverse c v k) flipped in
    (reverse-injective s t parts.1, reverse-injective u v parts.0)

-- `c in s`
unfoldable pub has_code : ℕ → Text → Bool
has_code c [] = false
has_code c (d ∷ s) = c == d || has_code c s
