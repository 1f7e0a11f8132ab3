-- ===== src/Common/Decimal.antt =====
-- Decimal numerals, as `str` of a number that is not negative writes them.
use Prim.Native.Nat.{ℕ, zero, suc, ◌+◌, ◌-◌, ◌*◌, ◌/◌, ◌%◌, ◌<◌}
use mathlib.Core.Path.{◌≡◌, refl, sym, ap, ◌∙◌}
use mathlib.Core.Logic.{inl, inr}
use mathlib.Core.List.{[], ◌∷◌, ◌++◌}
use native.Mathlib.Omega.{arith}
use rungrid.Common.Tests.{Text, ltb, Bool-cases, if◌then◌else◌}
use rungrid.Common.Texts.{Lacks, Lacks-append}

abbrev digit : ℕ → ℕ
digit n = b'0' + n % 10

-- On fuel above the number.
str_from : ℕ → ℕ → Text
str_from zero n = []
str_from (suc fuel) n =
    let rest = str_from fuel (n / 10) in if ltb n 10 then digit n ∷ [] else rest ++ digit n ∷ []

unfoldable pub str : ℕ → Text
unfolding str_from
str n = str_from (suc n) n

read : ℕ → Text → ℕ
read a [] = a
read a (c ∷ s) = read (10 * a + (c - b'0')) s

read-append : (a : ℕ) (s : Text) (c : ℕ) → read a (s ++ c ∷ []) ≡ 10 * read a s + (c - b'0')
unfolding read
read-append a [] c = refl
read-append a (d ∷ s) c = read-append (10 * a + (d - b'0')) s c

read-str_from : (fuel n : ℕ) → n < fuel → read 0 (str_from fuel n) ≡ n
unfolding read str_from
read-str_from zero n h = absurd (omega arith)
read-str_from (suc fuel) n h = elim (Bool-cases (ltb n 10)) [
  | inl small ↦ rw (small) (ground arith)
  | inr large ↦ rw (large) (
      read-append 0 (str_from fuel (n / 10)) (digit n)
      ∙ (ap (λ r. 10 * r + (digit n - b'0')) (read-str_from fuel (n / 10) (ground arith))
          ∙ omega arith))
]

pub str-injective : (m n : ℕ) → str m ≡ str n → m ≡ n
unfolding str
str-injective m n e =
    sym (read-str_from (suc m) m (omega arith))
    ∙ (ap (read 0) e ∙ read-str_from (suc n) n (omega arith))

Lacks-str_from : (c : ℕ) → c < b'0' → (fuel n : ℕ) → Lacks c (str_from fuel n)
unfolding str_from
Lacks-str_from c h zero n = tt
Lacks-str_from c h (suc fuel) n = elim (Bool-cases (ltb n 10)) [
  | inl small ↦ rw (small) (omega arith)
  | inr large ↦ rw (large) (
      Lacks-append c (str_from fuel (n / 10)) (digit n ∷ []) (Lacks-str_from c h fuel (n / 10))
        (omega arith))
]

pub Lacks-str : (c n : ℕ) → c < b'0' → Lacks c (str n)
unfolding str
Lacks-str c n h = Lacks-str_from c h (suc n) n
