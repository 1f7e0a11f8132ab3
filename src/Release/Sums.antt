-- ===== src/Release/Sums.antt =====
-- The file SHA256SUMS that scripts/release.py and scripts/archive_evidence.py write: one line for each
-- file, with its digest and its name; and a reader of such files.
use rungrid.Common.{
  ℕ, ◌≡◌, refl, ap, ◌∙◌, false, Option, none, some, List, [], ◌∷◌, ◌++◌, ◌==◌, if◌then◌else◌, Text,
  codes, Lacks, All, arith, zero, suc, ◌<◌, length, Lacks-append,
}

-- Files by their names.
abbrev pub Disk : Type 0
Disk = Text → Option (List ℕ)

-- A line without its end, of a digest and a name.
abbrev pub sum_line : Text × Text → Text
sum_line e = e.0 ++ (codes "  " ++ e.1)

-- `"".join(line + "\n" for line in lines)`
unfoldable pub sums_text : List (Text × Text) → Text
sums_text [] = []
sums_text (e ∷ es) = sum_line e ++ (codes "\n" ++ sums_text es)

-- A text up to a character and behind it; nothing where it does not occur.
abbrev pub put_code : ℕ → Option (Text × Text) → Option (Text × Text)
put_code c none = none
put_code c (some (s, t)) = some (c ∷ s, t)

unfoldable pub cut_at : ℕ → Text → Option (Text × Text)
cut_at c [] = none
cut_at c (d ∷ s) = let rest = cut_at c s in if d == c then some ([], s) else put_code d rest

-- The digest and the name of a line: the digest ends at the first of two blanks.
abbrev pub behind_blank : Text → Text → Option (Text × Text)
behind_blank digest [] = none
behind_blank digest (c ∷ name) = if c == b' ' then some (digest, name) else none

abbrev pub read_cut : Option (Text × Text) → Option (Text × Text)
read_cut none = none
read_cut (some (digest, rest)) = behind_blank digest rest

abbrev pub put_entry :
    Option (Text × Text) → Option (List (Text × Text)) → Option (List (Text × Text))
put_entry none es = none
put_entry (some e) none = none
put_entry (some e) (some es) = some (e ∷ es)

abbrev pub at_end : Text → Option (List (Text × Text))
at_end [] = some []
at_end (c ∷ s) = none

-- The entry of the line before a line end, and those behind it.
abbrev pub read_entry :
    (Text → Option (List (Text × Text))) → Text → Option (Text × Text) → Option (List (Text × Text))
read_entry more s none = at_end s
read_entry more s (some (line, rest)) = put_entry (read_cut (cut_at b' ' line)) (more rest)

-- The entries of a file of sums, on fuel for its lines and its end.
unfoldable pub read_sums : ℕ → Text → Option (List (Text × Text))
unfolding cut_at
read_sums zero s = none
read_sums (suc fuel) s = read_entry (read_sums fuel) s (cut_at b'\n' s)

cut_at-append : (c : ℕ) (s t : Text) → Lacks c s → cut_at c (s ++ c ∷ t) ≡ some (s, t)
unfolding cut_at
cut_at-append c [] t h = ground arith
cut_at-append c (d ∷ s) t h =
    let rest = cut_at-append c s t h.1 in
    let other : d == c ≡ false = ground (arith, h) in rw (other, rest) refl

-- A digest without blanks and a name without line ends.
abbrev pub IsPlain : Text × Text → Type 0
IsPlain e = Lacks b' ' e.0 × Lacks b'\n' e.0 × Lacks b'\n' e.1

sum_line-Lacks : (e : Text × Text) → IsPlain e → Lacks b'\n' (sum_line e)
sum_line-Lacks e (blanks, ends, name) =
    Lacks-append b'\n' e.0 (codes "  " ++ e.1) ends
      (Lacks-append b'\n' (codes "  ") e.1 (omega arith) name)

read_cut-sum_line : (e : Text × Text) → IsPlain e → read_cut (cut_at b' ' (sum_line e)) ≡ some e
read_cut-sum_line e (blanks, ends, name) =
    let cut : cut_at b' ' (sum_line e) ≡ some (e.0, codes " " ++ e.1) =
      cut_at-append b' ' e.0 (codes " " ++ e.1) blanks in
    rw (cut) refl

-- What the scripts write, the reader reads.
pub read_sums-sums_text :
    (es : List (Text × Text)) (fuel : ℕ)
    → length es < fuel
    → All IsPlain es
    → read_sums fuel (sums_text es) ≡ some es
unfolding read_sums sums_text
read_sums-sums_text es zero n h = absurd (omega (arith, n))
read_sums-sums_text [] (suc fuel) n h = refl
read_sums-sums_text (e ∷ es) (suc fuel) n (p, h) =
    let cut : cut_at b'\n' (sum_line e ++ (codes "\n" ++ sums_text es))
        ≡ some (sum_line e, sums_text es) =
      cut_at-append b'\n' (sum_line e) (sums_text es) (sum_line-Lacks e p) in
    let rest = read_sums-sums_text es fuel (omega (arith, n)) h in
    ap (read_entry (read_sums fuel) (sums_text (e ∷ es))) cut
    ∙ (λ i. put_entry (read_cut-sum_line e p i) (rest i))
