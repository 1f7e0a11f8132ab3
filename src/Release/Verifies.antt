-- ===== src/Release/Verifies.antt =====
-- What is in `dist` when scripts/release.py ends.
use rungrid.Common.{ℕ, ◌≡◌, some, List, Text, Lacks}
use rungrid.Release.Sums.{Disk}
use rungrid.Release.Build.{Tools, targets, sums_name, checksums}
use rungrid.Release.Packed.{Packs}

module _ (tools : Tools) where
  -- As documented: a digest is hexadecimal.
  abbrev pub IsHex : Type 0
  IsHex = (c : List ℕ) → Lacks b' ' (tools.sha256 c) × Lacks b'\n' (tools.sha256 c)

  abbrev Ends : Disk → Text → Text → Type 0
  Ends d version version' =
      (es : List (Text × Text)) × (version' ≡ version)
      × (d sums_name ≡ some (checksums es))
      × Packs tools version d targets es
