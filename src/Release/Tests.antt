-- ===== src/Release/Tests.antt =====
-- A release of a tagged commit.
use rungrid.Common.{◌≡◌, refl, none, some, List, [], ◌∷◌, ◌++◌, codes, ℕ, length, true}
use rungrid.Release.Sums.{Disk}
use rungrid.Release.Build.{Tools, Member, checked, release}

abbrev contents : List Member → List ℕ
contents [] = []
contents (m ∷ ms) = m.content ++ contents ms

abbrev tools : Tools
tools = record {
  status = [];
  short_head = codes "f00d";
  exact_tag = some (codes "v1.2");
  go_build = λ source system architecture. some (length source ∷ length system ∷ []);
  license = codes "MIT";
  readme = codes "RunGrid";
  pack = contents;
  sha256 = λ c. codes "9a";
}

abbrev empty_dist : Disk
empty_dist n = none

release_checks : release tools true empty_dist ≡ checked
unfolding release
release_checks = refl
