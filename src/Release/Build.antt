-- ===== src/Release/Build.antt =====
-- scripts/release.py: the archives of a release and their sums. What git and go answer, how members are
-- packed, and SHA-256 are the parameter `Tools`; the outputs of git are stripped.
use rungrid.Common.{
  ℕ, Bool, true, false, Option, none, some, List, [], ◌∷◌, ◌++◌, map, if◌then◌else◌, Text, codes,
  text_eq, join, has_code,
}
use rungrid.Release.Sums.{Disk, sum_line}

-- A file in an archive, with its mode.
pub record Member : Type 0 where
  pub name : Text
  pub content : List ℕ
  pub mode : ℕ

pub record Tools : Type 0 where
  pub status : Text
  pub short_head : Text
  -- `git describe --tags --exact-match`, where it succeeds.
  pub exact_tag : Option Text
  -- `go build` of a source for a system and an architecture; nothing where it fails.
  pub go_build : Text → Text → Text → Option (List ℕ)
  pub license : List ℕ
  pub readme : List ℕ
  pub pack : List Member → List ℕ
  pub sha256 : List ℕ → Text

pub data Released : Type 0 where
  unclean checked failed : Released
  -- The directory `dist` and the version.
  released : Disk → Text → Released

abbrev pub version_of : Text → Option Text → Text
version_of head none = codes "dev-" ++ head
version_of head (some tag) = tag

-- The two loops: systems and architectures.
abbrev pub targets : List (Text × Text)
targets =
    (codes "linux", codes "amd64")
    ∷ (codes "linux", codes "arm64")
    ∷ (codes "darwin", codes "amd64")
    ∷ (codes "darwin", codes "arm64")
    ∷ []

abbrev pub binary_name : Text → Text × Text → Text
binary_name name t = name ++ (codes "-" ++ (t.0 ++ (codes "-" ++ t.1)))

abbrev pub archive_name : Text → Text × Text → Text
archive_name version t =
    codes "rungrid-" ++ (version ++ (codes "-" ++ (t.0 ++ (codes "-" ++ (t.1 ++ codes ".tar.gz")))))

unfoldable pub write_file : Text → List ℕ → Disk → Disk
unfolding text_eq
write_file name content disk k = if text_eq k name then some content else disk k

-- `0o755` and `0o644`
abbrev pub members : Tools → List ℕ → List ℕ → List Member
members tools server cli =
    record { name = codes "server"; content = server; mode = 493 }
    ∷ record { name = codes "rungrid"; content = cli; mode = 493 }
    ∷ record { name = codes "LICENSE"; content = tools.license; mode = 420 }
    ∷ record { name = codes "README.md"; content = tools.readme; mode = 420 }
    ∷ []

abbrev pub sums_name : Text
sums_name = codes "SHA256SUMS"

-- `"\n".join(checksums) + "\n"`
abbrev pub checksums : List (Text × Text) → Text
checksums es = join (codes "\n") (map sum_line es) ++ codes "\n"

module _ (tools : Tools) (version : Text) where
  abbrev pub entry_of : Text × Text → List ℕ → Text × Text
  entry_of t archive = (tools.sha256 archive, archive_name version t)

  -- The files of one turn: two binaries and the archive.
  abbrev pub written_for : Text × Text → List ℕ → List ℕ → Disk → Disk
  written_for t server cli disk =
      write_file (archive_name version t) (tools.pack (members tools server cli)) (
        write_file (binary_name (codes "rungrid") t) cli
          (write_file (binary_name (codes "server") t) server disk))

  abbrev pub put_built :
      Text × Text → List ℕ → Option (Disk × List (Text × Text)) → Option (Disk × List (Text × Text))
  put_built t archive none = none
  put_built t archive (some (disk, es)) = some (disk, entry_of t archive ∷ es)

  -- A turn, with what its two builds give, and the turns that follow.
  abbrev pub after_builds :
      Text × Text
      → Option (List ℕ)
      → Option (List ℕ)
      → Disk
      → (Disk → Option (Disk × List (Text × Text)))
      → Option (Disk × List (Text × Text))
  after_builds t none cli disk more = none
  after_builds t (some server) none disk more = none
  after_builds t (some server) (some cli) disk more =
      let built =
        put_built t (tools.pack (members tools server cli))
          (more (written_for t server cli disk)) in
      if has_code b'/' version then none else built

  -- The directory and the entries of the sums; nothing where a build fails, or where an archive cannot be
  -- opened, since the version names a directory that is not in `dist`.
  unfoldable pub build_all : List (Text × Text) → Disk → Option (Disk × List (Text × Text))
  unfolding write_file
  build_all [] disk = some (disk, [])
  build_all (t ∷ ts) disk =
      after_builds t (tools.go_build (codes "./cmd/server") t.0 t.1)
        (tools.go_build (codes "./cmd/cli") t.0 t.1) disk (build_all ts)

  abbrev pub finish_release : Option (Disk × List (Text × Text)) → Released
  finish_release none = failed
  finish_release (some (disk, es)) = released (write_file sums_name (checksums es) disk) version

-- The script, with `--check` or without, in a directory `dist` that is there or made.
abbrev pub release_clean : Tools → Bool → Disk → Released
release_clean tools true disk = checked
release_clean tools false disk =
    let version = version_of tools.short_head tools.exact_tag in
    finish_release tools version (build_all tools version targets disk)

abbrev pub release_on : Tools → Text → Bool → Disk → Released
release_on tools [] check disk = release_clean tools check disk
release_on tools (c ∷ status) check disk = unclean

unfoldable pub release : Tools → Bool → Disk → Released
unfolding build_all write_file join
release tools check disk = release_on tools tools.status check disk
