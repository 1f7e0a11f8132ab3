-- ===== src/Release/Packed.antt =====
-- The archives that scripts/release.py leaves in `dist`, turn by turn.
use mathlib.Core.Path.{subst}
use rungrid.Common.{
  has_code, ℕ, ◌≡◌, refl, sym, ap, ◌∙◌, true, false, inl, inr, Bool-cases, Option, none, some, List,
  [], ◌∷◌, ◌++◌, map, append_assoc, Text, codes, text_eq, text_eq_refl, text_eq_sound, join,
  ends_with, ends_with-append, All, arith,
}
use rungrid.Release.Sums.{Disk, sum_line, sums_text}
use rungrid.Release.Build.{
  Tools, targets, binary_name, archive_name, write_file, members, entry_of, put_built, after_builds,
  written_for, build_all, sums_name, checksums,
}

pub text_eq-append : (s t u : Text) → text_eq (s ++ t) (s ++ u) ≡ text_eq t u
unfolding text_eq
text_eq-append [] t u = refl
text_eq-append (c ∷ s) t u = ground (arith, text_eq-append s t u)

other_end : (s t n : Text) → ends_with n t ≡ false → text_eq (s ++ t) n ≡ false
other_end s t n h = elim (Bool-cases (text_eq (s ++ t) n)) [
  | inl same ↦
      let e : s ++ t ≡ n = text_eq_sound (s ++ t) n same in
      let hit : ends_with n t ≡ true = ap (λ x. ends_with x t) (sym e) ∙ ends_with-append s t in
      absurd (ground (arith, hit, h))
  | inr other ↦ other
]

-- For one file or more, the joined lines are the lines with their ends.
pub checksums-sums_text :
    (e : Text × Text) (es : List (Text × Text)) → checksums (e ∷ es) ≡ sums_text (e ∷ es)
unfolding join sums_text
checksums-sums_text e [] = refl
checksums-sums_text e (f ∷ es) =
    append_assoc (sum_line e) (codes "\n" ++ join (codes "\n") (map sum_line (f ∷ es))) (codes "\n")
    ∙ ap (λ s. sum_line e ++ (codes "\n" ++ s)) (checksums-sums_text f es)

pub written_same : (n : Text) (c : List ℕ) (d : Disk) → write_file n c d n ≡ some c
unfolding write_file
written_same n c d = rw (text_eq_refl n) refl

pub written_other :
    (k n : Text) (c : List ℕ) (d : Disk) → text_eq k n ≡ false → write_file n c d k ≡ d k
unfolding write_file
written_other k n c d h = rw (h) refl

-- The end of an archive's name.
abbrev pub suffix : Text × Text → Text
suffix t = codes "-" ++ (t.0 ++ (codes "-" ++ (t.1 ++ codes ".tar.gz")))

abbrev la : Text × Text
la = (codes "linux", codes "amd64")

abbrev lm : Text × Text
lm = (codes "linux", codes "arm64")

abbrev da : Text × Text
da = (codes "darwin", codes "amd64")

abbrev dm : Text × Text
dm = (codes "darwin", codes "arm64")

module _ (tools : Tools) (version : Text) where
  -- A name that a turn does not write.
  abbrev pub Misses : Text → Text × Text → Type 0
  Misses k u =
      (text_eq k (archive_name version u) ≡ false)
      × (text_eq k (binary_name (codes "rungrid") u) ≡ false)
      × (text_eq k (binary_name (codes "server") u) ≡ false)

  misses :
      (t u : Text × Text)
      → text_eq (suffix t) (suffix u) ≡ false
      → ends_with (binary_name (codes "rungrid") u) (suffix t) ≡ false
      → Misses (archive_name version t) u
  unfolding text_eq
  misses t u s e = (
    text_eq-append version (suffix t) (suffix u) ∙ s,
    other_end (codes "rungrid-" ++ version) (suffix t) (binary_name (codes "rungrid") u) e,
    refl,
  )

  -- No turn overwrites the archive of an earlier one.
  abbrev pub Separate : List (Text × Text) → Type 0
  Separate [] = Unit
  Separate (t ∷ ts) = All (Misses (archive_name version t)) ts × Separate ts

  pub targets-Separate : Separate targets
  unfolding text_eq ends_with
  targets-Separate = (
    (misses la lm refl refl, (misses la da refl refl, (misses la dm refl refl, tt))),
    (
      (misses lm da refl refl, (misses lm dm refl refl, tt)),
      ((misses da dm refl refl, tt), (tt, tt)),
    ),
  )

  -- An entry of the sums belongs to the archive of its target, which holds the two binaries that were
  -- built for it with the license and the readme.
  abbrev pub IsPacked : Disk → Text × Text → Text × Text → Type 0
  IsPacked d t e =
      (server cli : List ℕ) × (tools.go_build (codes "./cmd/server") t.0 t.1 ≡ some server)
      × (tools.go_build (codes "./cmd/cli") t.0 t.1 ≡ some cli)
      × (e ≡ (tools.sha256 (tools.pack (members tools server cli)), archive_name version t))
      × (d (archive_name version t) ≡ some (tools.pack (members tools server cli)))

  abbrev pub Packs : Disk → List (Text × Text) → List (Text × Text) → Type 0
  Packs d [] [] = Unit
  Packs d [] (e ∷ es) = ⊥
  Packs d (t ∷ ts) [] = ⊥
  Packs d (t ∷ ts) (e ∷ es) = IsPacked d t e × Packs d ts es

  abbrev pub Built : List (Text × Text) → Disk → Disk → List (Text × Text) → Type 0
  Built ts disk d es = Packs d ts es × ((k : Text) → All (Misses k) ts → d k ≡ disk k)

  Built-step :
      (t : Text × Text) (ts : List (Text × Text)) (disk d : Disk) (es : List (Text × Text))
      (s c : Option (List ℕ))
      → All (Misses (archive_name version t)) ts
      → tools.go_build (codes "./cmd/server") t.0 t.1 ≡ s
      → tools.go_build (codes "./cmd/cli") t.0 t.1 ≡ c
      → ((disk' d' : Disk) (es' : List (Text × Text))
          → build_all tools version ts disk' ≡ some (d', es')
          → Built ts disk' d' es')
      → after_builds tools version t s c disk (build_all tools version ts) ≡ some (d, es)
      → Built (t ∷ ts) disk d es
  Built-step t ts disk d es none c m p q ih h = cc
  Built-step t ts disk d es (some server) none m p q ih h = cc
  Built-step t ts disk d es (some server) (some cli) m p q ih h =
      elim (Bool-cases (has_code b'/' version)) [
        | inl slash ↦
            let bad : ◌≡◌ {A = Option (Disk × List (Text × Text))} none (some (d, es)) =
              rw (slash) at h in
            cc
        | inr flat ↦
            rest (build_all tools version ts (written_for tools version t server cli disk)) refl
              (rw (flat) at h)
      ]
    where
      rest :
          (o : Option (Disk × List (Text × Text)))
          → build_all tools version ts (written_for tools version t server cli disk) ≡ o
          → put_built tools version t (tools.pack (members tools server cli)) o ≡ some (d, es)
          → Built (t ∷ ts) disk d es
      rest none b g = cc
      rest (some (d', es')) b g =
          let archive = tools.pack (members tools server cli) in
          let same_d : d' ≡ d = cc in
          let same_es : entry_of tools version t archive ∷ es' ≡ es = cc in
          let (packs, keeps) = ih (written_for tools version t server cli disk) d' es' b in
          let rungrid = write_file (binary_name (codes "server") t) server disk in
          let both = write_file (binary_name (codes "rungrid") t) cli rungrid in
          subst (λ x. Built (t ∷ ts) disk x es) same_d
            (subst (λ l. Built (t ∷ ts) disk d' l) same_es
              (
                (
                  (
                    server,
                    cli,
                    p,
                    q,
                    refl,
                    keeps (archive_name version t) m
                        ∙ written_same (archive_name version t) archive both,
                  ),
                  packs,
                ),
                λ k n.
                    keeps k n.1
                    ∙ (written_other k (archive_name version t) archive both n.0.0
                        ∙ (written_other k (binary_name (codes "rungrid") t) cli rungrid n.0.1
                            ∙ written_other k (binary_name (codes "server") t) server disk n.0.2)),
              ))

  pub build_all-Built :
      (ts : List (Text × Text)) (disk d : Disk) (es : List (Text × Text))
      → Separate ts
      → build_all tools version ts disk ≡ some (d, es)
      → Built ts disk d es
  unfolding build_all
  build_all-Built [] disk d es s h =
      let same_d : disk ≡ d = cc in
      let same_es : [] ≡ es = cc in
      subst (λ x. Built [] disk x es) same_d
        (subst (λ l. Built [] disk disk l) same_es (tt, λ k n. refl))
  build_all-Built (t ∷ ts) disk d es (m, s) h =
      Built-step t ts disk d es (tools.go_build (codes "./cmd/server") t.0 t.1)
        (tools.go_build (codes "./cmd/cli") t.0 t.1) m refl refl
        (λ disk' d' es' b. build_all-Built ts disk' d' es' s b) h

  -- The sums behind the archives change none of them.
  pub Packs-written :
      (d : Disk) (text : Text) (ts es : List (Text × Text))
      → Packs d ts es
      → Packs (write_file sums_name text d) ts es
  unfolding text_eq
  Packs-written d text [] [] h = tt
  Packs-written d text [] (e ∷ es) h = elim h [ ]
  Packs-written d text (t ∷ ts) [] h = elim h [ ]
  Packs-written d text (t ∷ ts) (e ∷ es) ((server, cli, p, q, same, file), h) = (
    (server, cli, p, q, same, written_other (archive_name version t) sums_name text d refl ∙ file),
    Packs-written d text ts es h,
  )
