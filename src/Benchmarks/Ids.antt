-- ===== src/Benchmarks/Ids.antt =====
-- The sets of ids in `run_case` of benchmarks/run.py, as lists in which no id comes twice.
use rungrid.Common.{
  suc, ◌≤◌, ◌≡◌, refl, sym, ap, ◌∙◌, Bool, true, false, ◌||◌, ◌&&◌, All, inl, inr, Bool-cases, List,
  [], ◌∷◌, length, if◌then◌else◌, Text, text_eq, text_eq_refl, text_eq_sound, arith,
}
use rungrid.Study.Protocols.{among}
use rungrid.Benchmarks.Await.{Sample, add_id, ids_where}

abbrev Apart : List Text → Type 0
Apart [] = Unit
Apart (i ∷ ids) = (among i ids ≡ false) × Apart ids

abbrev Within : List Text → List Text → Type 0
Within ids others = (i : Text) → among i ids ≡ true → among i others ≡ true

among-same : (i j : Text) (ids : List Text) → text_eq i j ≡ true → among i ids ≡ among j ids
among-same i j ids e = ap (λ k. among k ids) (text_eq_sound i j e)

remove : Text → List Text → List Text
remove i [] = []
remove i (j ∷ ids) = if text_eq i j then ids else j ∷ remove i ids

length-remove :
    (i : Text) (ids : List Text) → among i ids ≡ true → length ids ≡ suc (length (remove i ids))
unfolding among remove
length-remove i [] h = cc
length-remove i (j ∷ ids) h = elim (Bool-cases (text_eq i j)) [
  | inl same ↦ rw (same) refl
  | inr other ↦ rw (other) (ap suc (length-remove i ids (rw (other) at h)))
]

among-remove :
    (i k : Text) (ids : List Text)
    → text_eq k i ≡ false
    → among k ids ≡ true
    → among k (remove i ids) ≡ true
unfolding among remove
among-remove i k [] e h = cc
among-remove i k (j ∷ ids) e h = elim (Bool-cases (text_eq i j)) [
  | inl same ↦
      let not_j : text_eq k j ≡ false = ap (text_eq k) (sym (text_eq_sound i j same)) ∙ e in
      rw (same) (rw (not_j) at h)
  | inr other ↦ elim (Bool-cases (text_eq k j)) [
    | inl here ↦ rw (other, here) refl
    | inr not_here ↦ rw (other, not_here) (among-remove i k ids e (rw (not_here) at h))
  ]
]

-- A set that is not smaller than one it lies within is all of it.
Within-all :
    (ids others : List Text)
    → Apart ids
    → Within ids others
    → length others ≤ length ids
    → Within others ids
unfolding among
Within-all [] [] a w n i h = h
Within-all [] (j ∷ others) a w n i h = absurd (omega (arith, n))
Within-all (j ∷ ids) others (fresh, a) w n i h = elim (Bool-cases (text_eq i j)) [
  | inl here ↦ rw (here) refl
  | inr not_here ↦
      let there : among j others ≡ true = w j (ground (arith, text_eq_refl j)) in
      let smaller = length-remove j others there in
      let rest : Within ids (remove j others) = λ k m. elim (Bool-cases (text_eq k j)) [
        | inl same ↦
            let twice : among j ids ≡ true = sym (among-same k j ids same) ∙ m in
            absurd (ground (arith, twice, fresh))
        | inr other ↦ among-remove j k others other (w k (rw (other) m))
      ] in
      rw (not_here) (
        Within-all ids (remove j others) a rest (omega (arith, n, smaller)) i
          (among-remove j i others not_here h))
]

among-add_id :
    (i j : Text) (ids : List Text) → among i (add_id j ids) ≡ (text_eq i j || among i ids)
unfolding among add_id
among-add_id i j ids = elim (Bool-cases (among j ids)) [
  | inl old ↦ elim (Bool-cases (text_eq i j)) [
    | inl same ↦ rw (old, same) (among-same i j ids same ∙ old)
    | inr other ↦ rw (old, other) refl
  ]
  | inr new ↦ rw (new) refl
]

ids_where-Apart : (test : Text → Bool) (rows : List Sample) → Apart (ids_where test rows)
unfolding ids_where add_id
ids_where-Apart test [] = tt
ids_where-Apart test (r ∷ rs) = elim (Bool-cases (test r.state)) [
  | inl hit ↦ elim (Bool-cases (among r.id (ids_where test rs))) [
    | inl old ↦ rw (hit, old) (ids_where-Apart test rs)
    | inr new ↦ rw (hit, new) (new, ids_where-Apart test rs)
  ]
  | inr miss ↦ rw (miss) (ids_where-Apart test rs)
]

among-ids_where :
    (i : Text) (test : Text → Bool) (r : Sample) (rs : List Sample)
    → among i (ids_where test (r ∷ rs))
      ≡ ((test r.state && text_eq i r.id) || among i (ids_where test rs))
unfolding ids_where
among-ids_where i test r rs = elim (Bool-cases (test r.state)) [
  | inl hit ↦ rw (hit) (among-add_id i r.id (ids_where test rs))
  | inr miss ↦ rw (miss) refl
]

ids_where-Within :
    (test test' : Text → Bool) (rows : List Sample)
    → ((s : Text) → test s ≡ true → test' s ≡ true)
    → Within (ids_where test rows) (ids_where test' rows)
unfolding ids_where among
ids_where-Within test test' [] w i h = h
ids_where-Within test test' (r ∷ rs) w i h =
    let before = among-ids_where i test r rs in
    let after = among-ids_where i test' r rs in
    ground (arith, before, after, h, w r.state, ids_where-Within test test' rs w i)

rows_in :
    (test : Text → Bool) (rows : List Sample) (P : Text → Type 0)
    → ((i : Text) → among i (ids_where test rows) ≡ true → P i)
    → All (λ r. test r.state ≡ true → P r.id) rows
rows_in test [] P h = tt
rows_in test (r ∷ rs) P h = (
  (λ hit. h r.id (among-ids_where r.id test r rs ∙ rw (hit, text_eq_refl r.id) refl)),
  rows_in test rs P (λ i m. h i (among-ids_where i test r rs ∙ ground (arith, m))),
)

-- If as many ids pass the one test as the other, which it implies, every row that passes the other
-- has an id that passes the one.
pub ids_where_all :
    (test test' : Text → Bool) (rows : List Sample)
    → ((s : Text) → test s ≡ true → test' s ≡ true)
    → length (ids_where test' rows) ≡ length (ids_where test rows)
    → All (λ r. test' r.state ≡ true → among r.id (ids_where test rows) ≡ true) rows
ids_where_all test test' rows w n =
    let all =
      Within-all (ids_where test rows) (ids_where test' rows) (ids_where-Apart test rows)
        (ids_where-Within test test' rows w) (omega (arith, n)) in
    rows_in test' rows (λ i. among i (ids_where test rows) ≡ true) all

pub ids_where_same :
    (test test' : Text → Bool) (rows : List Sample)
    → All (λ r. test r.state ≡ test' r.state) rows
    → ids_where test rows ≡ ids_where test' rows
unfolding ids_where
ids_where_same test test' [] h = refl
ids_where_same test test' (r ∷ rs) (same, h) = rw (same, ids_where_same test test' rs h) refl
