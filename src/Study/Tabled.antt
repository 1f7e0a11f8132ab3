-- ===== src/Study/Tabled.antt =====
-- The order of the table of examples/heterosplit/aggregate.py.
use rungrid.Common.{
  ℕ, ◌≡◌, ◌≢◌, refl, sym, ap, ◌∙◌, true, false, inl, inr, Bool-cases, List, [], ◌∷◌, ◌++◌,
  if◌then◌else◌, Text, text_eq, text_eq_refl, text_eq_sound, All, arith,
}
use rungrid.Study.Groups.{
  MetricsRow, Key, group_of, same_key, append_value, add_rows, text_le, key_le, insert_group,
  sort_groups, table,
}
use rungrid.Study.Grouped.{
  Groups, values_of, values_at, InOrder, Apart, same_key_sym, same_key_sound, values_at-add_rows,
  append_value-All, insert_group-All, sort_groups-All,
}

-- One of two texts comes first, and so for keys.
text_le_total : (s t : Text) → text_le s t ≡ false → text_le t s ≡ true
unfolding text_le
text_le_total [] t h = cc
text_le_total (a ∷ s) [] h = refl
text_le_total (a ∷ s) (b ∷ t) h = ground (arith, h, text_le_total s t)

key_le_total : (k l : Key) → key_le k l ≡ false → key_le l k ≡ true
unfolding key_le
key_le_total [] l h = cc
key_le_total (s ∷ k) [] h = refl
key_le_total (s ∷ k) (t ∷ l) h = elim (Bool-cases (text_eq s t)) [
  | inl same ↦
      let e : text_eq t s ≡ true =
        ap (λ x. text_eq x s) (sym (text_eq_sound s t same)) ∙ text_eq_refl s in
      rw (e) (key_le_total k l (rw (same) at h))
  | inr other ↦ elim (Bool-cases (text_eq t s)) [
    | inl same ↦
        let e : text_eq s t ≡ true = ap (text_eq s) (text_eq_sound t s same) ∙ text_eq_refl s in
        absurd (ground (arith, e, other))
    | inr apart ↦ rw (apart) (text_le_total s t (rw (other) at h))
  ]
]

-- A group that is not before the first one stays behind it.
InOrder-behind :
    (f g : Key × List ℕ) (gs : Groups)
    → key_le f.0 g.0 ≡ true
    → InOrder (f ∷ gs)
    → InOrder (insert_group g gs)
    → InOrder (f ∷ insert_group g gs)
unfolding insert_group
InOrder-behind f g [] le o i = (le, tt)
InOrder-behind f g (h ∷ gs) le o i = elim (Bool-cases (key_le g.0 h.0)) [
  | inl before ↦ rw (before) (le, (before, o.1))
  | inr after ↦
      let rest : InOrder (h ∷ insert_group g gs) = rw (after) at i in rw (after) (o.0, rest)
]

InOrder-tail : (g : Key × List ℕ) (gs : Groups) → InOrder (g ∷ gs) → InOrder gs
InOrder-tail g [] o = tt
InOrder-tail g (h ∷ gs) o = o.1

insert_group-InOrder : (g : Key × List ℕ) (gs : Groups) → InOrder gs → InOrder (insert_group g gs)
unfolding insert_group
insert_group-InOrder g [] o = tt
insert_group-InOrder g (h ∷ gs) o = elim (Bool-cases (key_le g.0 h.0)) [
  | inl before ↦ rw (before) (before, o)
  | inr after ↦ rw (after) (
      InOrder-behind h g gs (key_le_total g.0 h.0 after) o
        (insert_group-InOrder g gs (InOrder-tail h gs o)))
]

sort_groups-InOrder : (gs : Groups) → InOrder (sort_groups gs)
unfolding sort_groups
sort_groups-InOrder [] = tt
sort_groups-InOrder (g ∷ gs) = insert_group-InOrder g (sort_groups gs) (sort_groups-InOrder gs)

-- No key comes twice.
append_value-Apart : (k : Key) (v : ℕ) (gs : Groups) → Apart gs → Apart (append_value k v gs)
unfolding append_value
append_value-Apart k v [] a = (tt, tt)
append_value-Apart k v (g ∷ gs) a = elim (Bool-cases (same_key k g.0)) [
  | inl same ↦ rw (same) a
  | inr other ↦ rw (other) (
    append_value-All (λ h. same_key h.0 g.0 ≡ false) k v gs other (λ vs l p. p) a.0,
    append_value-Apart k v gs a.1,
  )
]

add_rows-Apart : (rows : List MetricsRow) (gs : Groups) → Apart gs → Apart (add_rows rows gs)
unfolding add_rows
add_rows-Apart [] gs a = a
add_rows-Apart (r ∷ rs) gs a =
    add_rows-Apart rs (append_value (group_of r) r.auc gs)
      (append_value-Apart (group_of r) r.auc gs a)

insert_group-Apart :
    (g : Key × List ℕ) (gs : Groups)
    → All (λ h. same_key h.0 g.0 ≡ false) gs
    → Apart gs
    → Apart (insert_group g gs)
unfolding insert_group
insert_group-Apart g [] n a = (tt, tt)
insert_group-Apart g (h ∷ gs) n a = elim (Bool-cases (key_le g.0 h.0)) [
  | inl before ↦ rw (before) (n, a)
  | inr after ↦ rw (after) (
    insert_group-All (λ f. same_key f.0 h.0 ≡ false) g gs (same_key_sym h.0 g.0 n.0) a.0,
    insert_group-Apart g gs n.1 a.1,
  )
]

sort_groups-Apart : (gs : Groups) → Apart gs → Apart (sort_groups gs)
unfolding sort_groups
sort_groups-Apart [] a = tt
sort_groups-Apart (g ∷ gs) a =
    insert_group-Apart g (sort_groups gs) (sort_groups-All (λ h. same_key h.0 g.0 ≡ false) gs a.0)
      (sort_groups-Apart gs a.1)

-- Sorting moves no values.
values_at-insert_group :
    (k : Key) (g : Key × List ℕ) (gs : Groups)
    → All (λ h. same_key h.0 g.0 ≡ false) gs
    → values_at k (insert_group g gs) ≡ values_at k (g ∷ gs)
unfolding values_at insert_group
values_at-insert_group k g [] n = refl
values_at-insert_group k g (h ∷ gs) n = elim (Bool-cases (key_le g.0 h.0)) [
  | inl before ↦ rw (before) refl
  | inr after ↦
      let rest = values_at-insert_group k g gs n.1 in
      elim (Bool-cases (same_key k h.0)) [
        | inl here ↦
            let not_g : same_key k g.0 ≡ false =
              ap (λ l. same_key l g.0) (same_key_sound k h.0 here) ∙ n.0 in
            rw (after, here, not_g) refl
        | inr there ↦ rw (after, there) rest
      ]
]

values_at-sort_groups :
    (k : Key) (gs : Groups) → Apart gs → values_at k (sort_groups gs) ≡ values_at k gs
unfolding sort_groups values_at
values_at-sort_groups k [] a = refl
values_at-sort_groups k (g ∷ gs) a =
    values_at-insert_group k g (sort_groups gs)
      (sort_groups-All (λ h. same_key h.0 g.0 ≡ false) gs a.0)
    ∙ ap (λ vs. if same_key k g.0 then g.1 else vs) (values_at-sort_groups k gs a.1)

add_rows-All :
    (rows : List MetricsRow) (gs : Groups)
    → All (λ g. g.1 ≢ []) gs
    → All (λ g. g.1 ≢ []) (add_rows rows gs)
unfolding add_rows
add_rows-All [] gs h = h
add_rows-All (r ∷ rs) gs h = add_rows-All rs (append_value (group_of r) r.auc gs) (
    append_value-All (λ g. g.1 ≢ []) (group_of r) r.auc gs (λ e. cc)
      (λ vs l p. append_some vs r.auc) h)
  where
    append_some : (vs : List ℕ) (v : ℕ) → vs ++ v ∷ [] ≢ []
    append_some [] v e = cc
    append_some (w ∷ vs) v e = cc

-- The table has, under each key, the AUCs of the rows with this study, dataset, regime and model, in the
-- order of the rows, and no line for a key without rows; its keys ascend, and none comes twice.
pub table-InOrder :
    (rows : List MetricsRow)
    → ((k : Key) → values_at k (table rows) ≡ values_of k rows)
      × All (λ g. g.1 ≢ []) (table rows)
      × InOrder (table rows)
      × Apart (table rows)
unfolding table values_at
table-InOrder rows =
    let apart = add_rows-Apart rows [] tt in
    (
      (λ k. values_at-sort_groups k (add_rows rows []) apart ∙ values_at-add_rows k rows []),
      sort_groups-All (λ g. g.1 ≢ []) (add_rows rows []) (add_rows-All rows [] tt),
      sort_groups-InOrder (add_rows rows []),
      sort_groups-Apart (add_rows rows []) apart,
    )
