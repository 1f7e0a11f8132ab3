-- ===== src/Study/Grouped.antt =====
-- What the table of examples/heterosplit/aggregate.py holds.
use rungrid.Common.{
  ℕ, ◌≡◌, refl, sym, ap, ◌∙◌, true, false, inl, inr, Bool-cases, List, [], ◌∷◌, ◌++◌, append-nil,
  append_assoc, if◌then◌else◌, text_eq_refl, text_eq_sound, All, arith,
}
use rungrid.Study.Groups.{
  MetricsRow, Key, group_of, same_key, append_value, add_rows, key_le, insert_group, sort_groups,
}

abbrev pub Groups : Type 0
Groups = List (Key × List ℕ)

-- The AUCs of the rows with the key.
unfoldable pub values_of : Key → List MetricsRow → List ℕ
unfolding same_key
values_of k [] = []
values_of k (r ∷ rs) =
    let rest = values_of k rs in if same_key k (group_of r) then r.auc ∷ rest else rest

-- The values of the key's first group; none where there is no group.
unfoldable pub values_at : Key → List (Key × List ℕ) → List ℕ
unfolding same_key
values_at k [] = []
values_at k (g ∷ gs) = let rest = values_at k gs in if same_key k g.0 then g.1 else rest

-- The keys ascend, and no key comes twice.
abbrev pub InOrder : List (Key × List ℕ) → Type 0
InOrder [] = Unit
InOrder (g ∷ []) = Unit
InOrder (g ∷ h ∷ gs) = (key_le g.0 h.0 ≡ true) × InOrder (h ∷ gs)

abbrev pub Apart : List (Key × List ℕ) → Type 0
Apart [] = Unit
Apart (g ∷ gs) = All (λ h. same_key h.0 g.0 ≡ false) gs × Apart gs

pub same_key_refl : (k : Key) → same_key k k ≡ true
unfolding same_key
same_key_refl [] = refl
same_key_refl (s ∷ k) = ground (arith, text_eq_refl s, same_key_refl k)

pub same_key_sound : (k l : Key) → same_key k l ≡ true → k ≡ l
unfolding same_key
same_key_sound [] [] h = refl
same_key_sound [] (t ∷ l) h = cc
same_key_sound (s ∷ k) [] h = cc
same_key_sound (s ∷ k) (t ∷ l) h =
    let head : s ≡ t = text_eq_sound s t (ground arith) in
    let tail : k ≡ l = same_key_sound k l (ground arith) in λ i. head i ∷ tail i

pub same_key_sym : (k l : Key) → same_key k l ≡ false → same_key l k ≡ false
same_key_sym k l h = elim (Bool-cases (same_key l k)) [
  | inl same ↦
      let hit : same_key k l ≡ true = ap (same_key k) (same_key_sound l k same) ∙ same_key_refl k in
      absurd (ground (arith, hit, h))
  | inr other ↦ other
]

-- Two keys that are the same are so to a third one.
pub same_key-third : (k l m : Key) → same_key k l ≡ true → same_key m k ≡ same_key m l
same_key-third k l m h = ap (same_key m) (same_key_sound k l h)

values_at-append_value :
    (k l : Key) (v : ℕ) (gs : Groups)
    → values_at k (append_value l v gs)
      ≡ (if same_key k l then values_at k gs ++ v ∷ [] else values_at k gs)
unfolding values_at append_value
values_at-append_value k l v [] = elim (Bool-cases (same_key k l)) [
  | inl same ↦ rw (same) refl
  | inr other ↦ rw (other) refl
]
values_at-append_value k l v (g ∷ gs) = elim (Bool-cases (same_key l g.0)) [
  | inl here ↦
      let third : same_key k l ≡ same_key k g.0 = same_key-third l g.0 k here in
      elim (Bool-cases (same_key k g.0)) [
        | inl same ↦ rw (here, third, same) refl
        | inr other ↦ rw (here, third, other) refl
      ]
  | inr there ↦ elim (Bool-cases (same_key k g.0)) [
    | inl same ↦
        let other : same_key k l ≡ false =
          ap (λ m. same_key m l) (same_key_sound k g.0 same) ∙ same_key_sym l g.0 there in
        rw (there, other, same) refl
    | inr other ↦ rw (there, other) (values_at-append_value k l v gs)
  ]
]

pub values_at-add_rows :
    (k : Key) (rows : List MetricsRow) (gs : Groups)
    → values_at k (add_rows rows gs) ≡ values_at k gs ++ values_of k rows
unfolding add_rows values_of
values_at-add_rows k [] gs = sym (append-nil (values_at k gs))
values_at-add_rows k (r ∷ rs) gs =
    let step = values_at-append_value k (group_of r) r.auc gs in
    let rest = values_at-add_rows k rs (append_value (group_of r) r.auc gs) in
    elim (Bool-cases (same_key k (group_of r))) [
      | inl same ↦
          let here : values_at k (append_value (group_of r) r.auc gs)
              ≡ values_at k gs ++ r.auc ∷ [] =
            rw (same) at step in
          rw (same) (
            rest
            ∙ (ap (λ l. l ++ values_of k rs) here
                ∙ append_assoc (values_at k gs) (r.auc ∷ []) (values_of k rs)))
      | inr other ↦
          let here : values_at k (append_value (group_of r) r.auc gs) ≡ values_at k gs =
            rw (other) at step in
          rw (other) (rest ∙ ap (λ l. l ++ values_of k rs) here)
    ]

module _ (P : Key × List ℕ → Type 0) where
  pub append_value-All :
      (k : Key) (v : ℕ) (gs : Groups)
      → P (k, v ∷ [])
      → ((vs : List ℕ) → (l : Key) → P (l, vs) → P (l, vs ++ v ∷ []))
      → All P gs
      → All P (append_value k v gs)
  unfolding append_value
  append_value-All k v [] new more h = (new, tt)
  append_value-All k v (g ∷ gs) new more h = elim (Bool-cases (same_key k g.0)) [
    | inl same ↦ rw (same) (more g.1 g.0 h.0, h.1)
    | inr other ↦ rw (other) (h.0, append_value-All k v gs new more h.1)
  ]

  pub insert_group-All :
      (g : Key × List ℕ) (gs : Groups) → P g → All P gs → All P (insert_group g gs)
  unfolding insert_group
  insert_group-All g [] p h = (p, tt)
  insert_group-All g (f ∷ gs) p h = elim (Bool-cases (key_le g.0 f.0)) [
    | inl le ↦ rw (le) (p, h)
    | inr gt ↦ rw (gt) (h.0, insert_group-All g gs p h.1)
  ]

  pub sort_groups-All : (gs : Groups) → All P gs → All P (sort_groups gs)
  unfolding sort_groups
  sort_groups-All [] h = tt
  sort_groups-All (g ∷ gs) h = insert_group-All g (sort_groups gs) h.0 (sort_groups-All gs h.1)
