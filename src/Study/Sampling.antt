-- ===== src/Study/Sampling.antt =====
-- `_positive_set`, `_sample_pairs` and the node numbers of `_prepare` in
-- examples/heterosplit/research.py. The generator of torch is the parameter `Generator`.
use rungrid.Common.{
  get_elem?, ℕ, zero, suc, ◌*◌, Bool, true, false, ◌&&◌, ◌||◌, Option, none, some, List, [], ◌∷◌,
  ◌++◌, map, length, take, ◌==◌, leb, if◌then◌else◌, min, max,
}

-- A pair of nodes, source and destination.
abbrev pub Edge : Type 0
Edge = ℕ × ℕ

abbrev pub put_first {ℓ} : {A : Type ℓ} → Option A → Option (List A) → Option (List A)
put_first none r = none
put_first (some x) none = none
put_first (some x) (some xs) = some (x ∷ xs)

-- `pool[indices].tolist()`
unfoldable pub gather : List ℕ → List ℕ → Option (List ℕ)
unfolding get_elem?
gather pool [] = some []
gather pool (i ∷ indices) = put_first (get_elem? pool i) (gather pool indices)

-- `zip(a, b, strict=True)`; nothing where it raises.
unfoldable pub zip_strict : List ℕ → List ℕ → Option (List Edge)
zip_strict [] [] = some []
zip_strict (x ∷ xs) [] = none
zip_strict [] (y ∷ ys) = none
zip_strict (x ∷ xs) (y ∷ ys) = put_first (some (x, y)) (zip_strict xs ys)

-- The key of a pair: in a self relation it forgets the order.
unfoldable pub key : Bool → Edge → Edge
key true (x, y) = (min x y, max x y)
key false e = e

-- `key in positives`
unfoldable pub member : Edge → List Edge → Bool
member e [] = false
member e (p ∷ ps) = ((e.0 == p.0) && (e.1 == p.1)) || member e ps

-- `_positive_set`
unfoldable pub positive_set : Bool → List Edge → List Edge
unfolding key
positive_set self_rel = map (key self_rel)

-- The two guards of the inner loop.
unfoldable pub skipped : Bool → List Edge → Edge → Bool
unfolding key member
skipped self_rel positives e = (self_rel && (e.0 == e.1)) || member (key self_rel e) positives

-- The inner loop over the pairs of one round, which stops at the `k`th pair that is kept.
unfoldable pub scan : Bool → List Edge → ℕ → List Edge → List Edge → List Edge
unfolding skipped
scan self_rel positives k [] out = out
scan self_rel positives k (e ∷ es) out =
    let added = out ++ e ∷ [] in
    let skip = scan self_rel positives k es out in
    let keep = scan self_rel positives k es added in
    if skipped self_rel positives e then skip else if leb k (length added) then added else keep

-- `torch.randint(high, (count,), generator=...)`, on the generator's state.
pub record Generator (G : Type 0) : Type 0 where
  pub randint : G → ℕ → ℕ → List ℕ × G

-- `out_s[:k]` and `out_d[:k]`
abbrev pub cut_out : ℕ → Option (List Edge) → Option (List Edge)
cut_out k none = none
cut_out k (some out) = some (take k out)

module _ {G : Type 0} (generator : Generator G) where
  abbrev pub zipped : Option (List ℕ) → Option (List ℕ) → Option (List Edge)
  zipped none b = none
  zipped (some a) none = none
  zipped (some a) (some b) = zip_strict a b

  -- The pairs that one round draws.
  unfoldable pub draw : List ℕ → List ℕ → ℕ → G → Option (List Edge) × G
  unfolding gather zip_strict
  draw src_pool dst_pool k g =
      let (is, g1) = generator.randint g (length src_pool) (4 * k) in
      let (js, g2) = generator.randint g1 (length dst_pool) (4 * k) in
      (zipped (gather src_pool is) (gather dst_pool js), g2)

  -- The end of a round, on the pairs that it drew: `again` is the rest of the rounds.
  abbrev pub end_round :
      ℕ
      → (List Edge → List Edge)
      → G
      → (List Edge → Option (List Edge) × G)
      → Option (List Edge)
      → Option (List Edge) × G
  end_round k keep g again none = (none, g)
  end_round k keep g again (some es) =
      if leb k (length (keep es)) then (some (keep es), g) else again (keep es)

  unfoldable pub rounds :
      ℕ → List ℕ → List ℕ → ℕ → List Edge → Bool → G → List Edge → Option (List Edge) × G
  unfolding draw scan
  rounds zero src_pool dst_pool k positives self_rel g out = (some out, g)
  rounds (suc n) src_pool dst_pool k positives self_rel g out =
      let drawn = draw src_pool dst_pool k g in
      end_round k (λ es. scan self_rel positives k es out) drawn.1
        (λ kept. rounds n src_pool dst_pool k positives self_rel drawn.1 kept) drawn.0

  -- The result is nothing where an index or a `zip` raises.
  unfoldable pub sample_pairs : List ℕ → List ℕ → ℕ → List Edge → Bool → G → Option (List Edge) × G
  unfolding rounds
  sample_pairs src_pool dst_pool k positives self_rel g =
      if (k == 0) || ((length src_pool == 0) || (length dst_pool == 0))
      then (some [], g)
      else (let r = rounds 40 src_pool dst_pool k positives self_rel g [] in (cut_out k r.0, r.1))
