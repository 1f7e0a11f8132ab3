-- ===== src/Study/Negatives.antt =====
-- What `_sample_pairs` of examples/heterosplit/research.py returns.
use rungrid.Common.{
  get_elem?, ℕ, zero, suc, ◌*◌, ◌≤◌, ◌<◌, ◌≡◌, ◌≢◌, refl, ap, Bool, true, false, ◌||◌, inl, inr,
  Bool-cases, some, List, [], ◌∷◌, ◌++◌, length, length-append, length-take-le, take, ◌==◌, leb,
  All, All-append, arith,
}
use rungrid.Study.Sampling.{
  Edge, gather, zip_strict, key, member, skipped, scan, Generator, draw, rounds, sample_pairs,
}

-- The node stands in the pool.
abbrev pub Within : List ℕ → ℕ → Type 0
Within pool x = (i : ℕ) × (get_elem? pool i ≡ some x)

get_elem?-total : (xs : List ℕ) (i : ℕ) → i < length xs → (x : ℕ) × (get_elem? xs i ≡ some x)
unfolding get_elem?
get_elem?-total [] i h = absurd (omega arith)
get_elem?-total (x ∷ xs) zero h = (x, refl)
get_elem?-total (x ∷ xs) (suc i) h = get_elem?-total xs i (omega arith)

gather-total :
    (pool is : List ℕ)
    → All (λ i. i < length pool) is
    → (xs : List ℕ) × (gather pool is ≡ some xs) × (length xs ≡ length is) × All (Within pool) xs
unfolding gather
gather-total pool [] h = ([], refl, refl, tt)
gather-total pool (i ∷ is) h =
    let (x, e) = get_elem?-total pool i h.0 in
    let (xs, f, n, a) = gather-total pool is h.1 in
    (x ∷ xs, rw (e, f) refl, omega (arith, n), ((i, e), a))

zip_strict-total :
    (P Q : ℕ → Type 0) (xs ys : List ℕ)
    → length xs ≡ length ys
    → All P xs
    → All Q ys
    → (es : List Edge) × (zip_strict xs ys ≡ some es) × All (λ e. P e.0 × Q e.1) es
unfolding zip_strict
zip_strict-total P Q [] [] n p q = ([], refl, tt)
zip_strict-total P Q (x ∷ xs) [] n p q = absurd (omega arith)
zip_strict-total P Q [] (y ∷ ys) n p q = absurd (omega arith)
zip_strict-total P Q (x ∷ xs) (y ∷ ys) n p q =
    let (es, e, a) = zip_strict-total P Q xs ys (omega (arith, n)) p.1 q.1 in
    ((x, y) ∷ es, rw (e) refl, ((p.0, q.0), a))

All-take {κ} : {A : Type 0} (P : A → Type κ) (n : ℕ) (xs : List A) → All P xs → All P (take n xs)
All-take P zero xs h = tt
All-take P (suc n) [] h = tt
All-take P (suc n) (x ∷ xs) h = (h.0, All-take P n xs h.1)

-- What torch documents of `randint`.
pub record IsLawful {G : Type 0} (generator : Generator G) : Type 0 where
  pub count_of :
      (g : G) (high count : ℕ) → 0 < high → length (generator.randint g high count).0 ≡ count
  pub below :
      (g : G) (high count : ℕ) → 0 < high → All (λ i. i < high) (generator.randint g high count).0

-- A pair of nodes of the pools.
abbrev pub Pooled : List ℕ → List ℕ → Edge → Type 0
Pooled src_pool dst_pool e = Within src_pool e.0 × Within dst_pool e.1

-- A negative: a pair of nodes of the pools whose key is no positive's, and in a self relation no
-- loop.
abbrev pub IsNegative : List ℕ → List ℕ → List Edge → Bool → Edge → Type 0
IsNegative src_pool dst_pool positives self_rel e =
    Within src_pool e.0
    × Within dst_pool e.1
    × All (λ p. p ≢ key self_rel e) positives
    × (self_rel ≡ true → e.0 ≢ e.1)

member-none : (e : Edge) (ps : List Edge) → member e ps ≡ false → All (λ p. p ≢ e) ps
unfolding member
member-none e [] h = tt
member-none e (p ∷ ps) h = (
  (λ same.
      let x : p.0 ≡ e.0 = ap (λ q. q.0) same in
      let y : p.1 ≡ e.1 = ap (λ q. q.1) same in ground arith),
  member-none e ps (ground arith),
)

kept-none :
    (positives : List Edge) (self_rel : Bool) (e : Edge)
    → skipped self_rel positives e ≡ false
    → All (λ p. p ≢ key self_rel e) positives × (self_rel ≡ true → e.0 ≢ e.1)
unfolding skipped
kept-none positives true e h =
    (member-none (key true e) positives (ground arith), (λ t. ground arith))
kept-none positives false e h = (member-none (key false e) positives h, (λ t. cc))

module _ (src_pool dst_pool : List ℕ) (k : ℕ) (positives : List Edge) (self_rel : Bool) where
  -- Negatives, and fewer than `k` of them, until the loops stop at `k`.
  abbrev Kept : List Edge → Type 0
  Kept out = All (IsNegative src_pool dst_pool positives self_rel) out × (length out ≤ k)

  scan-Kept :
      (es out : List Edge)
      → All (Pooled src_pool dst_pool) es
      → Kept out
      → length out < k
      → Kept (scan self_rel positives k es out)
  unfolding scan
  scan-Kept [] out a h less = h
  scan-Kept (e ∷ es) out a h less = elim (Bool-cases (skipped self_rel positives e)) [
    | inl skip ↦ rw (skip) (scan-Kept es out a.1 h less)
    | inr keep ↦
        let added : Kept (out ++ e ∷ []) = (
          All-append _ out (e ∷ []) h.0 (
            (
              a.0.0,
              a.0.1,
              (kept-none positives self_rel e keep).0,
              (kept-none positives self_rel e keep).1,
            ),
            tt,
          ),
          omega (arith, length-append out (e ∷ [])),
        ) in
        elim (Bool-cases (leb k (length (out ++ e ∷ [])))) [
          | inl full ↦ rw (keep, full) added
          | inr more ↦ rw (keep, more) (scan-Kept es (out ++ e ∷ []) a.1 added (ground arith))
        ]
  ]

  module _ {G : Type 0} (generator : Generator G) (lawful : IsLawful generator)
      (some_src : 0 < length src_pool) (some_dst : 0 < length dst_pool) where
    draw-total :
        (g : G)
        → (es : List Edge) × ((draw generator src_pool dst_pool k g).0 ≡ some es)
          × All (Pooled src_pool dst_pool) es
    unfolding draw
    draw-total g =
        let drawn = generator.randint g (length src_pool) (4 * k) in
        let (xs, e, n, a) =
          gather-total src_pool drawn.0 (lawful.below g (length src_pool) (4 * k) some_src) in
        let (ys, f, m, b) =
          gather-total dst_pool _ (lawful.below drawn.1 (length dst_pool) (4 * k) some_dst) in
        let (es, z, c) =
          zip_strict-total (Within src_pool) (Within dst_pool) xs ys
            (omega (
              arith,
              n,
              m,
              lawful.count_of g (length src_pool) (4 * k) some_src,
              lawful.count_of drawn.1 (length dst_pool) (4 * k) some_dst,
            ))
            a b in
        (es, rw (e, f) z, c)

    rounds-Kept :
        (n : ℕ) (g : G) (out : List Edge)
        → Kept out
        → length out < k
        → (kept : List Edge) × ((rounds generator n src_pool dst_pool k positives self_rel g out).0
            ≡ some kept)
          × Kept kept
    unfolding rounds
    rounds-Kept zero g out h less = (out, refl, h)
    rounds-Kept (suc n) g out h less =
        let (es, e, a) = draw-total g in
        let kept = scan self_rel positives k es out in
        let good : Kept kept = scan-Kept es out a h less in
        elim (Bool-cases (leb k (length kept))) [
          | inl full ↦ (kept, rw (e, full) refl, good)
          | inr more ↦
              let (last, f, l) =
                rounds-Kept n (draw generator src_pool dst_pool k g).1 kept good (ground arith) in
              (last, rw (e, more) f, l)
        ]

-- `_sample_pairs` never raises for a lawful generator. It returns at most `k` pairs, and each of them
-- is a source node of the one pool with a destination node of the other, is no positive, and in a
-- self relation joins two different nodes.
pub sample_pairs-Negative :
    {G : Type 0} (generator : Generator G) (src_pool dst_pool : List ℕ) (k : ℕ)
    (positives : List Edge) (self_rel : Bool) (g : G)
    → IsLawful generator
    → (out : List Edge) × ((sample_pairs generator src_pool dst_pool k positives self_rel g).0
        ≡ some out)
      × (length out ≤ k)
      × All (IsNegative src_pool dst_pool positives self_rel) out
unfolding sample_pairs
sample_pairs-Negative generator src_pool dst_pool k positives self_rel g lawful =
    elim (Bool-cases ((k == 0) || ((length src_pool == 0) || (length dst_pool == 0)))) [
      | inl empty ↦ ([], rw (empty) refl, omega arith, tt)
      | inr full ↦
          let (kept, e, all) =
            rounds-Kept src_pool dst_pool k positives self_rel generator lawful (ground arith)
              (ground arith) 40 g [] (tt, omega arith) (ground arith) in
          (take k kept, rw (full, e) refl, length-take-le k kept, All-take _ k kept all.0)
    ]
