-- ===== src/Study/Nodes.antt =====
-- `_prepare` and `_positive_set` of examples/heterosplit/research.py: one numbering for the nodes of
-- both sides.
use mathlib.Core.Path.{subst}
use rungrid.Common.{
  All-weaken, ℕ, ◌+◌, ◌≤◌, ◌<◌, ◌≡◌, refl, sym, Bool, true, false, List, [], ◌∷◌, ◌++◌, map,
  if◌then◌else◌, min, max, All, All-append, arith,
}
use rungrid.Study.Sampling.{Edge, key, member, positive_set}

-- The parts of a split result that `_prepare` reads: the edges hold codes of each side.
pub record SplitResult : Type 0 where
  pub self_rel : Bool
  pub n_source : ℕ
  pub n_destination : ℕ
  pub message_passing : List Edge
  pub train : List Edge
  pub test : List Edge
  pub codes_of : List Edge

pub record Prep : Type 0 where
  pub num_nodes : ℕ
  pub n_src : ℕ
  pub offset : ℕ
  pub self_rel : Bool
  pub mp : List Edge
  pub train_pos : List Edge
  pub test_pos : List Edge
  pub positives : List Edge

abbrev pub combine : ℕ → Edge → Edge
combine offset e = (e.0, e.1 + offset)

abbrev pub swap : Edge → Edge
swap e = (e.1, e.0)

abbrev pub offset_of : SplitResult → ℕ
offset_of r = if r.self_rel then 0 else r.n_source

unfoldable pub prepare : SplitResult → Prep
unfolding positive_set
prepare r =
    let mp_dir = map (combine (offset_of r)) r.message_passing in
    record {
      num_nodes = if r.self_rel then r.n_source else r.n_source + r.n_destination;
      n_src = r.n_source;
      offset = offset_of r;
      self_rel = r.self_rel;
      mp = mp_dir ++ map swap mp_dir;
      train_pos = map (combine (offset_of r)) r.train;
      test_pos = map (combine (offset_of r)) r.test;
      positives = positive_set r.self_rel (map (combine (offset_of r)) r.codes_of);
    }

-- What `heterosplit` documents of its codes: each is below the number of its side's entities, and the
-- sides of a self relation are one.
abbrev pub IsCoded : SplitResult → List Edge → Type 0
IsCoded r =
    All (λ e. (e.0 < r.n_source) × (e.1 < (if r.self_rel then r.n_source else r.n_destination)))

-- An edge of the combined nodes, from a source to a destination.
abbrev pub Joins : Prep → Edge → Type 0
Joins p e = (e.0 < p.n_src) × (p.offset ≤ e.1) × (e.1 < p.num_nodes)

joins :
    (b : Bool) (n m x y : ℕ)
    → x < n
    → y < (if b then n else m)
    → (x < n)
      × ((if b then 0 else n) ≤ y + (if b then 0 else n))
      × (y + (if b then 0 else n) < (if b then n else n + m))
joins true n m x y h k = (h, omega arith, omega arith)
joins false n m x y h k = (h, omega arith, omega arith)

All-combine :
    (r : SplitResult) (es : List Edge)
    → IsCoded r es
    → All (Joins (prepare r)) (map (combine (offset_of r)) es)
unfolding prepare
All-combine r [] h = tt
All-combine r (e ∷ es) h =
    (joins r.self_rel r.n_source r.n_destination e.0 e.1 h.0.0 h.0.1, All-combine r es h.1)

-- The edges of `_prepare` join nodes of the one numbering: a source node, and a destination node at
-- or above the offset, which in a relation between two sides is the number of the sources.
pub prepare-Joins :
    (r : SplitResult)
    → IsCoded r r.train
    → IsCoded r r.test
    → All (Joins (prepare r)) (prepare r).train_pos
      × All (Joins (prepare r)) (prepare r).test_pos
      × ((prepare r).self_rel ≡ false → (prepare r).offset ≡ (prepare r).n_src)
unfolding prepare
prepare-Joins r h k = (All-combine r r.train h, All-combine r r.test k, (λ e. rw (e) refl))

member-here : (e : Edge) (es : List Edge) → member e (e ∷ es) ≡ true
unfolding member
member-here e es = ground arith

member-there : (e f : Edge) (es : List Edge) → member e es ≡ true → member e (f ∷ es) ≡ true
unfolding member
member-there e f es h = ground (arith, h)

positive_set-key :
    (b : Bool) (es : List Edge) → All (λ e. member (key b e) (positive_set b es) ≡ true) es
unfolding positive_set
positive_set-key b [] = tt
positive_set-key b (e ∷ es) = (
  member-here (key b e) (map (key b) es),
  All-weaken _ _ (λ f. member-there (key b f) (key b e) (map (key b) es)) es
      (positive_set-key b es),
)

key-swap : (e : Edge) → key true (swap e) ≡ key true e
unfolding key
key-swap e = λ i. (min_comm e.1 e.0 i, max_comm e.1 e.0 i)
  where
    min_comm : (x y : ℕ) → min x y ≡ min y x
    min_comm x y = omega arith

    max_comm : (x y : ℕ) → max x y ≡ max y x
    max_comm x y = omega arith

-- Every record's pair is found among the positives, and in a self relation so is the pair of the
-- other order.
pub positive_set_finds :
    (b : Bool) (es : List Edge)
    → All
        (λ e.
          (member (key b e) (positive_set b es) ≡ true)
          × (b ≡ true → member (key b (swap e)) (positive_set b es) ≡ true))
        es
positive_set_finds b es =
    All-weaken _ _
      (λ e h. (
        h,
        λ t.
            subst
              (λ c.
                member (key c e) (positive_set b es) ≡ true
                → member (key c (swap e)) (positive_set b es) ≡ true)
              (sym t) (λ k. rw (key-swap e) k) h,
      ))
      es (positive_set-key b es)

All-member : (es : List Edge) → All (λ e. member e es ≡ true) es
All-member [] = tt
All-member (e ∷ es) =
    (member-here e es, All-weaken _ _ (λ f. member-there f e es) es (All-member es))

member-left : (e : Edge) (xs ys : List Edge) → member e xs ≡ true → member e (xs ++ ys) ≡ true
unfolding member
member-left e [] ys h = cc
member-left e (x ∷ xs) ys h = ground (arith, member-left e xs ys)

member-right : (e : Edge) (xs ys : List Edge) → member e ys ≡ true → member e (xs ++ ys) ≡ true
member-right e [] ys h = h
member-right e (x ∷ xs) ys h = member-there e x (xs ++ ys) (member-right e xs ys h)

member-swap :
    (e : Edge) (es : List Edge) → member e es ≡ true → member (swap e) (map swap es) ≡ true
unfolding member
member-swap e [] h = cc
member-swap e (f ∷ es) h = ground (arith, member-swap e es)

All-swap : (P : Edge → Type 0) (es : List Edge) → All (λ e. P (swap e)) es → All P (map swap es)
All-swap P [] h = tt
All-swap P (e ∷ es) h = (h.0, All-swap P es h.1)

-- Edges and behind them the same edges turned round hold each of them both ways.
both_members :
    (es : List Edge)
    → All
        (λ e. (member e (es ++ map swap es) ≡ true) × (member (swap e) (es ++ map swap es) ≡ true))
        es
both_members es =
    All-weaken _ _
      (λ e h. (
        member-left e es (map swap es) h,
        member-right (swap e) es (map swap es) (member-swap e es h),
      ))
      es (All-member es)

-- The message-passing edges go both ways: behind the edges of the split stand the same edges turned
-- round.
pub prepare_both_ways :
    (r : SplitResult)
    → All
        (λ e. (member e (prepare r).mp ≡ true) × (member (swap e) (prepare r).mp ≡ true))
        (prepare r).mp
unfolding prepare
prepare_both_ways r =
    let es = map (combine (offset_of r)) r.message_passing in
    All-append _ es (map swap es) (both_members es)
      (All-swap _ es (All-weaken _ _ (λ e h. (h.1, h.0)) es (both_members es)))

All-unmap :
    {A B : Type 0} (P : B → Type 0) (f : A → B) (xs : List A)
    → All P (map f xs)
    → All (λ x. P (f x)) xs
All-unmap P f [] h = tt
All-unmap P f (x ∷ xs) h = (h.0, All-unmap P f xs h.1)

-- Every message-passing edge of the split is there, both ways.
pub prepare_passes :
    (r : SplitResult)
    → All
        (λ e.
          (member (combine (offset_of r) e) (prepare r).mp ≡ true)
          × (member (swap (combine (offset_of r) e)) (prepare r).mp ≡ true))
        r.message_passing
unfolding prepare
prepare_passes r =
    let es = map (combine (offset_of r)) r.message_passing in
    All-unmap
      (λ e. (member e (es ++ map swap es) ≡ true) × (member (swap e) (es ++ map swap es) ≡ true))
      (combine (offset_of r)) r.message_passing (both_members es)
