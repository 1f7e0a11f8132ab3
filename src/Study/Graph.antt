-- ===== src/Study/Graph.antt =====
-- What `_prepare` and `_positive_set` of examples/heterosplit/research.py make of a split.
use rungrid.Common.{
  get_elem?, ℕ, zero, suc, ◌≡◌, ◌≢◌, refl, ap, Bool, true, false, ◌&&◌, ◌⊎◌, inl, inr, Bool-cases,
  some, List, [], ◌∷◌, map, ◌==◌, min, max, All, arith, ◌+◌, All-append, Present, All-Present,
}
use rungrid.Study.Sampling.{Edge, key, member, positive_set}
use rungrid.Study.Nodes.{
  SplitResult, Prep, prepare, combine, offset_of, swap, IsCoded, Joins, prepare-Joins,
  prepare_both_ways, prepare_passes, positive_set_finds,
}

-- The pair is one of the records', or in a self relation one of them turned round.
abbrev pub IsRecorded : Bool → List Edge → Edge → Type 0
IsRecorded b es f =
    (g : Edge) × (i : ℕ) × (get_elem? es i ≡ some g) × ((g ≡ f) ⊎ ((b ≡ true) × (g ≡ swap f)))

key_is : (b : Bool) (g f : Edge) → key b g ≡ key b f → (g ≡ f) ⊎ ((b ≡ true) × (g ≡ swap f))
unfolding key
key_is false g f e = inl e
key_is true g f e =
    let low : min g.0 g.1 ≡ min f.0 f.1 = ap (λ x. x.0) e in
    let high : max g.0 g.1 ≡ max f.0 f.1 = ap (λ x. x.1) e in
    elim (Bool-cases (g.0 == f.0)) [
      | inl same ↦
          let first : g.0 ≡ f.0 = ground arith in
          let second : g.1 ≡ f.1 = omega arith in inl (λ i. (first i, second i))
      | inr other ↦
          let ne : g.0 ≢ f.0 = ground arith in
          let first : g.0 ≡ f.1 = omega arith in
          let second : g.1 ≡ f.0 = omega arith in inr (refl, λ i. (first i, second i))
    ]

member-IsRecorded :
    (b : Bool) (es : List Edge) (f : Edge)
    → member (key b f) (positive_set b es) ≡ true
    → IsRecorded b es f
unfolding positive_set member get_elem?
member-IsRecorded b [] f h = cc
member-IsRecorded b (e ∷ es) f h =
    elim (Bool-cases (((key b f).0 == (key b e).0) && ((key b f).1 == (key b e).1))) [
      | inl hit ↦
          let first : (key b e).0 ≡ (key b f).0 = ground (arith, hit) in
          let second : (key b e).1 ≡ (key b f).1 = ground (arith, hit) in
          (e, zero, refl, key_is b e f (λ i. (first i, second i)))
      | inr miss ↦
          let (g, i, at, is) = member-IsRecorded b es f (rw (miss) at h) in (g, suc i, at, is)
    ]

-- A message-passing edge is one of the split's, or such an edge turned round.
abbrev pub Passes : ℕ → List Edge → Edge → Type 0
Passes offset es f =
    (g : Edge) × Present g es × ((f ≡ combine offset g) ⊎ (f ≡ swap (combine offset g)))

All-Passes :
    (offset : ℕ) (all es : List Edge)
    → All (λ g. Present g all) es
    → All (Passes offset all) (map (combine offset) es)
      × All (Passes offset all) (map swap (map (combine offset) es))
All-Passes offset all [] h = (tt, tt)
All-Passes offset all (e ∷ es) h =
    let rest = All-Passes offset all es h.1 in
    (((e, h.0, inl refl), rest.0), ((e, h.0, inr refl), rest.1))

-- A prepared split: its supervision edges are the split's, the destinations moved by the offset; the
-- message-passing edges are the split's and those turned round, each of them; its edges join nodes of
-- the one numbering, a source node and a destination node at or above the offset, which between two
-- sides is the number of the sources; the message-passing edges go both ways; and the positives have
-- exactly the pairs of the records, in a self relation in either order.
pub record IsGraph (r : SplitResult) (p : Prep) : Type 0 where
  pub train_edges : p.train_pos ≡ map (λ e. (e.0, e.1 + p.offset)) r.train
  pub test_edges : p.test_pos ≡ map (λ e. (e.0, e.1 + p.offset)) r.test
  pub passes : All (Passes p.offset r.message_passing) p.mp
  pub passed :
      All
        (λ e.
          (member (e.0, e.1 + p.offset) p.mp ≡ true) × (member (e.1 + p.offset, e.0) p.mp ≡ true))
        r.message_passing
  pub train : All (Joins p) p.train_pos
  pub test : All (Joins p) p.test_pos
  pub apart : p.self_rel ≡ false → p.offset ≡ p.n_src
  pub both_ways : All (λ e. (member e p.mp ≡ true) × (member (swap e) p.mp ≡ true)) p.mp
  pub found :
      All
        (λ e.
          (member (key p.self_rel e) p.positives ≡ true)
          × (p.self_rel ≡ true → member (key p.self_rel (swap e)) p.positives ≡ true))
        (map (combine p.offset) r.codes_of)
  pub recorded :
      (f : Edge)
      → member (key p.self_rel f) p.positives ≡ true
      → IsRecorded p.self_rel (map (combine p.offset) r.codes_of) f

-- For every split result whose codes are in range, `_prepare` refines the graph that it stands for:
-- the train and test edges are those of the split's train and test sets, and the message-passing edges
-- exactly its message-passing edges and these turned round; the train and test edges join nodes of the
-- one numbering, where between two sides the destinations begin at the number of the sources; with
-- each message-passing edge goes its reverse; and a pair is found among the positives exactly if it is
-- a record's, in a self relation in either order.
pub prepare-IsGraph :
    (r : SplitResult) → IsCoded r r.train → IsCoded r r.test → IsGraph r (prepare r)
unfolding prepare
prepare-IsGraph r h k =
    let joins = prepare-Joins r h k in
    let all =
      All-Passes (offset_of r) r.message_passing r.message_passing
        (All-Present r.message_passing) in
    record {
      train_edges = refl;
      test_edges = refl;
      passes =
          All-append _ (map (combine (offset_of r)) r.message_passing)
            (map swap (map (combine (offset_of r)) r.message_passing)) all.0 all.1;
      passed = prepare_passes r;
      train = joins.0;
      test = joins.1;
      apart = joins.2;
      both_ways = prepare_both_ways r;
      found = positive_set_finds r.self_rel (map (combine (offset_of r)) r.codes_of);
      recorded = member-IsRecorded r.self_rel (map (combine (offset_of r)) r.codes_of);
    }
