-- ===== src/Study/Plans.antt =====
-- `split_protocol` of examples/heterosplit/protocols.py: its plans, told apart, and its checks.
use mathlib.Core.Path.{subst}
use mathlib.Core.Option.{some-injective}
use rungrid.Common.{
  ℕ, ◌≡◌, ◌≢◌, refl, sym, ap, ◌∙◌, inl, inr, Bool, true, false, Option, none, some, List, [], ◌∷◌,
  Text, codes, text_eq, text_eq_sound, All, arith, if◌then◌else◌, Bool-cases,
}
use rungrid.Study.Protocols.{
  among, find, drug_comb, original, regimes, studies, regimes_of, regimes_in, Plan, plan, Splitter,
  Outcome, raised, returned, leakage, empty_partition, not_part, any_zero, audited, split_by,
  split_known, split_protocol,
}

pub among-All {κ} :
    (P : Text → Type κ) (n : Text) (ms : List Text) → All P ms → among n ms ≡ true → P n
unfolding among
among-All P n [] h e = cc
among-All P n (m ∷ ms) h e = elim (Bool-cases (text_eq n m)) [
  | inl same ↦ subst P (sym (text_eq_sound n m same)) h.0
  | inr other ↦ among-All P n ms h.1 (rw (other) at e)
]

pub find-All {ℓ κ} :
    {A : Type ℓ} (P : Text → A → Type κ) (n : Text) (x : A) (es : List (Text × A))
    → All (λ e. P e.0 e.1) es
    → find n es ≡ some x
    → P n x
unfolding find
find-All P n x [] h e = cc
find-All P n x (f ∷ es) h e = elim (Bool-cases (text_eq n f.0)) [
  | inl same ↦
      let value : f.1 ≡ x = some-injective f.1 x (rw (same) at e) in
      subst (λ m. P m x) (sym (text_eq_sound n f.0 same)) (subst (P f.0) value h.0)
  | inr other ↦ find-All P n x es h.1 (rw (other) at e)
]

-- The regime that a plan is for: a plan holds all that the regime's name says.
abbrev regime_held : Text → Bool → List (Text × Text) → Text
regime_held dataset true hs = codes "pair_cell_cold_start"
regime_held dataset false [] = []
regime_held dataset false (h ∷ []) = []
regime_held dataset false (h ∷ k ∷ l ∷ hs) = codes "both_month_cold_start"
regime_held dataset false (h ∷ k ∷ []) =
    if text_eq dataset drug_comb
    then (if text_eq k.1 (codes "either")
        then codes "either_cell_cold_start"
        else codes "both_cell_cold_start")
    else if text_eq k.1 (codes "source")
    then codes "source_month_cold_start"
    else codes "destination_month_cold_start"

abbrev regime_for : Text → Plan → Text
regime_for dataset p = elim p.holdout [
  | none ↦
      if text_eq p.native_regime (codes "context_cold_start")
      then (if text_eq dataset drug_comb then codes "cell_cold_start" else codes "month_cold_start")
      else p.native_regime
  | some hs ↦ regime_held dataset p.paired hs
]

-- The plans of the regimes of one dataset tell the regimes.
abbrev Tells : Text → List Text → Option (List Text) → Type 0
Tells dataset known none = Unit
Tells dataset known (some native) = All (λ r. regime_for dataset (plan native dataset r) ≡ r) known

TellsAll : List (Text × List Text) → Type 0
TellsAll = All (λ row. Tells row.0 row.1 (find row.0 original))

Tells-original : TellsAll original
unfolding plan find TellsAll
Tells-original = ((refl, (refl, (refl, (refl, tt)))), ((refl, (refl, (refl, (refl, tt)))), tt))

Tells-regimes : TellsAll regimes
unfolding plan find TellsAll
Tells-regimes = (
  (refl, (refl, (refl, (refl, (refl, (refl, (refl, (refl, tt)))))))),
  ((refl, (refl, (refl, (refl, (refl, (refl, (refl, (refl, tt)))))))), tt),
)

Tells-regimes_of :
    (study dataset : Text) (known : List Text)
    → regimes_of study dataset ≡ some known
    → Tells dataset known (find dataset original)
unfolding regimes_of regimes_in TellsAll
Tells-regimes_of study dataset known e = within (find study studies) refl e
  where
    within :
        (t : Option (List (Text × List Text)))
        → find study studies ≡ t
        → regimes_in dataset t ≡ some known
        → Tells dataset known (find dataset original)
    within none q e = cc
    within (some table) q e =
        let told : TellsAll table =
          find-All (λ s t. TellsAll t) study table studies (Tells-original, (Tells-regimes, tt))
            q in
        find-All (λ d k. Tells d k (find d original)) dataset known table told e

-- Two regimes of one study and dataset never get the same plan: the splitter is told apart all
-- that their names tell apart.
pub plan_apart :
    (study dataset regime regime' : Text) (known native : List Text)
    → regimes_of study dataset ≡ some known
    → find dataset original ≡ some native
    → among regime known ≡ true
    → among regime' known ≡ true
    → plan native dataset regime ≡ plan native dataset regime'
    → regime ≡ regime'
plan_apart study dataset regime regime' known native e f m m' same =
    let told : All (λ r. regime_for dataset (plan native dataset r) ≡ r) known =
      subst (Tells dataset known) f (Tells-regimes_of study dataset known e) in
    let tell : (r : Text) → among r known ≡ true → regime_for dataset (plan native dataset r) ≡ r =
      λ r. among-All (λ r. regime_for dataset (plan native dataset r) ≡ r) r known told in
    sym (tell regime m) ∙ (ap (regime_for dataset) same ∙ tell regime' m')

module _ {Records Result : Type 0} (splitter : Splitter Records Result) where
  any_zero-All : (ns : List ℕ) → any_zero ns ≡ false → All (λ n. n ≢ 0) ns
  unfolding any_zero
  any_zero-All [] e = tt
  any_zero-All (n ∷ ns) e = (ground arith, any_zero-All ns (ground arith))

  pub audited_checked :
      (found result : Result)
      → audited splitter found ≡ returned result
      → (found ≡ result)
        × (splitter.leaks result ≡ false)
        × All (λ n. n ≢ 0) (splitter.counts result)
  unfolding audited
  audited_checked found result e = elim (Bool-cases (splitter.leaks found)) [
    | inl leaky ↦
        let bad : ◌≡◌ {A = Outcome Result} (raised leakage) (returned result) = rw (leaky) at e in
        cc
    | inr tight ↦ elim (Bool-cases (any_zero (splitter.counts found))) [
      | inl empty ↦
          let bad : ◌≡◌ {A = Outcome Result} (raised empty_partition) (returned result) =
            rw (tight, empty) at e in
          cc
      | inr full ↦
          let good : ◌≡◌ {A = Outcome Result} (returned found) (returned result) =
            rw (tight, full) at e in
          let same : found ≡ result = cc in
          (
            same,
            (subst (λ r. splitter.leaks r ≡ false) same tight),
            subst (λ r. All (λ n. n ≢ 0) (splitter.counts r)) same
                (any_zero-All (splitter.counts found) full),
          )
    ]
  ]

  -- When `split_protocol` returns, the regime is one of the study's for the dataset, and the result is
  -- the splitter's for the regime's plan, in which the audit finds no leakage and no partition is
  -- empty.
  pub split_protocol_checked :
      (records : Records) (dataset regime : Text) (seed : ℕ) (study : Text) (result : Result)
      → split_protocol splitter records dataset regime seed study ≡ returned result
      → (known native : List Text) × (regimes_of study dataset ≡ some known)
        × (find dataset original ≡ some native)
        × (among regime known ≡ true)
        × (split_by splitter records dataset seed (plan native dataset regime) ≡ returned result)
        × (splitter.leaks result ≡ false)
        × All (λ n. n ≢ 0) (splitter.counts result)
  unfolding split_protocol split_by
  split_protocol_checked records dataset regime seed study result e =
      checked (regimes_of study dataset) (find dataset original) refl refl e
    where
      checked :
          (k n : Option (List Text))
          → regimes_of study dataset ≡ k
          → find dataset original ≡ n
          → split_known splitter records dataset regime seed k n ≡ returned result
          → (known native : List Text) × (regimes_of study dataset ≡ some known)
            × (find dataset original ≡ some native)
            × (among regime known ≡ true)
            × (split_by splitter records dataset seed (plan native dataset regime)
                ≡ returned result)
            × (splitter.leaks result ≡ false)
            × All (λ n. n ≢ 0) (splitter.counts result)
      checked none n p q e = cc
      checked (some known) none p q e = cc
      checked (some known) (some native) p q e = elim (Bool-cases (among regime known)) [
        | inl part ↦
            let done : split_by splitter records dataset seed (plan native dataset regime)
                ≡ returned result =
              rw (part) at e in
            let audit = audited_checked _ result done in
            (known, native, p, q, part, done, audit.1, audit.2)
        | inr other ↦
            let bad : ◌≡◌ {A = Outcome Result} (raised not_part) (returned result) =
              rw (other) at e in
            cc
      ]
