-- ===== src/Study/Records.antt =====
-- `load_records` of examples/heterosplit/protocols.py. The loaders of `heterosplit` are named by
-- what they are called with; `int` of a text and the month of a timestamp are parameters.
use mathlib.Core.Path.{subst}
use rungrid.Common.{
  ℕ, ◌≡◌, ◌≢◌, refl, ap, Bool, true, false, ◌&&◌, ◌||◌, inl, inr, Bool-cases, Option, none, some,
  List, [], ◌∷◌, map, take, ◌==◌, if◌then◌else◌, Text, codes, text_eq, All, arith,
}
use rungrid.Study.Protocols.{among, drug_comb, original_v1, regimes_of}

pub record Row : Type 0 where
  pub user_id : Text
  pub movie_id : Text
  pub timestamp : Text

pub record Columns : Type 0 where
  pub user : List Text
  pub movie : List Text
  pub rating_month : List Text
  pub timestamps : List ℕ

pub data LoadError : Type 0 where
  unknown_dataset max_rows_not_positive missing_column missing_endpoint bad_timestamp : LoadError

-- What `load_records` returns: the records of a loader of `heterosplit`, at most so many, or those
-- of `PredictionRecords.from_columns`.
pub data Loaded : Type 0 where
  load_drugcomb_csv load_movielens_csv : ℕ → Loaded
  from_columns : Columns → Loaded

pub data Load (A : Type 0) : Type 0 where
  failed : LoadError → Load A
  loaded : A → Load A

-- `{...} <= set(fieldnames)`
unfoldable pub has_fields : List Text → Bool
unfolding among
has_fields fields =
    among (codes "userId") fields
    && (among (codes "movieId") fields
        && (among (codes "rating") fields && among (codes "timestamp") fields))

abbrev pub is_empty : Text → Bool
is_empty [] = true
is_empty (c ∷ s) = false

module _ (int : Text → Option ℕ) (month : ℕ → Text) where
  abbrev pub put_row : Row → ℕ → Load Columns → Load Columns
  put_row r t (failed e) = failed e
  put_row r t (loaded c) = loaded record {
    user = r.user_id ∷ c.user;
    movie = r.movie_id ∷ c.movie;
    rating_month = month t ∷ c.rating_month;
    timestamps = t ∷ c.timestamps;
  }

  -- One turn of the loop, before the rows after it.
  abbrev pub read_row : Row → Option ℕ → Load Columns → Load Columns
  read_row r none rest = failed bad_timestamp
  read_row r (some t) rest =
      if is_empty r.user_id || is_empty r.movie_id
      then failed missing_endpoint
      else put_row r t rest

  unfoldable pub read_rows : List Row → Load Columns
  read_rows [] = loaded record { user = []; movie = []; rating_month = []; timestamps = [] }
  read_rows (r ∷ rs) = read_row r (int r.timestamp) (read_rows rs)

  abbrev pub as_records : Load Columns → Load Loaded
  as_records (failed e) = failed e
  as_records (loaded c) = loaded (from_columns c)

  unfoldable pub load_movies : ℕ → List Text → List Row → Load Loaded
  unfolding read_rows has_fields
  load_movies max_rows fields rows =
      if has_fields fields
      then as_records (read_rows (take max_rows rows))
      else failed missing_column

  abbrev pub load_known : Text → ℕ → Text → List Text → List Row → Option (List Text) → Load Loaded
  load_known dataset max_rows study fields rows none = failed unknown_dataset
  load_known dataset max_rows study fields rows (some known) =
      if max_rows == 0
      then failed max_rows_not_positive
      else if text_eq dataset drug_comb
      then loaded (load_drugcomb_csv max_rows)
      else if text_eq study original_v1
      then loaded (load_movielens_csv max_rows)
      else load_movies max_rows fields rows

  -- The file's header and its rows are given.
  unfoldable pub load_records : Text → ℕ → Text → List Text → List Row → Load Loaded
  unfolding regimes_of load_movies
  load_records dataset max_rows study fields rows =
      load_known dataset max_rows study fields rows (regimes_of study dataset)

  -- The columns hold the rows: all of them, in their order, each with both endpoints.
  pub record Holds (rs : List Row) (c : Columns) : Type 0 where
    pub users : c.user ≡ map (λ r. r.user_id) rs
    pub movies : c.movie ≡ map (λ r. r.movie_id) rs
    pub times : map (λ r. int r.timestamp) rs ≡ map some c.timestamps
    pub months : c.rating_month ≡ map month c.timestamps
    pub endpoints : All (λ r. (r.user_id ≢ []) × (r.movie_id ≢ [])) rs

  is_empty_sound : (s : Text) → is_empty s ≡ false → s ≢ []
  is_empty_sound [] e = cc
  is_empty_sound (c ∷ s) e = λ same. cc

  pub read_rows-Holds : (rs : List Row) (c : Columns) → read_rows rs ≡ loaded c → Holds rs c
  unfolding read_rows
  read_rows-Holds [] c e =
      let same : ◌≡◌ {A = Columns}
          record { user = []; movie = []; rating_month = []; timestamps = [] } c =
        cc in
      subst (Holds []) same
        (record { users = refl; movies = refl; times = refl; months = refl; endpoints = tt })
  read_rows-Holds (r ∷ rs) c e =
      row (λ d q. read_rows-Holds rs d q) (int r.timestamp) refl (read_rows rs) refl e
    where
      row :
          ((d : Columns) → read_rows rs ≡ loaded d → Holds rs d)
          → (t : Option ℕ) → int r.timestamp ≡ t
          → (rest : Load Columns) → read_rows rs ≡ rest
          → read_row r t rest ≡ loaded c
          → Holds (r ∷ rs) c
      row after none p rest q f = cc
      row after (some t) p rest q f =
          elim (Bool-cases (is_empty r.user_id || is_empty r.movie_id)) [
            | inl missing ↦
                let bad : ◌≡◌ {A = Load Columns} (failed missing_endpoint) (loaded c) =
                  rw (missing) at f in
                cc
            | inr present ↦ ends after t p rest q (rw (present) at f) (ground arith) (ground arith)
          ]
        where
          ends :
              ((d : Columns) → read_rows rs ≡ loaded d → Holds rs d)
              → (t : ℕ) → int r.timestamp ≡ some t
              → (rest : Load Columns) → read_rows rs ≡ rest
              → put_row r t rest ≡ loaded c
              → is_empty r.user_id ≡ false
              → is_empty r.movie_id ≡ false
              → Holds (r ∷ rs) c
          ends after t p (failed x) q f u v = cc
          ends after t p (loaded d) q f u v =
              let h = after d q in
              let same : ◌≡◌ {A = Columns}
                  record {
                    user = r.user_id ∷ d.user;
                    movie = r.movie_id ∷ d.movie;
                    rating_month = month t ∷ d.rating_month;
                    timestamps = t ∷ d.timestamps;
                  }
                  c =
                cc in
              subst (Holds (r ∷ rs)) same (record {
                users = ap (λ l. r.user_id ∷ l) h.users;
                movies = ap (λ l. r.movie_id ∷ l) h.movies;
                times = (λ i. p i ∷ h.times i);
                months = ap (λ l. month t ∷ l) h.months;
                endpoints =
                    ((is_empty_sound r.user_id u, is_empty_sound r.movie_id v), h.endpoints);
              })
