-- ===== src/Study/Loading.antt =====
-- What `load_records` of examples/heterosplit/protocols.py returns for the ratings that it reads itself.
use rungrid.Common.{ℕ, ◌≡◌, ◌≤◌, true, Option, List, take, length, Text}
use rungrid.Study.Records.{Row, Columns, has_fields, Holds}

module _ (int : Text → Option ℕ) (month : ℕ → Text) (max_rows : ℕ) (fields : List Text)
    (rows : List Row) (c : Columns) where
  abbrev FromRows : Type 0
  FromRows =
      (has_fields fields ≡ true)
      × (length c.user ≤ max_rows)
      × Holds int month (take max_rows rows) c
