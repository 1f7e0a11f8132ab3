-- ===== src/Sdk/Paths.antt =====
-- What sdk/python/rungrid/checkpoint.py reads from the environment of the command: `output_dir`,
-- `resume_path`, and the directory of `checkpoint`.
use rungrid.Common.{Option, none, some, [], ◌∷◌, Text, codes}

-- The variables of a process, by their names.
abbrev pub Env : Type 0
Env = Text → Option Text

-- Nothing where `os.environ[...]` raises.
abbrev pub output_dir : Env → Option Text
output_dir env = env (codes "RUNGRID_OUTPUT_DIR")

abbrev pub checkpoint_dir : Env → Option Text
checkpoint_dir env = env (codes "RUNGRID_CHECKPOINT_DIR")

abbrev pub path_in : Option Text → Option Text
path_in none = none
path_in (some []) = none
path_in (some (c ∷ path)) = some (c ∷ path)

unfoldable pub resume_path : Env → Option Text
resume_path env = path_in (env (codes "RUNGRID_CHECKPOINT_PATH"))
