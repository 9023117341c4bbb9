-- ===== src/Storage/Paths.antt =====
-- `chain_db_dir` of `crates/storage/src/store.rs`. A path is its parent and its file name.
use kanari_evm.Prelude.{Option, none, some, [], ◌∷◌, ◌++◌, ◌==◌, if◌then◌else◌}
use kanari_evm.Types.Text.{Text}
use kanari_evm.Storage.Keys.{codes}

-- The file name is none where the path ends in `..` or the name is not UTF-8.
pub record StatePath : Type 0 where
  pub parent : Option Text
  pub file_name : Option Text

-- The first piece of `split('.')`.
unfoldable pub stem : Text → Text
stem [] = []
stem (c ∷ name) = let rest = stem name in if c == b'.' then [] else c ∷ rest

abbrev pub base_name : Option Text → Text
base_name none = codes "kanari-evm-state"
base_name (some name) = name

unfoldable pub chain_db_name : Option Text → Text
unfolding stem
chain_db_name file_name = stem (base_name file_name) ++ codes ".chain.db"

abbrev pub parent_of : Option Text → Text
parent_of none = codes "."
parent_of (some parent) = parent

-- The directory in which the database lies, and its name there.
abbrev pub chain_db_dir : StatePath → Text × Text
chain_db_dir base = (parent_of base.parent, chain_db_name base.file_name)
