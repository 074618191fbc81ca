-- ===== src/Server/Path.antt =====
-- crates/netfilum-server/src/path.rs: `normalize_relative_path`.
pub mod Spec
pub mod Laws
use netfilum.Prelude.{List, [], ◌∷◌, ◌++◌, if◌then◌else◌}
use netfilum.Prelude.Texts.{Text, codes, replace_byte}
use netfilum.Prelude.Results.{Result, ok, err}
use netfilum.Paths.{Component, prefix, root_dir, cur_dir, parent_dir, normal, PathBuf}
use netfilum.Paths.{components, is_absolute}

-- The loop over the components, with the path built so far.
unfoldable pub clean_components : PathBuf → List Component → Result Text PathBuf
clean_components clean [] = ok clean
clean_components clean (cur_dir ∷ rest) = clean_components clean rest
clean_components clean (normal part ∷ rest) = clean_components (clean ++ (normal part ∷ [])) rest
clean_components clean (parent_dir ∷ rest) = err (codes "path traversal is not allowed")
clean_components clean (root_dir ∷ rest) = err (codes "absolute paths are not allowed")
clean_components clean (prefix _ ∷ rest) = err (codes "absolute paths are not allowed")

unfoldable pub normalize_relative_path : Text → Result Text PathBuf
unfolding clean_components components is_absolute
normalize_relative_path raw =
    let raw_path = components (replace_byte b'\\' b'/' raw) in
    if is_absolute raw_path
    then err (codes "absolute paths are not allowed")
    else clean_components [] raw_path
