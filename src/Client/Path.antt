-- ===== src/Client/Path.antt =====
-- crates/netfilum-client/src/path.rs: `windows_path_to_wsl`, and `nt_path_to_relative` of
-- crates/netfilum-client/src/mount.rs.
pub mod Laws
use netfilum.Prelude.{
  ℕ, ◌+◌, Bool, true, false, ◌&&◌, ◌||◌, not, List, [], ◌∷◌, ◌++◌, ltb, leb, length, ◌==◌,
  if◌then◌else◌,
}
use netfilum.Prelude.Texts.{Text, codes, replace_byte, trim_start_matches}
use netfilum.Prelude.Results.{Result, ok, err}

-- `u8::to_ascii_lowercase`
abbrev pub to_ascii_lowercase : ℕ → ℕ
to_ascii_lowercase c = if leb b'A' c && leb c b'Z' then c + 32 else c

-- The test on the first bytes: a drive and a colon, with one more byte behind them. Since the text is
-- UTF-8, the byte before the colon is ASCII.
abbrev pub has_drive : Text → Bool
has_drive (drive ∷ colon ∷ c ∷ rest) = colon == b':'
has_drive _ = false

abbrev pub wsl_path : Text → Text
wsl_path (drive ∷ colon ∷ suffix) =
    codes "/mnt/"
    ++ to_ascii_lowercase drive ∷ b'/' ∷ trim_start_matches b'/' (replace_byte b'\\' b'/' suffix)
wsl_path raw = raw

unfoldable pub windows_path_to_wsl : Text → Result Text Text
windows_path_to_wsl raw =
    if has_drive raw then ok (wsl_path raw) else err (codes "unsupported Windows path: " ++ raw)

-- The file name is given as its text (`to_string_lossy`).
unfoldable pub nt_path_to_relative : Text → Text
nt_path_to_relative file_name = trim_start_matches b'/' (replace_byte b'\\' b'/' file_name)
