-- ===== src/Base/Text.antt =====
-- Go strings as the program walks them: lists of bytes. `strings.HasPrefix`, `strings.TrimPrefix`,
-- and the slash-separated paths of `path.Base`, `filepath.Clean` and `filepath.Dir`.
mod Prefix
mod Paths
unfoldable pub use Prefix.*
unfoldable pub use Paths.*
