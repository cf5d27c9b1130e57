-- ===== src/Client/Paths.antt =====
-- os.path.join and os.path.basename on POSIX, and the two files of a user that client/client.py and
-- client/trust_store.py name.
use crypto_project.Base.{
  ℕ, Bool, true, false, [], ◌∷◌, ◌++◌, Option, none, some, ◌==◌, if◌then◌else◌,
}
use crypto_project.Text.{Text, codes}

unfoldable pub starts_with_slash : Text → Bool
starts_with_slash [] = false
starts_with_slash (c ∷ s) = c == b'/'

unfoldable pub ends_with_slash : Text → Bool
ends_with_slash [] = false
ends_with_slash (c ∷ []) = c == b'/'
ends_with_slash (c ∷ d ∷ s) = ends_with_slash (d ∷ s)

unfoldable pub is_empty : Text → Bool
is_empty [] = true
is_empty (c ∷ s) = false

-- `os.path.join(a, b)`
unfoldable pub join : Text → Text → Text
join a b =
    if starts_with_slash b
    then b
    else if is_empty a
    then b
    else if ends_with_slash a
    then a ++ b
    else a ++ (b'/' ∷ b)

-- What follows the last slash, if there is one.
abbrev after_char : ℕ → Text → Option Text → Option Text
after_char c s (some rest) = some rest
after_char c s none = if c == b'/' then some s else none

unfoldable pub after_slash : Text → Option Text
after_slash [] = none
after_slash (c ∷ s) = after_char c s (after_slash s)

abbrev or_whole : Text → Option Text → Text
or_whole path none = path
or_whole path (some rest) = rest

-- `os.path.basename(path)`
unfoldable pub basename : Text → Text
basename path = or_whole path (after_slash path)

unfoldable pub keystore_path : Text → Text → Text
keystore_path storage_dir username = join storage_dir (username ++ codes "_keys.svks")

-- `self._path` of a TrustStore
unfoldable pub trust_path : Text → Text → Text
trust_path base_dir owner_username = join base_dir (owner_username ++ codes "_trust.json")
