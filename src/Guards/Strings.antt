-- ===== src/Guards/Strings.antt =====
-- `extractBearerToken` of src/auth/guards/jwt-auth.guard.ts.
use Prim.Native.Char.{code}
use Prim.Native.String.{String, [], ◌∷◌}
use conference_contact.Prelude.{Option, none, some, ◌==◌, if◌then◌else◌}

-- `header.startsWith(prefix) ? header.slice(prefix.length) : null`
unfoldable pub strip_prefix : String → String → Option String
strip_prefix [] s = some s
strip_prefix (c ∷ p) [] = none
strip_prefix (c ∷ p) (d ∷ s) = if code c == code d then strip_prefix p s else none

-- An empty token is falsy, so the caller takes it for a missing one.
non_empty : Option String → Option String
non_empty none = none
non_empty (some []) = none
non_empty (some (c ∷ s)) = some (c ∷ s)

unfoldable pub extract_bearer_token : Option String → Option String
unfolding strip_prefix non_empty
extract_bearer_token none = none
extract_bearer_token (some header) = non_empty (strip_prefix "Bearer " header)
