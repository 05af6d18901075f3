-- ===== src/Sessions/Origins/Tests.antt =====
-- Origins that normalizedOrigins of packages/typescript/src/sessions.ts accepts and refuses, and the
-- theorem at some.
use ja3proxy.Base.{
  ◌≡◌, refl, true, false, ◌&&◌, String, str_eq, [], ◌∷◌, List, Option, some, if◌then◌else◌,
}
use ja3proxy.Platform.{Url}
use ja3proxy.Errors.{returned}
use ja3proxy.Sessions.{add}
use ja3proxy.Sessions.Origins.{
  invalid, parsed_origin, prepend, mapped, collect, unique, is_empty, normalized_origins,
}
use ja3proxy.Sessions.Origins.Normal.{IsNormal, normalized_origins-IsNormal}

-- Two spellings of one origin, and a URL with a path.
abbrev parse : String → Option Url
parse s = some (record {
  href = s;
  origin = "https://h";
  protocol = "https";
  username = "";
  password = "";
  hostname = "h";
  pathname = if str_eq s "https://h/a" then "/a" else "/";
  search = "";
  hash = "";
})

abbrev texts : List String
texts = "https://h" ∷ "https://H:443/" ∷ []

merges : normalized_origins parse texts true ≡ returned ("https://h" ∷ [])
unfolding normalized_origins mapped parsed_origin prepend collect unique add
merges = refl

refuses :
    (normalized_origins parse ("https://h/a" ∷ []) false ≡ invalid)
    × (normalized_origins parse [] true ≡ invalid)
unfolding normalized_origins mapped parsed_origin prepend collect unique add
refuses = (refl, refl)

normalized_origins-IsNormal_example :
    IsNormal parse texts ("https://h" ∷ []) × (true && is_empty texts ≡ false)
normalized_origins-IsNormal_example = normalized_origins-IsNormal parse texts true merges
