-- ===== src/Sync/Ipc/Options/Origins.antt =====
-- What the options of a session that packages/typescript/src/sync/ipc.ts returns hold.
use ja3proxy.Base.{
  ℕ, ◌≤◌, ◌≡◌, refl, subst, inl, inr, true, ◌&&◌, String, str_eq, List, [], ◌∷◌, Option, none, some,
  leb, length, arith, Bool-cases,
}
use ja3proxy.Platform.{Url}
use ja3proxy.Errors.{returned}
use ja3proxy.Wire.Value.{
  Value, lookup, is_undefined, has_string, equals_one, array, Elements, no_elements, element,
  count_items,
}
use ja3proxy.Protocol.Payloads.Patterns.{max_safe_integer}
use ja3proxy.Sync.Ipc.{object_of, keys, text, url, web_url, max_timeout_ms, max_metadata_bytes}
use ja3proxy.Sync.Ipc.Config.Bounds.{
  Returns, Yields, bind-Yields, give-Yields, OptionalRange, optional_integer-Range, anything,
}
use ja3proxy.Sync.Ipc.Requests.{connection}
use ja3proxy.Sync.Ipc.Requests.Limits.{accepted}
use ja3proxy.Sync.Ipc.Options.{
  CookieMode, managed, external, SessionOptions, urls, listed, origins_of, some_origins,
  the_origins, mode_of, session_options,
}

module _ (parse : String → Option Url) where
  -- The text is the normal form of a URL of the web that names no user.
  pub record IsWeb (s : String) : Type 0 where
    pub source : String
    pub parsed : Url
    pub parses : parse source ≡ some parsed
    pub scheme : has_string ("http" ∷ "https" ∷ []) parsed.protocol ≡ true
    pub no_user : str_eq parsed.username "" ≡ true
    pub no_password : str_eq parsed.password "" ≡ true
    pub normal : s ≡ parsed.href

  pub data AllWeb : List String → Type 0 where
    no_urls : AllWeb []
    more_urls : {u : String} {us : List String} → IsWeb u → AllWeb us → AllWeb (u ∷ us)

  pub record Origins (us : List String) : Type 0 where
    pub web : AllWeb us
    pub few : length us ≤ 4096

  abbrev pub GoodOrigins : Option (List String) → Type 0
  GoodOrigins none = Unit {0}
  GoodOrigins (some us) = Origins us

  abbrev pub GoodMode : CookieMode → Type 0
  GoodMode (managed us) = Origins us × (1 ≤ length us)
  GoodMode (external o) = GoodOrigins o

  pub record IsValid (o : SessionOptions) : Type 0 where
    pub mode : GoodMode o.cookie_mode
    pub ttl : OptionalRange 1 max_timeout_ms o.ttl_ms
    pub timeout : OptionalRange 1 max_timeout_ms o.timeout_ms
    pub response : OptionalRange 1 max_safe_integer o.max_response_bytes

  web_url-IsWeb : (s : String) (o : Option Url) → parse s ≡ o → Yields IsWeb (web_url o)
  unfolding web_url
  web_url-IsWeb s none h = record { holds = tt }
  web_url-IsWeb s (some u) h =
      elim (Bool-cases (
        has_string ("http" ∷ "https" ∷ []) u.protocol
        && str_eq u.username ""
        && str_eq u.password "")) [
          | inl fine ↦ rw fine (record {
            holds = record {
              source = s;
              parsed = u;
              parses = h;
              scheme = ground (arith, fine);
              no_user = ground (arith, fine);
              no_password = ground (arith, fine);
              normal = refl;
            };
          })
          | inr bad ↦ rw bad (record { holds = tt })
        ]

  url-IsWeb : (v : Value) → Yields IsWeb (url parse v)
  unfolding url
  url-IsWeb v =
      bind-Yields _ (anything (text v max_metadata_bytes)) λ s u. web_url-IsWeb s (parse s) refl

  record Mapped (n : ℕ) (us : List String) : Type 0 where
    web : AllWeb us
    same : length us ≡ n

  urls-Mapped : (vs : Elements) → Yields (Mapped (count_items vs)) (urls parse vs)
  unfolding urls count_items
  urls-Mapped no_elements = give-Yields (record { web = no_urls; same = refl })
  urls-Mapped (element v vs) = bind-Yields _ (url-IsWeb v) λ u web.
      bind-Yields _ (urls-Mapped vs)
        λ us m. give-Yields (record { web = more_urls web m.web; same = ground (arith, m.same) })

  few_of : {n : ℕ} {us : List String} → Mapped n us → leb n 4096 ≡ true → Origins us
  few_of m small = record { web = m.web; few = ground (arith, m.same, small) }

  listed-GoodOrigins : (v : Value) → Yields GoodOrigins (listed parse v)
  unfolding listed
  listed-GoodOrigins (array vs) =
      bind-Yields _ (accepted (leb (count_items vs) 4096))
        λ t small. bind-Yields _ (urls-Mapped vs) λ us m. give-Yields (few_of m small)
  listed-GoodOrigins v = record { holds = tt }

  origins_of-GoodOrigins : (v : Value) → Yields GoodOrigins (origins_of parse v)
  unfolding origins_of
  origins_of-GoodOrigins v = elim (Bool-cases (is_undefined v)) [
    | inl missing ↦ rw missing (record { holds = tt })
    | inr given ↦ rw given (listed-GoodOrigins v)
  ]

  managed-GoodMode :
      (o : Option (List String))
      → GoodOrigins o
      → some_origins o ≡ true
      → GoodMode (managed (the_origins o))
  managed-GoodMode none good h = absurd (ground arith)
  managed-GoodMode (some []) good h = absurd (ground arith)
  managed-GoodMode (some (u ∷ us)) good h = (good, omega arith)

  mode_of-GoodMode :
      (mode : Value) (o : Option (List String)) → GoodOrigins o → Yields GoodMode (mode_of mode o)
  unfolding mode_of
  mode_of-GoodMode mode o good =
      elim (Bool-cases (equals_one ("managed" ∷ []) mode && some_origins o)) [
        | inl yields ↦ rw yields (give-Yields (managed-GoodMode o good (ground (arith, yields))))
        | inr other ↦ elim (Bool-cases (equals_one ("external" ∷ []) mode)) [
          | inl so ↦ rw (other, so) (give-Yields good)
          | inr bad ↦ rw (other, bad) (record { holds = tt })
        ]
      ]

  -- The options of a session that `sessionOptions` returns have at most 4096 origins, each of them the
  -- normal form of an http or https URL without a user or a password, and at least one if the cookies
  -- are managed; the numbers, if any, lie within their ranges.
  pub session_options-IsValid :
      (v : Value) {o : SessionOptions} → session_options parse v ≡ returned o → IsValid o
  unfolding session_options
  session_options-IsValid v {o} h =
      let held : Yields IsValid (session_options parse v) =
        bind-Yields _ (anything (object_of v)) λ fs u. bind-Yields _ (anything (keys fs _)) λ t u.
          bind-Yields _ (origins_of-GoodOrigins (lookup "allowedOrigins" fs)) λ origins good.
            bind-Yields _ (anything (text (lookup "partition" fs) 1024)) λ partition u.
              bind-Yields _ (anything (connection (lookup "connection" fs))) λ spec u.
                bind-Yields _ (optional_integer-Range (lookup "ttlMs" fs) max_timeout_ms) λ ttl hl.
                  bind-Yields _ (optional_integer-Range (lookup "timeoutMs" fs) max_timeout_ms)
                    λ timeout ht.
                      bind-Yields _
                        (optional_integer-Range (lookup "maxResponseBytes" fs) max_safe_integer)
                        λ maximum hm.
                          bind-Yields _ (mode_of-GoodMode (lookup "cookieMode" fs) origins good)
                            λ mode fine.
                              give-Yields
                                (record { mode = fine; ttl = hl; timeout = ht; response = hm }) in
      subst (Returns IsValid) h held.holds
