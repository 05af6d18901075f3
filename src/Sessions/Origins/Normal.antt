-- ===== src/Sessions/Origins/Normal.antt =====
-- The set of origins that normalizedOrigins of packages/typescript/src/sessions.ts returns.
use ja3proxy.Base.{
  ◌≡◌, ◌⊎◌, some, none, refl, subst, inl, inr, Bool, true, false, ◌||◌, ◌&&◌, String, str_eq,
  eq_iff, List, [], ◌∷◌, ◌++◌, Option, arith, Bool-cases,
}
use ja3proxy.Platform.{Url}
use ja3proxy.Errors.{Outcome, returned, threw}
use ja3proxy.Wire.Value.{has_string}
use ja3proxy.Sessions.{add}
use ja3proxy.Sessions.Run.Accounts.{has_string-add, has_string-add_self, has_string-append}
use ja3proxy.Sessions.Origins.{
  is_origin, parsed_origin, prepend, mapped, collect, unique, is_empty, normalized_origins,
}

abbrev pub Distinct : List String → Type 0
Distinct [] = Unit {0}
Distinct (u ∷ us) = (has_string us u ≡ false) × Distinct us

Distinct-append :
    (u : String) (us : List String)
    → has_string us u ≡ false
    → Distinct us
    → Distinct (us ++ u ∷ [])
Distinct-append u [] new d = (refl, tt)
Distinct-append u (v ∷ us) new d = (
  ground (arith, has_string-append us (u ∷ []) v, new, d.0, eq_iff u v, eq_iff v u),
  Distinct-append u us (ground (arith, new)) d.1,
)

Distinct-add : (u : String) (us : List String) → Distinct us → Distinct (add u us)
unfolding add
Distinct-add u us d = elim (Bool-cases (has_string us u)) [
  | inl there ↦ rw there d
  | inr new ↦ rw new (Distinct-append u us new d)
]

collect-Distinct : (seen us : List String) → Distinct seen → Distinct (collect seen us)
unfolding collect
collect-Distinct seen [] d = d
collect-Distinct seen (u ∷ us) d = collect-Distinct (add u seen) us (Distinct-add u seen d)

collect_keeps :
    (seen us : List String) (v : String)
    → has_string seen v ≡ true
    → has_string (collect seen us) v ≡ true
unfolding collect
collect_keeps seen [] v h = h
collect_keeps seen (u ∷ us) v h = collect_keeps (add u seen) us v (has_string-add u v seen h)

collect_all :
    (seen us : List String) (v : String)
    → has_string us v ≡ true
    → has_string (collect seen us) v ≡ true
unfolding collect
collect_all seen [] v h = absurd (ground arith)
collect_all seen (u ∷ us) v h = elim (Bool-cases (str_eq v u)) [
  | inl same ↦
      collect_keeps (add u seen) us v (ground (arith, same, eq_iff v u, has_string-add_self u seen))
  | inr other ↦ collect_all (add u seen) us v (ground (arith, other))
]

add_from :
    (u v : String) (seen : List String)
    → has_string (add u seen) v ≡ true
    → has_string seen v || str_eq v u ≡ true
unfolding add
add_from u v seen h = ground (arith, has_string-append seen (u ∷ []) v)

collect_from :
    (seen us : List String) (v : String)
    → has_string (collect seen us) v ≡ true
    → has_string seen v || has_string us v ≡ true
unfolding collect
collect_from seen [] v h = ground (arith, h)
collect_from seen (u ∷ us) v h = ground (arith, collect_from (add u seen) us v h, add_from u v seen)

-- The text is a URL of http or https without a user, a password, a query, a fragment and a path, and
-- `u` is its origin.
pub record IsOriginOf (parse : String → Option Url) (s u : String) : Type 0 where
  pub parsed : Url
  pub parses : parse s ≡ some parsed
  pub scheme : (parsed.protocol ≡ "http") ⊎ (parsed.protocol ≡ "https")
  pub no_user : parsed.username ≡ ""
  pub no_password : parsed.password ≡ ""
  pub no_query : parsed.search ≡ ""
  pub no_fragment : parsed.hash ≡ ""
  pub no_path : parsed.pathname ≡ "/"
  pub value : u ≡ parsed.origin

scheme_of :
    (p : String) → has_string ("http" ∷ "https" ∷ []) p ≡ true → (p ≡ "http") ⊎ (p ≡ "https")
scheme_of p h = elim (Bool-cases (str_eq p "http")) [
  | inl plain ↦ inl (ground (arith, plain, eq_iff p "http"))
  | inr other ↦ inr (ground (arith, other, h, eq_iff p "https"))
]

found-IsOriginOf :
    (parse : String → Option Url) (s u : String) (p : Url)
    → parse s ≡ some p
    → is_origin p ≡ true
    → u ≡ p.origin
    → IsOriginOf parse s u
found-IsOriginOf parse s u p parses fine value = record {
  parsed = p;
  parses = parses;
  scheme = scheme_of p.protocol (ground (arith, fine));
  no_user = ground (arith, fine, eq_iff p.username "");
  no_password = ground (arith, fine, eq_iff p.password "");
  no_query = ground (arith, fine, eq_iff p.search "");
  no_fragment = ground (arith, fine, eq_iff p.hash "");
  no_path = ground (arith, fine, eq_iff p.pathname "/");
  value = value;
}

parsed_origin-IsOriginOf :
    (parse : String → Option Url) (s u : String) (o : Option Url)
    → parse s ≡ o
    → parsed_origin o ≡ returned u
    → IsOriginOf parse s u
unfolding parsed_origin
parsed_origin-IsOriginOf parse s u none parses h = absurd (ground arith)
parsed_origin-IsOriginOf parse s u (some p) parses h = elim (Bool-cases (is_origin p)) [
  | inl fine ↦ found-IsOriginOf parse s u p parses fine (ground (arith, h, fine))
  | inr bad ↦ absurd (ground (arith, h, bad))
]

data Maps (parse : String → Option Url) : List String → List String → Type 0 where
  no_texts : Maps parse [] []
  more_texts :
      {s u : String} {ss us : List String}
      → IsOriginOf parse s u
      → Maps parse ss us
      → Maps parse (s ∷ ss) (u ∷ us)

prepend-Maps :
    (parse : String → Option Url) (s : String) (ss : List String) (o : Outcome String)
    (rest : Outcome (List String)) {us : List String}
    → parsed_origin (parse s) ≡ o
    → ((vs : List String) → rest ≡ returned vs → Maps parse ss vs)
    → prepend o rest ≡ returned us
    → Maps parse (s ∷ ss) us
unfolding prepend
prepend-Maps parse s ss (threw e) rest is ih h = absurd (ground arith)
prepend-Maps parse s ss (returned u) (threw e) is ih h = absurd (ground arith)
prepend-Maps parse s ss (returned u) (returned vs) {us} is ih h =
    subst (Maps parse (s ∷ ss)) (ground (arith, h))
      (more_texts (parsed_origin-IsOriginOf parse s u (parse s) refl is) (ih vs refl))

mapped-Maps :
    (parse : String → Option Url) (ss us : List String)
    → mapped parse ss ≡ returned us
    → Maps parse ss us
unfolding mapped
mapped-Maps parse [] us h = subst (Maps parse []) (ground (arith, h)) no_texts
mapped-Maps parse (s ∷ ss) us h =
    prepend-Maps parse s ss (parsed_origin (parse s)) (mapped parse ss) refl (mapped-Maps parse ss)
      h

-- A listed text with the origin.
pub record Source (parse : String → Option Url) (texts : List String) (u : String) : Type 0 where
  pub text : String
  pub listed : has_string texts text ≡ true
  pub origin : IsOriginOf parse text u

-- The origin of a text, among those returned.
pub record Origin (parse : String → Option Url) (us : List String) (text : String) : Type 0 where
  pub value : String
  pub returned : has_string us value ≡ true
  pub origin : IsOriginOf parse text value

pub record IsNormal (parse : String → Option Url) (texts us : List String) : Type 0 where
  pub distinct : Distinct us
  pub sound : (u : String) → has_string us u ≡ true → Source parse texts u
  pub complete : (s : String) → has_string texts s ≡ true → Origin parse us s

Maps-Source :
    (parse : String → Option Url) {ss us : List String}
    → Maps parse ss us
    → (u : String) → has_string us u ≡ true
    → Source parse ss u
Maps-Source parse no_texts u h = absurd (ground arith)
Maps-Source parse (more_texts {s} {u = v} {ss} {us} is rest) u h = elim (Bool-cases (str_eq u v)) [
  | inl same ↦ record {
    text = s;
    listed = ground (arith, eq_iff s s);
    origin = subst (IsOriginOf parse s) (ground (arith, same, eq_iff u v)) is;
  }
  | inr other ↦
      let found = Maps-Source parse rest u (ground (arith, h, other)) in
      record { text = found.text; listed = ground (arith, found.listed); origin = found.origin }
]

Maps-Origin :
    (parse : String → Option Url) {ss us : List String}
    → Maps parse ss us
    → (s : String) → has_string ss s ≡ true
    → Origin parse us s
Maps-Origin parse no_texts s h = absurd (ground arith)
Maps-Origin parse (more_texts {s = t} {u} {ss} {us} is rest) s h = elim (Bool-cases (str_eq s t)) [
  | inl same ↦ record {
    value = u;
    returned = ground (arith, eq_iff u u);
    origin = subst (λ x. IsOriginOf parse x u) (ground (arith, same, eq_iff s t)) is;
  }
  | inr other ↦
      let found = Maps-Origin parse rest s (ground (arith, h, other)) in
      record {
        value = found.value;
        returned = ground (arith, found.returned);
        origin = found.origin;
      }
]

unique-IsNormal :
    (parse : String → Option Url) (texts : List String) (o : Outcome (List String))
    {us : List String}
    → mapped parse texts ≡ o
    → unique o ≡ returned us
    → IsNormal parse texts us
unfolding unique
unique-IsNormal parse texts (threw e) is h = absurd (ground arith)
unique-IsNormal parse texts (returned vs) {us} is h =
    let maps = mapped-Maps parse texts vs is in
    subst (IsNormal parse texts) (ground (arith, h)) (record {
      distinct = collect-Distinct [] vs tt;
      sound = λ u found. Maps-Source parse maps u (collect_from [] vs u found);
      complete = λ s found.
          let o = Maps-Origin parse maps s found in
          record {
            value = o.value;
            returned = collect_all [] vs o.value o.returned;
            origin = o.origin;
          };
    })

-- The origins that normalizedOrigins returns are distinct; each of them is the origin of a text of the
-- list, which is an http or https URL without user, password, path, query and fragment; and every text
-- of the list is such a URL, whose origin is among them. For managed cookies the list is not empty.
pub normalized_origins-IsNormal :
    (parse : String → Option Url) (texts : List String) (managed : Bool) {us : List String}
    → normalized_origins parse texts managed ≡ returned us
    → IsNormal parse texts us × (managed && is_empty texts ≡ false)
unfolding normalized_origins
normalized_origins-IsNormal parse texts managed h = elim (Bool-cases (managed && is_empty texts)) [
  | inl bad ↦ absurd (ground (arith, bad))
  | inr fine ↦ (unique-IsNormal parse texts (mapped parse texts) refl (ground (arith, fine)), fine)
]
