-- ===== src/Diagnostics/Log/Shown.antt =====
-- What the log shows of an attempt: header names in their order, and nothing that is secret.
use stripelink.Prelude.{
  ℕ, String, ◌≡◌, refl, ap, ◌∙◌, sym, inl, inr, Bool, Bool-cases, true, false, Option, none, some,
  is_some, List, [], ◌∷◌, codes, ◌==◌, if◌then◌else◌, All, arith,
}
use stripelink.Errors.{Err}
use stripelink.World.{HttpRequest, Exchange, Stream, answered, failed}
use stripelink.Transport.{read_bounded}
use stripelink.Client.{BaseUrl, ClientNet}
use stripelink.Diagnostics.ErrorText.Hidden.{SamePlace, sanitize_url_for_log-SamePlace}
use stripelink.Diagnostics.Log.{
  LogRecord, request, request_failed, response, text_le, name_le, insert_name, sorted, names_of,
  sorted_header_names, set_authorization, sent_header, read_length, attempt_log,
}

text_le-total : (s t : List ℕ) → text_le s t ≡ false → text_le t s ≡ true
text_le-total [] t h = cc
text_le-total (c ∷ s) [] h = refl
text_le-total (c ∷ s) (d ∷ t) h = ground (arith, text_le-total s t)

-- The first of the names, if there is one, does not come before `a`.
abbrev Leads : String → List String → Type 0
Leads a [] = Unit
Leads a (b ∷ names) = name_le a b ≡ true

abbrev pub Ascending : List String → Type 0
Ascending [] = Unit
Ascending (a ∷ names) = Leads a names × Ascending names

insert_name-Leads :
    (a b : String) (names : List String)
    → name_le b a ≡ true
    → Leads b names
    → Leads b (insert_name a names)
insert_name-Leads a b [] h l = h
insert_name-Leads a b (c ∷ names) h l = elim (Bool-cases (name_le a c)) [
  | inl e ↦ rw e h
  | inr e ↦ rw e l
]

insert_name-Ascending :
    (a : String) (names : List String) → Ascending names → Ascending (insert_name a names)
insert_name-Ascending a [] h = (tt, tt)
insert_name-Ascending a (b ∷ names) (l, h) = elim (Bool-cases (name_le a b)) [
  | inl e ↦ rw e (e, (l, h))
  | inr e ↦ rw e (
    insert_name-Leads a b names (text_le-total (codes a) (codes b) e) l,
    insert_name-Ascending a names h,
  )
]

sorted-Ascending : (names : List String) → Ascending (sorted names)
sorted-Ascending [] = tt
sorted-Ascending (a ∷ names) = insert_name-Ascending a (sorted names) (sorted-Ascending names)

sorted_header_names-Ascending :
    (header : List (String × String)) → Ascending (sorted_header_names header)
unfolding sorted_header_names
sorted_header_names-Ascending header = sorted-Ascending (names_of header)

sorted_header_names-same :
    (h k : List (String × String))
    → names_of h ≡ names_of k
    → sorted_header_names h ≡ sorted_header_names k
unfolding sorted_header_names
sorted_header_names-same h k e = ap sorted e

-- The names of a header with an Authorization.
abbrev with_authorization : List String → List String
with_authorization [] = "Authorization" ∷ []
with_authorization (a ∷ names) =
    let rest = with_authorization names in if a == "Authorization" then a ∷ names else a ∷ rest

names_of-set_authorization :
    (value : String) (header : List (String × String))
    → names_of (set_authorization value header) ≡ with_authorization (names_of header)
names_of-set_authorization value [] = refl
names_of-set_authorization value ((a, old) ∷ header) = elim (Bool-cases (a == "Authorization")) [
  | inl e ↦ rw e refl
  | inr e ↦ rw e (ap (λ names. a ∷ names) (names_of-set_authorization value header))
]

-- Two requests that differ in the values of their headers, in their bearer tokens and in their bodies.
pub record SameShape (a b : HttpRequest) : Type 0 where
  pub method : a.method ≡ b.method
  pub names : names_of a.header ≡ names_of b.header
  pub bearer : is_some a.bearer ≡ is_some b.bearer

-- Two exchanges that fail, or have answers of one status with as many bytes within the bound.
pub data SameOutcome (maximum : ℕ) : Exchange → Exchange → Type 0 where
  both_failed : (e f : Err) → SameOutcome maximum (failed e) (failed f)
  both_answered :
      (status : ℕ) (body body' : Option Stream)
      → read_length (read_bounded body maximum) ≡ read_length (read_bounded body' maximum)
      → SameOutcome maximum (answered status body) (answered status body')

-- The names that a line has are in order.
abbrev pub IsOrderly : LogRecord → Type 0
IsOrderly (request m u attempt names) = Ascending names
IsOrderly (request_failed m u attempt duration) = Unit
IsOrderly (response m u attempt status duration size names) = Ascending names

sent_header-SameShape :
    (a b : HttpRequest)
    → SameShape a b
    → sorted_header_names (sent_header a) ≡ sorted_header_names (sent_header b)
unfolding sorted_header_names sent_header
sent_header-SameShape a b s = ap sorted (names a.bearer b.bearer s.bearer)
  where
    names :
        (o p : Option String)
        → is_some o ≡ is_some p
        → names_of (elim o [ none ↦ a.header | some value ↦ set_authorization value a.header ])
          ≡ names_of (elim p [ none ↦ b.header | some value ↦ set_authorization value b.header ])
    names none none h = s.names
    names none (some y) h = cc
    names (some x) none h = cc
    names (some x) (some y) h =
        names_of-set_authorization x a.header
        ∙ ap with_authorization s.names
        ∙ sym (names_of-set_authorization y b.header)

module _ (net : ClientNet) (maximum : ℕ) where
  -- The log of an attempt has the names of each header in ascending order, and depends on nothing but the
  -- method, the place of the URL, the names of the headers, whether there is a bearer token, the status
  -- and the length of the body that was read: values of headers, tokens, bodies and causes, and the
  -- user information, the query and the fragment of the URL are not in it.
  pub attempt_log-hides :
      (verbose : Bool) (u v : BaseUrl) (a b : HttpRequest) (attempt duration : ℕ) (x y : Exchange)
      (header header' : List (String × String))
      → SamePlace u v
      → SameShape a b
      → SameOutcome maximum x y
      → names_of header ≡ names_of header'
      → All IsOrderly (attempt_log net maximum verbose u a attempt x duration header)
        × (attempt_log net maximum verbose u a attempt x duration header
            ≡ attempt_log net maximum verbose v b attempt y duration header')
  unfolding attempt_log
  attempt_log-hides false u v a b attempt duration x y header header' p s o names = (tt, refl)
  attempt_log-hides true u v a b attempt duration x y header header' p s (both_failed e f) names = (
    (sorted_header_names-Ascending (sent_header a), (tt, tt)),
    rw (sent_header-SameShape a b s, sanitize_url_for_log-SamePlace net u v p, s.method) refl,
  )
  attempt_log-hides true u v a b attempt duration x y header header' p s
        (both_answered status body body' size) names =
      (
        (sorted_header_names-Ascending (sent_header a), (sorted_header_names-Ascending header, tt)),
        rw
            (
              sent_header-SameShape a b s,
              sanitize_url_for_log-SamePlace net u v p,
              s.method,
              size,
              sorted_header_names-same header header' names,
            )
            refl,
      )
