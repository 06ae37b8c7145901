-- ===== src/Client/Headers.antt =====
-- What default headers can do to a request: add what it lacks, and nothing that is reserved.
use stripelink.Prelude.{
  String, codes, ◌≡◌, refl, sym, subst, ◌∙◌, inl, inr, Bool-cases, false, ◌||◌, [], ◌∷◌, ◌++◌,
  arith,
}
use mathlib.Core.List.{append_assoc, append-nil}
use stripelink.Errors.{ok}
use stripelink.Client.{
  ClientNet, HttpHeader, is_reserved, breaks_line, set_header, copy_and_validate,
  copy_and_validate_default_headers, header_present, add_default_headers,
}

abbrev pub IsAllowed : String × String → Type 0
IsAllowed (name, value) = (is_reserved name ≡ false) × (breaks_line (codes value) ≡ false)

abbrev pub AllAllowed : HttpHeader → Type 0
AllAllowed [] = Unit
AllAllowed (h ∷ hs) = IsAllowed h × AllAllowed hs

set_header-AllAllowed :
    (name value : String) (hs : HttpHeader)
    → IsAllowed (name, value)
    → AllAllowed hs
    → AllAllowed (set_header name value hs)
unfolding set_header
set_header-AllAllowed name value [] a hs = (a, tt)
set_header-AllAllowed name value ((n, v) ∷ rest) a (b, hs) =
    ground (arith, set_header-AllAllowed name value rest a hs)

copy_and_validate-AllAllowed :
    (net : ClientNet) (copy headers out : HttpHeader)
    → AllAllowed copy
    → copy_and_validate net copy headers ≡ ok out
    → AllAllowed out
unfolding copy_and_validate
copy_and_validate-AllAllowed net copy [] out a h = subst AllAllowed (ground (arith, h)) a
copy_and_validate-AllAllowed net copy ((name, value) ∷ rest) out a h =
    let key = net.canonical_key name in
    copy_and_validate-AllAllowed net (set_header key value copy) rest out
      (set_header-AllAllowed key value copy (ground (arith, h)) a) (ground (arith, h))

module _ (net : ClientNet) where
  -- Headers of names that a header does not have.
  abbrev pub AllLacked : HttpHeader → HttpHeader → Type 0
  AllLacked header [] = Unit
  AllLacked header (h ∷ hs) = (header_present net header h.0 ≡ false) × AllLacked header hs

  header_present-append :
      (xs ys : HttpHeader) (name : String)
      → header_present net (xs ++ ys) name
        ≡ (header_present net xs name || header_present net ys name)
  unfolding header_present
  header_present-append [] ys name = refl
  header_present-append ((n, v) ∷ xs) ys name = ground (arith, header_present-append xs ys name)

  AllLacked-append : (xs ys hs : HttpHeader) → AllLacked (xs ++ ys) hs → AllLacked xs hs
  AllLacked-append xs ys [] l = tt
  AllLacked-append xs ys (h ∷ hs) (l, ls) =
      (ground (arith, l, header_present-append xs ys h.0), AllLacked-append xs ys hs ls)

  -- What is added.
  pub record Added (header out : HttpHeader) : Type 0 where
    pub added : HttpHeader
    pub whole : out ≡ header ++ added
    pub allowed : AllAllowed added
    pub lacked : AllLacked header added

  add_default_headers-Added :
      (header defaults : HttpHeader)
      → AllAllowed defaults
      → Added header (add_default_headers net header defaults)
  unfolding add_default_headers
  add_default_headers-Added header [] a = record {
    added = [];
    whole = sym (append-nil header);
    allowed = tt;
    lacked = tt;
  }
  add_default_headers-Added header ((name, value) ∷ rest) (a, as') =
      elim (Bool-cases (header_present net header name)) [
        | inl there ↦ rw there (add_default_headers-Added header rest as')
        | inr lacks ↦
            let more = add_default_headers-Added (header ++ ((name, value) ∷ [])) rest as' in
            rw lacks (record {
              added = (name, value) ∷ more.added;
              whole = more.whole ∙ append_assoc header ((name, value) ∷ []) more.added;
              allowed = (a, more.allowed);
              lacked = (lacks, AllLacked-append header ((name, value) ∷ []) more.added more.lacked);
            })
      ]

  -- Default headers that a client accepts leave every header of a request as it is. What they add has
  -- a name that is not reserved and that the request lacks, up to case, and breaks no line.
  pub default_headers-Added :
      (headers defaults header : HttpHeader)
      → copy_and_validate_default_headers net headers ≡ ok defaults
      → Added header (add_default_headers net header defaults)
  unfolding copy_and_validate_default_headers
  default_headers-Added headers defaults header h =
      add_default_headers-Added header defaults
        (copy_and_validate-AllAllowed net [] headers defaults tt h)
