-- ===== src/Listeners/Redirect/Target.antt =====
-- Where the clients are sent.
use neon_oss.Base.{
  false, ◌||◌, arith, str_eq, String, Option, none, some, ok, err, ℤ, ℕ, ◌≡◌, refl, ap, ◌∙◌, ◌≢◌,
  sym, eq_iff, Bool-cases, inl, inr,
}
use mathlib.Core.Path.{subst}
use text.Mathlib.TextLemmas.{cons-append, nil-append, append_assoc}
use Prim.Native.Char.{Char, code}
use neon_oss.Strings.{◌+++◌, format_int}
use neon_oss.Listeners.Redirect.{
  Config, Answer, http_error, http_redirect, has_char, cut_last, split_host_port, join_host_port,
  redirect_handler, from_last, with_colon, plain, unbracketed, target, host_of,
}

-- A name or an IPv4 address: no colon and no bracket.
pub record IsName (host : String) : Type 0 where
  pub no_colon : has_char b':' host ≡ false
  pub no_open : has_char b'[' host ≡ false
  pub no_close : has_char b']' host ≡ false

cut_last-none : (sep : ℕ) (s : String) → has_char sep s ≡ false → cut_last sep s ≡ none
unfolding has_char cut_last
cut_last-none sep String.[] h = refl
cut_last-none sep (String.◌∷◌ c s) h = rw (cut_last-none sep s (ground arith)) (ground arith)

cut_last-next :
    (sep : ℕ) (c : Char) (s : String) (found : String × String)
    → cut_last sep s ≡ some found
    → cut_last sep (String.◌∷◌ c s) ≡ some (String.◌∷◌ c found.0, found.1)
unfolding cut_last
cut_last-next sep c s found h = rw h refl

cut_last-port :
    (sep : ℕ) (host port : String) (c : Char)
    → code c ≡ sep
    → has_char sep port ≡ false
    → cut_last sep (host +++ String.◌∷◌ c port) ≡ some (host, port)
unfolding cut_last
cut_last-port sep String.[] port c is h =
    rw (nil-append (String.◌∷◌ c port), cut_last-none sep port h) (ground arith)
cut_last-port sep (String.◌∷◌ d host) port c is h =
    ap (cut_last sep) (cons-append d host (String.◌∷◌ c port))
    ∙ cut_last-next sep d (host +++ String.◌∷◌ c port) (host, port)
        (cut_last-port sep host port c is h)

has_char-append :
    (sep : ℕ) (s t : String) → has_char sep (s +++ t) ≡ (has_char sep s || has_char sep t)
unfolding has_char
has_char-append sep String.[] t = rw (nil-append t) refl
has_char-append sep (String.◌∷◌ c s) t =
    rw (cons-append c s t, has_char-append sep s t) (ground arith)

colon_port : (host port : String) → host +++ ":" +++ port ≡ host +++ String.◌∷◌ ":" port
colon_port host port =
    append_assoc host ":" port
    ∙ ap (λ t. host +++ t) (cons-append ":" "" port ∙ ap (String.◌∷◌ ":") (nil-append port))

split_name : (host : String) → IsName host → split_host_port host ≡ err "missing port in address"
unfolding split_host_port from_last
split_name host h = rw (cut_last-none b':' host h.no_colon) refl

with_colon-name :
    (s : String) (found : String × String)
    → has_char b'[' s ≡ false
    → with_colon s found ≡ plain s found
unfolding with_colon has_char
with_colon-name String.[] found h = refl
with_colon-name (String.◌∷◌ c s) found h = ground arith

has_char-pair :
    (sep : ℕ) (host port : String)
    → has_char sep host ≡ false
    → has_char sep ":" ≡ false
    → has_char sep port ≡ false
    → has_char sep (host +++ ":" +++ port) ≡ false
has_char-pair sep host port h colon k =
    rw (has_char-append sep (host +++ ":") port, has_char-append sep host ":", h, colon, k) refl

split_name_port :
    (host port : String)
    → IsName host
    → IsName port
    → split_host_port (host +++ ":" +++ port) ≡ ok (host, port)
unfolding split_host_port from_last plain unbracketed has_char
split_name_port host port h k =
    let no_open = has_char-pair b'[' host port h.no_open refl k.no_open in
    let no_close = has_char-pair b']' host port h.no_close refl k.no_close in
    let last : cut_last b':' (host +++ ":" +++ port) ≡ some (host, port) =
      ap (cut_last b':') (colon_port host port)
      ∙ cut_last-port b':' host port ":" refl k.no_colon in
    rw
      (
        last,
        with_colon-name (host +++ ":" +++ port) (host, port) no_open,
        h.no_colon,
        no_open,
        no_close,
      )
      refl

join_name : (host port : String) → IsName host → join_host_port host port ≡ host +++ ":" +++ port
unfolding join_host_port
join_name host port h = rw h.no_colon refl

-- What the target should be: the host's name, and the port where one is set.
abbrev pub location : Option ℤ → String → String → String
location none host uri = "https://" +++ host +++ uri
location (some port) host uri = "https://" +++ (host +++ ":" +++ format_int port) +++ uri

target-location :
    (port : Option ℤ) (host uri : String)
    → IsName host
    → target port host uri ≡ location port host uri
unfolding target
target-location none host uri h = refl
target-location (some port) host uri h =
    ap (λ t. "https://" +++ t +++ uri) (join_name host (format_int port) h)

-- What a request of a method should be answered with.
pub data IsAnswered (location : String) : String → Answer → Type 0 where
  get : IsAnswered location "GET" (http_redirect location 302)
  head : IsAnswered location "HEAD" (http_redirect location 302)
  other :
      (method : String)
      → method ≢ "GET"
      → method ≢ "HEAD"
      → IsAnswered location method (http_error "Use HTTPS" 400)

redirect_handler-by_method :
    (c : Config) (method host uri to : String)
    → target c.redirect_port (host_of host (split_host_port host)) uri ≡ to
    → IsAnswered to method
        (redirect_handler c (record { method = method; host = host; request_uri = uri }))
unfolding redirect_handler
redirect_handler-by_method c method host uri to h = elim (Bool-cases (str_eq method "GET")) [
  | inl is ↦
      subst
        (λ m.
          IsAnswered to m
            (redirect_handler c (record { method = m; host = host; request_uri = uri })))
        (sym ((eq_iff method "GET").0 is)) (rw h get)
  | inr not_get ↦ elim (Bool-cases (str_eq method "HEAD")) [
    | inl is ↦
        subst
          (λ m.
            IsAnswered to m
              (redirect_handler c (record { method = m; host = host; request_uri = uri })))
          (sym ((eq_iff method "HEAD").0 is)) (rw h head)
    | inr neither ↦
        rw (not_get, neither)
          (other method (λ e. absurd (cc (not_get, (eq_iff method "GET").1 e)))
            (λ e. absurd (cc (neither, (eq_iff method "HEAD").1 e))))
  ]
]

-- A request to a named host, with or without a port, that is a `GET` or a `HEAD` is sent to the same
-- host and the same resource, over HTTPS and at `RedirectPort` where it is set, and one of another
-- method is answered with the status 400.
pub redirect_handler-location :
    (c : Config) (method host port uri : String)
    → IsName host
    → IsName port
    → IsAnswered
        (location c.redirect_port host uri)
        method
        (redirect_handler c (record { method = method; host = host; request_uri = uri }))
      × IsAnswered (location c.redirect_port host uri) method (
          redirect_handler c
            (record { method = method; host = host +++ ":" +++ port; request_uri = uri }))
unfolding host_of
redirect_handler-location c method host port uri h k = (
  redirect_handler-by_method c method host uri _
      (rw (split_name host h) (target-location c.redirect_port host uri h)),
  redirect_handler-by_method c method (host +++ ":" +++ port) uri _
      (rw (split_name_port host port h k) (target-location c.redirect_port host uri h)),
)
