-- ===== src/Egress/Ingress.antt =====
-- proxy/cmd/egress-proxy/main.go: `serveIngress`, the platform's port in front of dsh. The reverse
-- proxy of the standard library is a parameter: `base`, what its own director makes of a request.
pub mod Laws
use attested_harness.Common.{
  ℕ, Bool, not, ◌&&◌, ◌||◌, Option, none, some, List, [], ◌∷◌, ◌++◌, if◌then◌else◌, Text, codes,
  same,
}
use attested_harness.Egress.{Headers, get, del, is_empty, record_subject}

-- A request on the platform's port.
pub record Request : Type 0 where
  pub method : Text
  pub path : Text
  pub host : Text
  pub headers : Headers

-- What the client of the port gets.
pub record Reply : Type 0 where
  pub status : ℕ
  pub body : Text

-- How a request is served: by the port itself, or by the reverse proxy, with the request that its
-- director made for dsh.
pub data Served : Type 0 where
  healthy : Served
  summary : Served
  relayed : Request → Reply → Served

abbrev pub subject_header : Text
subject_header = codes "X-Privasys-Sub"

-- The headers that a browser marks a request with, in the order of their removal.
abbrev pub browser_markers : List Text
browser_markers =
    codes "Origin"
    ∷ codes "Referer"
    ∷ codes "Sec-Fetch-Site"
    ∷ codes "Sec-Fetch-Mode"
    ∷ codes "Sec-Fetch-Dest"
    ∷ codes "Sec-Fetch-User"
    ∷ []

abbrev pub del_all : List Text → Headers → Headers
del_all [] h = h
del_all (name ∷ names) h = del_all names (del name h)

abbrev pin_host : (public_host host : Text) → Text
pin_host public_host host = if is_empty public_host then host else public_host

abbrev pub reads : Text → Bool
reads method = same method (codes "GET") || same method (codes "HEAD")

-- The error handler of the reverse proxy.
abbrev pub starting : Reply
starting = record {
  status = 503;
  body = codes "{\"status\":\"starting\",\"component\":\"harness\"}" ++ (b'\n' ∷ []);
}

abbrev pub or_starting : Option Reply → Reply
or_starting none = starting
or_starting (some reply) = reply

module _ (base : Request → Request) (public_host : Text) where
  -- The director: the request for dsh, and the subject that is bound behind it.
  unfoldable pub director : Request → (bound : Text) → Request × Text
  unfolding record_subject
  director r bound =
      let req = base r in
      (
        record req {
          host = pin_host public_host req.host;
          headers = del_all browser_markers req.headers;
        },
        record_subject (get subject_header req.headers) bound,
      )

  module _ (dsh : Request → Option Reply) where
    abbrev relay : Request × Text → Served × Text
    relay (req, bound) = (relayed req (or_starting (dsh req)), bound)

    -- The routes of the platform's port, on a path that the mux has cleaned. `dsh` gives no reply where
    -- it is not listening or breaks off.
    unfoldable pub serve : Request → (bound : Text) → Served × Text
    unfolding director
    serve r bound =
        if reads r.method && (same r.path (codes "/health") || same r.path (codes "/healthz"))
        then (healthy, bound)
        else if reads r.method && same r.path (codes "/privasys/attestation")
        then (summary, bound)
        else relay (director r bound)

    -- The subject that is bound behind these requests.
    unfoldable pub serve_all : List Request → (bound : Text) → Text
    unfolding serve
    serve_all [] bound = bound
    serve_all (r ∷ rs) bound = serve_all rs (serve r bound).1
