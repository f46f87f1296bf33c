-- ===== src/Http.antt =====
-- What the program uses of Go's `net/http` and `os`: the response writer, the request, and the
-- files of one moment. The calls into the file system are parameters, as they are fields of the
-- program's own types.
use neon_oss.Base.{
  ℕ, Bool, List, [], ◌++◌, String, Option, none, some, Result, ℤ, str_eq, ◌||◌, ◌+◌, ◌-◌, ◌*◌,
  pos_part, neg_part, pos, negsuc, ltb, leb, ◌&&◌, not, ◌==◌, suc, ◌%◌, ◌^◌, if◌then◌else◌,
}
use neon_oss.Render.{Header, set_header}

-- The parts of `http.Request` that the program reads.
pub record Request : Type 0 where
  pub method : String
  pub host : String
  pub path : String

-- `http.ResponseWriter`: the header under construction, what was sent, and the body as it is
-- written, whether or not net/http sends it on (not for HEAD, and not with a status without a body).
pub record ResponseWriter : Type 0 where
  pub header : Header
  pub sent : Option (ℕ × Header)
  pub body : List ℕ

abbrev pub new_response : ResponseWriter
new_response = record { header = []; sent = none; body = [] }

send : ℕ → ResponseWriter → Option (ℕ × Header) → Option (ℕ × Header)
send status w none = some (status, w.header)
send status w (some s) = some s

-- The statuses that net/http sends at once, and that leave the final one open.
unfoldable pub is_informational : ℕ → Bool
is_informational status = leb 100 status && ltb status 200 && not (status == 101)

-- `WriteHeader`: only the first call with a final status counts.
unfoldable pub write_status : ℕ → ResponseWriter → ResponseWriter
unfolding send is_informational
write_status status w = record w {
  sent = if is_informational status then w.sent else send status w w.sent;
}

-- `Write` sends the status 200 if none was sent.
unfoldable pub write_body : List ℕ → ResponseWriter → ResponseWriter
unfolding write_status
write_body bytes w =
    let w' = write_status 200 w in
    record { header = w'.header; sent = w'.sent; body = w'.body ++ bytes }

unfoldable pub set_field : String → String → ResponseWriter → ResponseWriter
unfolding set_header
set_field name value w = record w { header = set_header name value w.header }

-- `if r.Method != http.MethodGet && r.Method != http.MethodHead`
abbrev pub is_read : Request → Bool
is_read r = str_eq r.method "GET" || str_eq r.method "HEAD"

-- The low 64 bits of `ttl * time.Second`, and their value as an `int64`.
nanoseconds : ℤ → ℕ
nanoseconds (pos n) = n * 1000000000 % 2 ^ 64
nanoseconds (negsuc n) = (2 ^ 64 - suc n * 1000000000 % 2 ^ 64) % 2 ^ 64

signed : ℕ → ℤ
signed n = if ltb n (2 ^ 63) then pos n else negsuc (2 ^ 64 - 1 - n)

-- `time.Duration(ttl) * time.Second`, which wraps around.
unfoldable pub seconds : ℤ → ℤ
unfolding nanoseconds signed
seconds ttl = signed (nanoseconds ttl)

-- `time.Now().Add(time.Duration(ttl) * time.Second)`, in nanoseconds.
abbrev pub after_seconds : ℕ → ℤ → ℕ
after_seconds now ttl = now + pos_part (seconds ttl) - neg_part (seconds ttl)

-- `os.FileInfo`
pub record FileInfo : Type 0 where
  pub is_dir : Bool
  pub mod_time : ℕ

-- The files at one moment: `os.OpenFile` for reading, `os.Stat` and `os.ReadFile`.
pub record FileSystem : Type 0 where
  pub open_file : String → Result (Unit {0})
  pub stat : String → Result FileInfo
  pub read_file : String → Result (List ℕ)
