-- ===== src/HealthServer.antt =====
-- orb8-agent/src/health_server.rs: the answer to one connection. The socket is left to the crate
-- `tokio`: the argument is what one read of at most 4096 bytes yields, as text, and the result is
-- what is written back.
pub mod Requests
use orb.Prelude.{
  ℕ, Bool, true, false, Option, none, some, List, [], ◌∷◌, ◌++◌, if◌then◌else◌, get_elem?,
  unwrap_or, is_empty, ◌>>=◌,
}
use orb.Prelude.Decimal.{format_uint}
use orb.Prelude.Text.{Text, codes, text_eq, byte_len, lines, split_whitespace}
use orb.Health.{HealthState, is_healthy, is_ready, health_message}

-- The second word of the first line.
unfoldable pub request_path : Text → Text
request_path request =
    unwrap_or (do line ← get_elem? (lines request) 0; get_elem? (split_whitespace line) 1) []

abbrev pub ok : Text
ok = codes "200 OK"

abbrev pub unavailable : Text
unavailable = codes "503 Service Unavailable"

abbrev pub not_found : Text
not_found = codes "404 Not Found"

-- `match path`: the status and the body.
unfoldable pub reply : HealthState → Text → Text × Text
reply health path =
    if text_eq path (codes "/healthz")
    then (if is_healthy health
        then (ok, health_message health)
        else (unavailable, health_message health))
    else if text_eq path (codes "/readyz")
    then (if is_ready health
        then (ok, codes "ready")
        else (unavailable, codes "not ready: probes not attached"))
    else (not_found, codes "not found")

-- The end of a line of HTTP.
abbrev pub crlf : Text
crlf = 13 ∷ 10 ∷ []

unfoldable pub response : Text × Text → Text
response (status, body) =
    codes "HTTP/1.1 "
    ++ (status
        ++ (crlf
            ++ (codes "Content-Type: text/plain"
                ++ (crlf
                    ++ (codes "Content-Length: "
                        ++ (format_uint (byte_len body)
                            ++ (crlf
                                ++ (codes "Connection: close" ++ (crlf ++ (crlf ++ body))))))))))

-- An empty read, or none, is not answered.
unfoldable pub answer : HealthState → Option Text → Option Text
answer health none = none
answer health (some request) =
    if is_empty request then none else some (response (reply health (request_path request)))

-- What occurs at the listening socket. Each connection is answered by a task of its own.
pub data Occurrence : Type 0 where
  cancelled accept_error : Occurrence
  connection : HealthState → Option Text → Occurrence

-- The loop of `run`: the answers to the connections, until the server is cancelled.
unfoldable pub serve : List Occurrence → List (Option Text)
serve [] = []
serve (cancelled ∷ rest) = []
serve (accept_error ∷ rest) = serve rest
serve (connection health request ∷ rest) = answer health request ∷ serve rest

-- Without the address there is no server.
unfoldable pub run : Bool → List Occurrence → List (Option Text)
run bound occurrences = if bound then serve occurrences else []
