-- ===== src/HealthServer/Requests.antt =====
-- orb8-agent/src/health_server.rs: what a request of HTTP is answered.
use orb.Prelude.{
  sym, append_assoc, inl, inr, Bool-cases, ◌≡◌, ◌≢◌, refl, ap, ◌∙◌, true, false, some, [], ◌∷◌,
  ◌++◌, All-imp, All-append, arith, is_empty,
}
use orb.Prelude.Text.{
  Text, codes, byte_len, Text-discrete, is_whitespace, lines-crlf, split_whitespace,
  split_by-append, split_by-All, Lacks, non_empty,
}
use orb.Prelude.Trim.{IsSolid}
use orb.Health.{HealthState, is_healthy, is_ready, health_message}
use orb.Prelude.Decimal.{format_uint}
use orb.HealthServer.{request_path, reply, response, answer, ok, unavailable, not_found, crlf}

-- The line of a request, with what follows it.
abbrev pub request_of : Text → Text → Text → Text → Text
request_of method path version rest = (method ++ b' ' ∷ (path ++ b' ' ∷ version)) ++ 13 ∷ 10 ∷ rest

-- A word that is not empty and holds no white space.
abbrev pub IsWord : Text → Type 0
IsWord w = (is_empty w ≡ false) × IsSolid w

solid-Lacks : (w : Text) → IsSolid w → Lacks 10 w
unfolding is_whitespace
solid-Lacks w solid = All-imp w (λ c h e. ground arith) solid

space : is_whitespace b' ' ≡ true
unfolding is_whitespace
space = refl

words :
    (method path version : Text)
    → IsWord method
    → IsWord path
    → IsWord version
    → split_whitespace (method ++ b' ' ∷ (path ++ b' ' ∷ version)) ≡ method ∷ path ∷ version ∷ []
unfolding split_whitespace
words method path version (some_m, m) (some_p, p) (some_v, v) =
    ap non_empty (
      split_by-append is_whitespace method b' ' (path ++ b' ' ∷ version) m space
      ∙ ap (◌∷◌ method) (
          split_by-append is_whitespace path b' ' version p space
          ∙ ap (◌∷◌ path) (split_by-All is_whitespace version v)))
    ∙ rw (some_m, some_p, some_v) refl

request_path-request_of :
    (method path version rest : Text)
    → IsWord method
    → IsWord path
    → IsWord version
    → request_path (request_of method path version rest) ≡ path
unfolding request_path
request_path-request_of method path version rest m p v =
    let line : Text = method ++ b' ' ∷ (path ++ b' ' ∷ version) in
    let lacks : Lacks 10 line =
      All-append (λ c. c ≢ 10) method (b' ' ∷ (path ++ b' ' ∷ version)) (solid-Lacks method m.1)
        (
          (λ e. ground arith),
          All-append (λ c. c ≢ 10) path (b' ' ∷ version) (solid-Lacks path p.1)
              ((λ e. ground arith), solid-Lacks version v.1),
        ) in
    rw (lines-crlf line rest lacks, words method path version m p v) refl

is_empty-append : (s t : Text) → is_empty s ≡ false → is_empty (s ++ t) ≡ false
is_empty-append [] t e = cc
is_empty-append (c ∷ s) t e = refl

-- The status lines, written out.
abbrev pub status_200 : Text
status_200 = codes "HTTP/1.1 200 OK" ++ crlf

abbrev pub status_503 : Text
status_503 = codes "HTTP/1.1 503 Service Unavailable" ++ crlf

abbrev pub status_404 : Text
status_404 = codes "HTTP/1.1 404 Not Found" ++ crlf

-- What the status line and the body of an answer depend on.
pub data IsAnswer (health : HealthState) (path : Text) : Text → Text → Type 0 where
  live :
      path ≡ codes "/healthz"
      → is_healthy health ≡ true
      → IsAnswer health path status_200 (health_message health)
  ill :
      path ≡ codes "/healthz"
      → is_healthy health ≡ false
      → IsAnswer health path status_503 (health_message health)
  ready :
      path ≡ codes "/readyz"
      → is_ready health ≡ true
      → IsAnswer health path status_200 (codes "ready")
  unready :
      path ≡ codes "/readyz"
      → is_ready health ≡ false
      → IsAnswer health path status_503 (codes "not ready: probes not attached")
  unknown :
      path ≢ codes "/healthz"
      → path ≢ codes "/readyz"
      → IsAnswer health path status_404 (codes "not found")

-- The headers, the empty line and the body behind a status line.
abbrev pub content : Text → Text
content body =
    codes "Content-Type: text/plain"
    ++ (crlf
        ++ (codes "Content-Length: "
            ++ (format_uint (byte_len body)
                ++ (crlf ++ (codes "Connection: close" ++ (crlf ++ (crlf ++ body)))))))

-- The whole text of an answer.
abbrev pub Answers : HealthState → Text → Text → Type 0
Answers health path text =
    (status : Text) × (body : Text) × IsAnswer health path status body
    × (text ≡ status ++ content body)

answered :
    (health : HealthState) (path word body : Text)
    → IsAnswer health path (codes "HTTP/1.1 " ++ (word ++ crlf)) body
    → reply health path ≡ (word, body)
    → Answers health path (response (reply health path))
unfolding response
answered health path word body right e = (
  codes "HTTP/1.1 " ++ (word ++ crlf),
  body,
  right,
  ap response e
      ∙ ap (λ (t : Text). codes "HTTP/1.1 " ++ t) (sym (append_assoc word crlf (content body))),
)

reply-Answers :
    (health : HealthState) (path : Text) → Answers health path (response (reply health path))
unfolding reply
reply-Answers health path = elim (Text-discrete path (codes "/healthz")) [
  | yes p ↦ elim (Bool-cases (is_healthy health)) [
    | inl good ↦
        answered health path ok (health_message health) (IsAnswer.live p good) (ground arith)
    | inr bad ↦
        answered health path unavailable (health_message health) (IsAnswer.ill p bad) (ground arith)
  ]
  | no n ↦ elim (Text-discrete path (codes "/readyz")) [
    | yes q ↦ elim (Bool-cases (is_ready health)) [
      | inl good ↦ answered health path ok (codes "ready") (IsAnswer.ready q good) (ground arith)
      | inr bad ↦
          answered health path unavailable (codes "not ready: probes not attached")
            (IsAnswer.unready q bad) (ground arith)
    ]
    | no m ↦
        answered health path not_found (codes "not found") (IsAnswer.unknown n m) (ground arith)
  ]
]

-- A request whose first line has three words, as HTTP asks for, is answered by the path in it: the
-- status line is 200 for /healthz with a healthy agent and for /readyz with a ready one, 503 for
-- these two paths otherwise, and 404 for every other path; the length that the headers give is that
-- of the body, and the body is the health message, the readiness, or that nothing was found.
pub answer-request_of :
    (health : HealthState) (method path version rest : Text)
    → IsWord method
    → IsWord path
    → IsWord version
    → (text : Text) × (answer health (some (request_of method path version rest)) ≡ some text)
      × Answers health path text
unfolding answer
answer-request_of health method path version rest m p v = (
  response (reply health path),
  rw
      (
        is_empty-append (method ++ b' ' ∷ (path ++ b' ' ∷ version)) (13 ∷ 10 ∷ rest)
            (is_empty-append method (b' ' ∷ (path ++ b' ' ∷ version)) m.0),
        request_path-request_of method path version rest m p v,
      )
      refl,
  reply-Answers health path,
)
