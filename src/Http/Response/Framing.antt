-- ===== src/Http/Response/Framing.antt =====
-- http/http_response.h: a client that reads lines up to an empty one finds the body behind it.
use game_frame.Prelude.{
  ℕ, zero, suc, ◌+◌, ◌<◌, ◌≡◌, ◌≢◌, refl, ap, ◌∙◌, Bool, true, false, List, [], ◌∷◌, ◌++◌,
  append_assoc, Option, none, some, All, length, take, drop, take-length_append, codes,
  Lacks-append, arith,
}
use mathlib.Core.Option
use game_frame.Buffer.{search_crlf}
use game_frame.Buffer.Crlf.{NoCr, search_crlf-line}
use game_frame.Http.Request.{Headers}
use game_frame.Http.Response.{
  code_number, HttpResponse, crlf, header_lines, connection_line, serialize,
}

-- The first line that a client finds, and what it does with it: an empty line ends the head.
read_line :
    Option ℕ → (List ℕ → Option (List (List ℕ) × List ℕ)) → List ℕ → Option (List (List ℕ) × List ℕ)
read_line none next xs = none
read_line (some zero) next xs = some ([], drop 2 xs)
read_line (some (suc i)) next xs =
    Option.map (λ r. (take (suc i) xs ∷ r.0, r.1)) (next (drop (suc i + 2) xs))

-- The lines of a head of less than `fuel` lines, and what follows it.
pub split_head : ℕ → List ℕ → Option (List (List ℕ) × List ℕ)
split_head zero xs = none
split_head (suc fuel) xs = read_line (search_crlf xs) (split_head fuel) xs

abbrev line_of : List ℕ × List ℕ → List ℕ
line_of (key, value) = key ++ codes ": " ++ value

abbrev pub lines_of : Headers → List (List ℕ)
lines_of [] = []
lines_of (e ∷ es) = line_of e ∷ lines_of es

-- A line as the response writes it is read as that line.
split_line :
    (fuel x : ℕ) (line rest : List ℕ)
    → NoCr (x ∷ line)
    → split_head (suc fuel) ((x ∷ line) ++ b'\r' ∷ b'\n' ∷ rest)
      ≡ Option.map (λ r. ((x ∷ line) ∷ r.0, r.1)) (split_head fuel rest)
unfolding split_head read_line
split_line fuel x line rest h =
    let text : List ℕ = (x ∷ line) ++ b'\r' ∷ b'\n' ∷ rest in
    ap (λ o. read_line o (split_head fuel) text) (search_crlf-line (x ∷ line) rest h)
    ∙ ap
        (λ l.
          Option.map (λ r. (l ∷ r.0, r.1)) (split_head fuel (drop (length (x ∷ line) + 2) text)))
        (take-length_append (length (x ∷ line)) (x ∷ line) (b'\r' ∷ b'\n' ∷ rest) refl)
    ∙ ap (λ t. Option.map (λ r. ((x ∷ line) ∷ r.0, r.1)) (split_head fuel t)) (past (x ∷ line))
  where
    past : (xs : List ℕ) → drop (length xs + 2) (xs ++ b'\r' ∷ b'\n' ∷ rest) ≡ rest
    past [] = refl
    past (y ∷ ys) =
        ap (λ n. drop n (y ∷ ys ++ b'\r' ∷ b'\n' ∷ rest)) {x = suc (length ys) + 2}
          {y = suc (length ys + 2)} (omega arith)
        ∙ past ys

-- A header is written on one line, and its key is not empty.
abbrev pub IsHeader : List ℕ × List ℕ → Type 0
IsHeader (key, value) = (key ≢ []) × NoCr key × NoCr value

split_headers :
    (es : Headers) (body : List ℕ)
    → All IsHeader es
    → split_head (suc (length es)) (header_lines es ++ crlf ++ body) ≡ some (lines_of es, body)
unfolding split_head read_line header_lines crlf
split_headers [] body h =
    ap (λ o. read_line o (split_head 0) (b'\r' ∷ b'\n' ∷ body)) (search_crlf-line [] body tt)
split_headers (([], value) ∷ es) body h = absurd (h.0.0 refl)
split_headers ((x ∷ key, value) ∷ es) body h =
    let line : List ℕ = key ++ codes ": " ++ value in
    let rest : List ℕ = header_lines es ++ crlf ++ body in
    let regroup : (x ∷ line) ++ crlf ++ header_lines es ++ crlf ++ body
        ≡ (x ∷ line) ++ b'\r' ∷ b'\n' ∷ rest =
      simp append_assoc in
    ap (split_head (suc (suc (length es)))) regroup
    ∙ split_line (suc (length es)) x line rest (
        Lacks-append b'\r' (x ∷ key ++ codes ": ") value
          (Lacks-append b'\r' (x ∷ key) (codes ": ") h.0.1 (omega arith, (omega arith, tt))) h.0.2)
    ∙ ap (Option.map (λ r. ((x ∷ line) ∷ r.0, r.1))) (split_headers es body h.1)

split_line_of :
    (fuel : ℕ) (line rest : List ℕ)
    → 0 < length line
    → NoCr line
    → split_head (suc fuel) (line ++ b'\r' ∷ b'\n' ∷ rest)
      ≡ Option.map (λ r. (line ∷ r.0, r.1)) (split_head fuel rest)
split_line_of fuel [] rest h k = absurd (omega arith)
split_line_of fuel (x ∷ line) rest h k = split_line fuel x line rest k

NoCr-connection : (close : Bool) → NoCr (connection_line close)
unfolding connection_line
NoCr-connection true = omega arith
NoCr-connection false = omega arith

length-connection : (close : Bool) → 0 < length (connection_line close)
unfolding connection_line
length-connection true = omega arith
length-connection false = omega arith

abbrev status_line : (ℕ → List ℕ) → HttpResponse → List ℕ
status_line to_string r =
    codes "HTTP/1.1 " ++ to_string (code_number r.status_code) ++ codes " " ++ r.status_message

-- A client that reads the text of a response line by line, up to the first empty line, finds the status
-- line, the connection line, the line that gives the length of the body, and a line for each header; and
-- what follows is the body, all of it, whatever bytes it holds. The numbers, the message and the headers
-- hold no carriage return, and no key is empty.
pub split_head-serialize :
    (to_string : ℕ → List ℕ) (order : Headers → Headers) (r : HttpResponse)
    → ((n : ℕ) → NoCr (to_string n))
    → NoCr r.status_message
    → All IsHeader (order r.headers)
    → split_head (4 + length (order r.headers)) (serialize to_string order r)
      ≡ some (
        status_line to_string r
            ∷ connection_line r.close_connection
            ∷ (codes "Content-Length: " ++ to_string (length r.body))
            ∷ lines_of (order r.headers),
        r.body,
      )
unfolding serialize crlf
split_head-serialize to_string order r digits message headers =
    let n : List ℕ = to_string (length r.body) in
    let rest : List ℕ = header_lines (order r.headers) ++ crlf ++ r.body in
    let connection : List ℕ = connection_line r.close_connection in
    let sized : List ℕ = codes "Content-Length: " ++ n in
    let regroup : serialize to_string order r
        ≡ status_line to_string r
          ++ b'\r' ∷ b'\n' ∷ (connection ++ b'\r' ∷ b'\n' ∷ (sized ++ b'\r' ∷ b'\n' ∷ rest)) =
      simp append_assoc in
    let k : ℕ = suc (length (order r.headers)) in
    ap (λ f. split_head f (serialize to_string order r)) {x = 4 + length (order r.headers)}
      {y = suc (suc (suc k))} (omega arith)
    ∙ ap (split_head (suc (suc (suc k)))) regroup
    ∙ split_line_of (suc (suc k)) (status_line to_string r) _ (omega arith) (
        Lacks-append b'\r' (codes "HTTP/1.1 " ++ to_string (code_number r.status_code) ++ codes " ")
          _
          (Lacks-append b'\r' (codes "HTTP/1.1 " ++ to_string (code_number r.status_code)) _
            (Lacks-append b'\r' (codes "HTTP/1.1 ") _ (omega arith)
              (digits (code_number r.status_code)))
            (omega arith))
          message)
    ∙ ap (Option.map (λ t. (status_line to_string r ∷ t.0, t.1))) (
        split_line_of (suc k) connection _ (length-connection r.close_connection)
          (NoCr-connection r.close_connection)
        ∙ ap (Option.map (λ t. (connection ∷ t.0, t.1))) (
            split_line_of k sized rest (omega arith) (
              Lacks-append b'\r' (codes "Content-Length: ") n (omega arith)
                (digits (length r.body)))
            ∙ ap (Option.map (λ t. (sized ∷ t.0, t.1)))
                (split_headers (order r.headers) r.body headers)))
