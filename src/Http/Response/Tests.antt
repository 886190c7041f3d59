-- ===== src/Http/Response/Tests.antt =====
-- http/http_response.h: a small response.
use game_frame.Prelude.{
  ℕ, zero, suc, ◌+◌, ◌/◌, ◌%◌, ◌≡◌, true, false, List, [], ◌∷◌, ◌++◌, some, ltb, if◌then◌else◌,
  codes, Lacks-append, arith,
}
use game_frame.Buffer.Crlf.{NoCr}
use game_frame.Http.Response.{HttpResponse, not_found, code_number, connection_line, serialize}
use game_frame.Http.Response.Framing.{split_head, split_head-serialize}

-- decimal numbers of at most `fuel` digits
abbrev decimal : ℕ → ℕ → List ℕ
decimal zero n = []
decimal (suc fuel) n =
    let rest = decimal fuel (n / 10) in
    if ltb n 10 then (b'0' + n) ∷ [] else rest ++ (b'0' + n % 10) ∷ []

decimal-NoCr : (fuel n : ℕ) → NoCr (decimal fuel n)
decimal-NoCr zero n = tt
decimal-NoCr (suc fuel) n =
    elim (ltb n 10)
      as (λ b.
        NoCr (if b then (b'0' + n) ∷ [] else decimal fuel (n / 10) ++ (b'0' + n % 10) ∷ [])) [
          | true ↦ (λ e. omega arith, tt)
          | false ↦
              Lacks-append b'\r' (decimal fuel (n / 10)) _ (decimal-NoCr fuel (n / 10))
                (λ e. omega arith, tt)
        ]

abbrev missing : HttpResponse
missing = record {
  status_code = not_found;
  status_message = codes "Not Found";
  close_connection = true;
  headers = (codes "Content-Type", codes "text/plain") ∷ [];
  body = codes "no\r\n\r\n";
}

split_head-serialize_example :
    split_head 5 (serialize (decimal 20) (λ es. es) missing)
    ≡ some (
      (codes "HTTP/1.1 " ++ codes "404" ++ codes " " ++ codes "Not Found")
          ∷ connection_line true
          ∷ codes "Content-Length: 6"
          ∷ codes "Content-Type: text/plain"
          ∷ [],
      codes "no\r\n\r\n",
    )
unfolding code_number
split_head-serialize_example =
    split_head-serialize (decimal 20) (λ es. es) missing (decimal-NoCr 20) (omega arith)
      ((λ e. cc, omega arith, omega arith), tt)
