-- ===== src/FileServer/Resp/Tests.antt =====
-- Requests that are read, and requests that are refused.
use ncsc210_g.Base.{
  ℕ, ◌≡◌, refl, Bool, true, none, some, List, [], ◌∷◌, ◌++◌, arith, get_or, drop, codes,
}
use ncsc210_g.FileServer.Resp.Number.{decimal}
use ncsc210_g.FileServer.Resp.Parse.{encode_request, resp_read_array-encode, resp_read_array-empty}
use ncsc210_g.FileServer.Resp.Receive.{Leaves}
use ncsc210_g.FileServer.Resp.{Event, chunk, interrupted, resp_read_array}

abbrev ample : ℕ → Bool
ample n = true

abbrev crlf : List ℕ
crlf = 13 ∷ 10 ∷ []

abbrev conn : List ℕ → List Event
conn [] = []
conn (b ∷ bs) = chunk b [] ∷ interrupted ∷ conn bs

abbrev ping : List ℕ
ping = codes "*1" ++ crlf ++ codes "$4" ++ crlf ++ codes "PING" ++ crlf

read_ping : resp_read_array ample (conn ping) ≡ some (codes "PING" ∷ [], interrupted ∷ [])
unfolding resp_read_array
read_ping = refl

read_ping_chunk :
    resp_read_array ample (
      chunk (get_or ping 0 0) (codes "1" ++ crlf ++ codes "$4" ++ crlf ++ codes "PI")
      ∷ interrupted
      ∷ conn (codes "NG" ++ crlf))
    ≡ some (codes "PING" ∷ [], interrupted ∷ [])
unfolding resp_read_array
read_ping_chunk = refl

-- The same bytes in one chunk.
abbrev ping_chunk : List Event
ping_chunk = interrupted ∷ chunk b'*' (drop 1 (encode_request (codes "PING" ∷ []) [])) ∷ []

resp_read_array-encode_example : Leaves (resp_read_array ample ping_chunk) (codes "PING" ∷ []) []
unfolding decimal
resp_read_array-encode_example =
    resp_read_array-encode ample (codes "PING" ∷ []) [] ping_chunk (omega arith) (omega arith) refl
      ((omega arith, omega arith, refl), tt) refl tt

abbrev set_empty : List Event
set_empty = chunk b'*' (drop 1 (encode_request (codes "SETFILE" ∷ codes "a" ∷ [] ∷ []) [])) ∷ []

resp_read_array-empty_example : resp_read_array ample set_empty ≡ none
unfolding decimal
resp_read_array-empty_example =
    resp_read_array-empty ample (codes "SETFILE" ∷ codes "a" ∷ []) [] [] set_empty
      ((omega arith, omega arith, refl), ((omega arith, omega arith, refl), tt)) (omega arith) refl
      tt
