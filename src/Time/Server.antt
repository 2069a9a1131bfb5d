-- ===== src/Time/Server.antt =====
-- rltime/src/rltime.c: `rl_get_time_from_server`, which reads the date of an HTTP response.
pub mod Buffer
pub mod Faultless
pub mod Pieces
pub mod Date
pub mod Session
use custom_public_library_rl.Common.{
  ℕ, ◌+◌, ◌-◌, Bool, true, false, not, Option, none, some, List, [], ◌∷◌, ◌++◌, Run, ok, ◌>>=◌,
  length, take, replicate, leb, ◌==◌, if◌then◌else◌, ℤ, Public, codes,
}
use custom_public_library_rl.Libc.{Bytes, write, suffix, prefix, strlen, begins, strstr}
use custom_public_library_rl.Time.{Tm}

-- What the network answers: `socket`, both calls of `setsockopt`, `getaddrinfo`, `connect`, `send`, and
-- the calls of `recv` in turn, `none` for -1. Behind the last of them the peer has closed.
pub record Replies : Type 0 where
  pub socket : Option ℕ
  pub recv_timeout_set : Bool
  pub send_timeout_set : Bool
  pub resolved : Bool
  pub connects : Bool
  pub sends : Bytes → Bool
  pub chunks : List (Option Bytes)

abbrev pub crlf : Bytes
crlf = 13 ∷ 10 ∷ []

abbrev pub header_end : Bytes
header_end = 13 ∷ 10 ∷ 13 ∷ 10 ∷ []

abbrev pub http : Bytes
http = codes "HTTP/"

abbrev pub status_ok : Bytes
status_ok = codes "200 OK"

abbrev pub date : Bytes
date = codes "Date: "

abbrev pub request : Bytes
request =
    codes "GET / HTTP/1.1"
    ++ (crlf
        ++ (codes "Host: www.baidu.com" ++ (crlf ++ (codes "Connection: close" ++ header_end))))

-- The loop goes on where `strstr` finds no end of the header.
abbrev pub unless_found : Option ℕ → Bytes → Run (Bool × Bytes) → Run (Bool × Bytes)
unless_found none response rest = rest
unless_found (some at) response rest = ok (true, response)

-- A call of `recv` with `total` bytes in; `rest` is the rounds after it.
pub next_chunk : (Bytes → ℕ → Run (Bool × Bytes)) → Option Bytes → Bytes → ℕ → Run (Bool × Bytes)
next_chunk rest none response total = ok (false, response)
next_chunk rest (some bytes) response total =
    let got = take (2048 - total - 1) bytes in
    if length got == 0 then ok (false, response) else do
      response ← write response total got
      if leb 2047 (total + length got) then ok (true, response) else do
        response ← write response (total + length got) (0 ∷ [])
        at ← strstr response (header_end ++ (0 ∷ []))
        unless_found at response (rest response (total + length got))

-- Whether the last `ret` is positive, and the array.
pub receive : List (Option Bytes) → Bytes → ℕ → Run (Bool × Bytes)
receive [] response total = ok (false, response)
receive (chunk ∷ chunks) response total = next_chunk (receive chunks) chunk response total

abbrev pub no_time : Tm
no_time = record { tm_sec = 0; tm_min = 0; tm_hour = 0; tm_mday = 0; tm_mon = 0; tm_year = 0 }

-- `strptime` answers whether it has read the text, and what it leaves in the structure.
module _ ⦃public : Public⦄ (strptime : Bytes → Tm → Bool × Tm) where
  open public use {rl_false, rl_success, rl_failed}

  abbrev pub parsed : Bool × Tm → ℤ × Tm
  parsed (true, time) = (rl_success, time)
  parsed (false, time) = (rl_failed, time)

  pub read_date : Tm → Bytes → Option ℕ → Run (ℤ × Tm)
  read_date time header none = ok (rl_failed, time)
  read_date time header (some end) = do
    header ← write header end (0 ∷ [])
    date_str ← suffix header 6
    n ← strlen date_str
    text ← prefix n date_str
    ok (parsed (strptime text no_time))

  pub find_date : Tm → Bytes → Option ℕ → Run (ℤ × Tm)
  find_date time response none = ok (rl_failed, time)
  find_date time response (some at) = do
    header ← suffix response at
    end ← strstr header (crlf ++ (0 ∷ []))
    read_date time header end

  pub after_status : Tm → Bytes → Option ℕ → Run (ℤ × Tm)
  after_status time response none = ok (rl_false, time)
  after_status time response (some at) = do
    at ← strstr response (date ++ (0 ∷ []))
    find_date time response at

  pub read_response : Tm → Bool × Bytes → Run (ℤ × Tm)
  read_response time (false, response) = ok (rl_false, time)
  read_response time (true, response) = do
    is_http ← begins (http ++ (0 ∷ [])) response
    if is_http
        then (do at ← strstr response (status_ok ++ (0 ∷ [])); after_status time response at)
        else ok (rl_false, time)

  -- The part with the socket open.
  pub exchange : Replies → Tm → Run (ℤ × Tm)
  exchange replies time =
      if not replies.recv_timeout_set
      then ok (rl_failed, time)
      else if not replies.send_timeout_set
      then ok (rl_failed, time)
      else if not replies.resolved
      then ok (rl_failed, time)
      else if not replies.connects
      then ok (rl_false, time)
      else if not (replies.sends request)
      then ok (rl_false, time)
      else do received ← receive replies.chunks (replicate 2048 0) 0; read_response time received
