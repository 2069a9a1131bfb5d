-- ===== src/Tests/Server.antt =====
-- The time of a server, with a server that answers and one that cannot be reached.
use custom_public_library_rl.Common.{
  ◌≡◌, refl, Bool, true, some, [], ◌∷◌, ◌++◌, ok, Returns, arith, codes, pos,
}
use custom_public_library_rl.Libc.{Bytes}
use custom_public_library_rl.Time.{Tm}
use custom_public_library_rl.Time.Server.{Replies, crlf, header_end, date, no_time}
use custom_public_library_rl.Time.Server.Session.{rl_get_time_from_server}
use custom_public_library_rl.Time.Server.Session.Closing.{Kept, server_closes}
use custom_public_library_rl.Time.Server.Pieces.{joined}
use custom_public_library_rl.Time.Server.Date.{HasDate}
use custom_public_library_rl.Time.Server.Session.Answer.{Connected, Arrives, server_date}
use custom_public_library_rl.Libc.Search.{find, is_prefix, FirstAt-find, Absent-find, Avoids-of}
use custom_public_library_rl.Tests.{host, IsText-of}

abbrev earlier : Tm
earlier = record { tm_sec = 1; tm_min = 2; tm_hour = 3; tm_mday = 4; tm_mon = 5; tm_year = 126 }

-- It takes any text for the same date.
abbrev strptime : Bytes → Tm → Bool × Tm
strptime text time = (true, record time { tm_mday = 6; tm_mon = 10; tm_year = 94 })

abbrev rest_of_response : Bytes
rest_of_response =
    codes "200 OK" ++ (crlf ++ (codes "Date: Sun, 06 Nov 1994 08:49:37 GMT" ++ header_end))

abbrev answering : Replies
answering = record {
  socket = some 3;
  recv_timeout_set = true;
  send_timeout_set = true;
  resolved = true;
  connects = true;
  sends = λ bytes. true;
  chunks = some (codes "HTTP/1.1 ") ∷ some rest_of_response ∷ [];
}

server_closes_example :
    Returns (Kept (9 ∷ [])) (rl_get_time_from_server strptime answering earlier (9 ∷ []))
server_closes_example = server_closes strptime answering earlier (9 ∷ [])

abbrev status : Bytes
status = codes "HTTP/1.1 "

answering-Connected : Connected answering 3
answering-Connected = record {
  opened = refl;
  receives_late = refl;
  sends_late = refl;
  named = refl;
  reached = refl;
  asked = refl;
}

answering-Arrives : Arrives answering (status ∷ []) rest_of_response
unfolding find is_prefix
answering-Arrives = record {
  more = [];
  before = codes "HTTP/1.1 200 OK" ++ (crlf ++ codes "Date: Sun, 06 Nov 1994 08:49:37 GMT");
  after = [];
  in_turn = refl;
  all_some = ((λ e. cc), tt);
  last_some = λ e. cc;
  text = IsText-of (joined (status ∷ []) ++ rest_of_response) refl;
  fits = omega arith;
  not_yet = Absent-find 13 (10 ∷ 13 ∷ 10 ∷ []) (joined (status ∷ [])) refl;
  ended = refl;
}

abbrev sunday : Bytes
sunday = codes "Sun, 06 Nov 1994 08:49:37 GMT"

response-HasDate : HasDate (joined (status ∷ []) ++ rest_of_response) sunday
unfolding find is_prefix
response-HasDate = record {
  before = codes "HTTP/1.1 200 OK" ++ crlf;
  after = crlf;
  version = codes "1.1 " ++ rest_of_response;
  line = status;
  fields = crlf ++ (date ++ (sunday ++ header_end));
  is_http = refl;
  is_ok = refl;
  dated =
      FirstAt-find b'D' (codes "ate: ") (joined (status ∷ []) ++ rest_of_response)
        (codes "HTTP/1.1 200 OK" ++ crlf) (sunday ++ (crlf ++ crlf)) refl refl;
  one_line = Avoids-of 13 sunday refl;
}

server_date_example :
    rl_get_time_from_server strptime answering earlier (9 ∷ [])
    ≡ ok ((pos 0, record no_time { tm_mday = 6; tm_mon = 10; tm_year = 94 }), 9 ∷ [])
server_date_example =
    server_date strptime answering 3 earlier (status ∷ []) rest_of_response sunday (9 ∷ [])
      answering-Connected answering-Arrives response-HasDate
