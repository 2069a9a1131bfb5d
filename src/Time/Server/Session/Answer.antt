-- ===== src/Time/Server/Session/Answer.antt =====
-- The whole call with a server that answers.
use custom_public_library_rl.Common.{
  ℕ, ◌<◌, ◌≡◌, ◌≢◌, refl, ap, ◌∙◌, Bool, true, Option, some, List, [], ◌∷◌, ◌++◌, ok, length,
  replicate, arith, All, ℤ, Public,
}
use custom_public_library_rl.Libc.{Bytes}
use custom_public_library_rl.Libc.Text.{IsText}
use custom_public_library_rl.Libc.Search.{Absent, find_least}
use custom_public_library_rl.Net.{Fds, opens, closes_last}
use custom_public_library_rl.Time.{Tm}
use custom_public_library_rl.Time.Server.{
  Replies, header_end, request, receive, no_time, parsed, exchange,
}
use custom_public_library_rl.Time.Server.Pieces.{array, somes, joined, IsPiece, receive_lem}
use custom_public_library_rl.Time.Server.Date.{HasDate, read_response-HasDate}
use custom_public_library_rl.Time.Server.Session.{with_socket, rl_get_time_from_server}

-- Every call on the socket succeeds.
pub record Connected (replies : Replies) (fd : ℕ) : Type 0 where
  pub opened : replies.socket ≡ some fd
  pub receives_late : replies.recv_timeout_set ≡ true
  pub sends_late : replies.send_timeout_set ≡ true
  pub named : replies.resolved ≡ true
  pub reached : replies.connects ≡ true
  pub asked : replies.sends request ≡ true

-- The pieces, and then `b`, make a text, which fits the array; the header ends in `b`.
pub record Arrives (replies : Replies) (pieces : List Bytes) (b : Bytes) : Type 0 where
  pub more : List (Option Bytes)
  pub before : Bytes
  pub after : Bytes
  pub in_turn : replies.chunks ≡ somes pieces ++ (some b ∷ more)
  pub all_some : All IsPiece pieces
  pub last_some : b ≢ []
  pub text : IsText (joined pieces ++ b)
  pub fits : length (joined pieces ++ b) < 2047
  pub not_yet : Absent header_end (joined pieces)
  pub ended : joined pieces ++ b ≡ before ++ (header_end ++ after)

module _ ⦃public : Public⦄ (strptime : Bytes → Tm → Bool × Tm) where
  received :
      (replies : Replies) (pieces : List Bytes) (b : Bytes)
      → Arrives replies pieces b
      → receive replies.chunks (replicate 2048 0) 0 ≡ ok (true, array (joined pieces ++ b))
  received replies pieces b a =
      let (i, found, _) =
        find_least 13 (10 ∷ 13 ∷ 10 ∷ []) (joined pieces ++ b) a.before a.after a.ended in
      ap (λ chunks. receive chunks (replicate 2048 0) 0) a.in_turn
      ∙ receive_lem pieces [] b a.more i a.all_some a.last_some a.fits a.text a.not_yet found

  exchange_lem :
      (replies : Replies) (fd : ℕ) (time : Tm) (pieces : List Bytes) (b value : Bytes)
      → Connected replies fd
      → Arrives replies pieces b
      → HasDate (joined pieces ++ b) value
      → exchange strptime replies time ≡ ok (parsed strptime (strptime value no_time))
  unfolding exchange
  exchange_lem replies fd time pieces b value c a d =
      rw (c.receives_late, c.sends_late, c.named, c.reached, c.asked, received replies pieces b a)
        (read_response-HasDate strptime time (joined pieces ++ b) value d a.text
          (omega (arith, a.fits)))

  closed_result :
      (replies : Replies) (fd : ℕ) (time : Tm) (fds : Fds) (result : ℤ × Tm)
      → exchange strptime replies time ≡ ok result
      → with_socket strptime (some fd) replies time fds ≡ ok (result, fds)
  unfolding with_socket opens
  closed_result replies fd time fds result e = rw (e, closes_last fd fds) refl

  -- Where every call on the socket succeeds, the pieces that arrive are not empty and make a text
  -- below 2047 bytes, the header ends in the last piece and not before it, and the text starts
  -- with `HTTP/`, has `200 OK`, and has a first field `Date: ` whose line has the value `value`,
  -- `rl_get_time_from_server` never faults, closes the socket, and returns what `strptime` makes
  -- of `value`: the time with RL_SUCCESS where it reads it, else RL_FAILED, however the text is
  -- divided.
  pub server_date :
      (replies : Replies) (fd : ℕ) (time : Tm) (pieces : List Bytes) (b value : Bytes) (fds : Fds)
      → Connected replies fd
      → Arrives replies pieces b
      → HasDate (joined pieces ++ b) value
      → rl_get_time_from_server strptime replies time fds
        ≡ ok (parsed strptime (strptime value no_time), fds)
  unfolding rl_get_time_from_server
  server_date replies fd time pieces b value fds c a d =
      ap (λ o. with_socket strptime o replies time fds) c.opened
      ∙ closed_result replies fd time fds (parsed strptime (strptime value no_time))
          (exchange_lem replies fd time pieces b value c a d)
