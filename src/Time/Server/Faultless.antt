-- ===== src/Time/Server/Faultless.antt =====
-- The exchange with the server: the calls on the array of the response.
use custom_public_library_rl.Common.{
  ℕ, zero, suc, ◌+◌, ◌-◌, ◌≤◌, ◌<◌, ◌≡◌, ◌≢◌, refl, ap, ◌∙◌, Bool, true, false, not, Option, none,
  some, List, [], ◌∷◌, ◌++◌, append_assoc, Run, ok, ◌>>=◌, Returns, returns, Returns-then,
  Returns-map, length, length-take, take, replicate, length-replicate, leb, ◌==◌, if◌then◌else◌,
  arith, Bool-cases, inl, inr, ℤ, Public,
}
use custom_public_library_rl.Libc.{Bytes, write, suffix, strstr}
use custom_public_library_rl.Libc.Access.{suffix-append, write-append}
use custom_public_library_rl.Libc.Text.{IsText, IsText-of}
use custom_public_library_rl.Libc.Search.{Avoids, Avoids-of}
use custom_public_library_rl.Time.{Tm}
use custom_public_library_rl.Time.Server.{
  Replies, crlf, header_end, http, status_ok, date, unless_found, next_chunk, receive, read_date,
  find_date, after_status, read_response, exchange, request,
}
use custom_public_library_rl.Time.Server.Buffer.{
  Terminated, terminated, Located, strstr-Located, begins-Returns, strlen-prefix, write_front,
  behind_front,
}

-- The array: its last byte is never written.
abbrev IsResponse : Bytes → Type 0
IsResponse b = (body : Bytes) × (b ≡ body ++ (0 ∷ [])) × (length body ≡ 2047)

response-Terminated : (b : Bytes) → IsResponse b → Terminated b
response-Terminated b (body, e, size) = rw e (terminated body [])

write-IsResponse :
    (b : Bytes) (i : ℕ) (new : Bytes)
    → IsResponse b
    → i + length new ≤ 2047
    → Returns IsResponse (write b i new)
write-IsResponse b i new (body, e, size) h = rw e (
    Returns-map (write_front body (0 ∷ []) i new (omega (arith, size)))
      (λ b' (body', e', size'). (body', e', size' ∙ size)))

header_end-IsText : (header_end ≢ []) × IsText header_end
header_end-IsText = ((λ e. cc), IsText-of header_end refl)

abbrev Received : Bool × Bytes → Type 0
Received p = IsResponse p.1

unless_found-Received :
    (o : Option ℕ) (b : Bytes) (rest : Run (Bool × Bytes))
    → IsResponse b
    → Returns Received rest
    → Returns Received (unless_found o b rest)
unless_found-Received none b rest h hr = hr
unless_found-Received (some at) b rest h hr = returns h

chunk-Received :
    (rest : Bytes → ℕ → Run (Bool × Bytes)) (chunk : Option Bytes) (b : Bytes) (total : ℕ)
    → ((b : Bytes) (total : ℕ) → IsResponse b → total < 2047 → Returns Received (rest b total))
    → IsResponse b
    → total < 2047
    → Returns Received (next_chunk rest chunk b total)
unfolding next_chunk
chunk-Received rest none b total k h small = returns h
chunk-Received rest (some bytes) b total k h small =
    let got = take (2048 - total - 1) bytes in
    let room : total + length got ≤ 2047 = omega (arith, length-take (2048 - total - 1) bytes) in
    elim (Bool-cases (length got == 0)) [
      | inl e ↦ rw e (returns h)
      | inr e ↦ rw e (
          Returns-then (write-IsResponse b total got h room) (λ b' h'.
            elim (Bool-cases (leb 2047 (total + length got))) [
              | inl full ↦ rw full (returns h')
              | inr free ↦
                  let small' : total + length got < 2047 = ground arith in
                  rw free (
                    Returns-then
                      (write-IsResponse b' (total + length got) (0 ∷ []) h' (omega (arith, small')))
                      (λ b'' h''.
                        Returns-then
                          (strstr-Located header_end b'' header_end-IsText.0 header_end-IsText.1
                            (response-Terminated b'' h''))
                          (λ o _.
                            unless_found-Received o b'' (rest b'' (total + length got)) h''
                              (k b'' (total + length got) h'' small'))))
            ]))
    ]

receive-Received :
    (chunks : List (Option Bytes)) (b : Bytes) (total : ℕ)
    → IsResponse b
    → total < 2047
    → Returns Received (receive chunks b total)
unfolding receive
receive-Received [] b total h small = returns h
receive-Received (chunk ∷ chunks) b total h small =
    chunk-Received (receive chunks) chunk b total (receive-Received chunks) h small

-- The call with the needle `n`, followed by a step that does not fault.
search {ℓ} :
    {A : Type ℓ} (n b : Bytes) (k : Option ℕ → Run A)
    → n ≢ []
    → IsText n
    → Terminated b
    → ((o : Option ℕ) → Located n b o → Returns (λ (x : A). Unit {0}) (k o))
    → Returns (λ (x : A). Unit {0}) (do o ← strstr b (n ++ (0 ∷ [])); k o)
search n b k ne hn h step = Returns-then (strstr-Located n b ne hn h) step

pub date-Avoids : Avoids 13 date
date-Avoids = Avoids-of 13 date refl

pub date_text : (b x : Bytes) → suffix ((date ++ b) ++ x) 6 ≡ ok (b ++ x)
date_text b x = ap (λ s. suffix s 6) (append_assoc date b x) ∙ suffix-append date (b ++ x)

abbrev zeros : ℕ → Bytes
zeros n = replicate n 0

replicate_end : (n : ℕ) → zeros (suc n) ≡ zeros n ++ (0 ∷ [])
replicate_end zero = refl
replicate_end (suc n) = ap (λ s. 0 ∷ s) (replicate_end n)

cleared_IsResponse : IsResponse (zeros 2048)
cleared_IsResponse = (zeros 2047, replicate_end 2047, length-replicate {A = ℕ} 2047 0)

module _ ⦃public : Public⦄ (strptime : Bytes → Tm → Bool × Tm) where
  abbrev Fine : Run (ℤ × Tm) → Type 0
  Fine m = Returns (λ (x : ℤ × Tm). Unit {0}) m

  rejected : (time : Tm) (header : Bytes) → Fine (read_date strptime time header none)
  unfolding read_date
  rejected time header = returns tt

  read_date_at :
      (time : Tm) (header b y : Bytes) (i : ℕ)
      → header ≡ (date ++ b) ++ (crlf ++ y)
      → i ≡ length (date ++ b)
      → Fine (read_date strptime time header (some i))
  unfolding read_date
  read_date_at time header b y i e ei =
      let cut = write-append (date ++ b) (13 ∷ []) (0 ∷ []) (10 ∷ y) refl in
      rw (e, ei, cut, date_text b (0 ∷ 10 ∷ y))
        (Returns-then (strlen-prefix (b ++ (0 ∷ 10 ∷ y)) (terminated b (10 ∷ y)))
          (λ n h. Returns-then h (λ text _. returns tt)))

  read_date-Fine :
      (time : Tm) (post r : Bytes) (o : Option ℕ)
      → Located crlf (date ++ (post ++ (0 ∷ r))) o
      → Fine (read_date strptime time (date ++ (post ++ (0 ∷ r))) o)
  read_date-Fine time post r none h = rejected time (date ++ (post ++ (0 ∷ r)))
  read_date-Fine time post r (some i) (pre, post', r', ei, e) =
      let (b, split) =
        behind_front 13 date (post ++ (0 ∷ r)) pre (10 ∷ (post' ++ (0 ∷ r'))) date-Avoids e in
      read_date_at time (date ++ (post ++ (0 ∷ r))) b (post' ++ (0 ∷ r')) i
        (e ∙ ap (λ p. p ++ (crlf ++ (post' ++ (0 ∷ r')))) split) (ei ∙ ap length split)

  find_date-Fine :
      (time : Tm) (b : Bytes) (o : Option ℕ) → Located date b o → Fine (find_date strptime time b o)
  unfolding find_date
  find_date-Fine time b none h = returns tt
  find_date-Fine time b (some i) (pre, post, r, ei, e) =
      rw (e, ei, suffix-append pre (date ++ (post ++ (0 ∷ r))))
        (search crlf (date ++ (post ++ (0 ∷ r)))
          (read_date strptime time (date ++ (post ++ (0 ∷ r)))) (λ e. cc) (IsText-of crlf refl)
          (rw (append_assoc date post (0 ∷ r)) at (terminated (date ++ post) r))
          (read_date-Fine time post r))

  after_status-Fine :
      (time : Tm) (b : Bytes) (o : Option ℕ) → Terminated b → Fine (after_status strptime time b o)
  unfolding after_status
  after_status-Fine time b none h = returns tt
  after_status-Fine time b (some i) h =
      search date b (find_date strptime time b) (λ e. cc) (IsText-of date refl) h
        (find_date-Fine time b)

  read_response-Fine :
      (time : Tm) (p : Bool × Bytes) → Received p → Fine (read_response strptime time p)
  unfolding read_response
  read_response-Fine time (false, b) h = returns tt
  read_response-Fine time (true, b) h =
      let h' = response-Terminated b h in
      Returns-then (begins-Returns http b (IsText-of http refl) h') (λ is_http _.
        elim (Bool-cases is_http) [
          | inl e ↦ rw e (
              search status_ok b (after_status strptime time b) (λ e. cc) (IsText-of status_ok refl)
                h' (λ o _. after_status-Fine time b o h'))
          | inr e ↦ rw e (returns tt)
        ])

  guarded :
      (b : Bool) (result : ℤ × Tm) (m : Run (ℤ × Tm))
      → Fine m
      → Fine (if not b then ok result else m)
  guarded true result m h = h
  guarded false result m h = returns tt

  pub exchange-Fine : (replies : Replies) (time : Tm) → Fine (exchange strptime replies time)
  unfolding exchange
  exchange-Fine replies time = guarded replies.recv_timeout_set _ _ (
      guarded replies.send_timeout_set _ _ (
        guarded replies.resolved _ _ (
          guarded replies.connects _ _ (
            guarded (replies.sends request) _ _ (
              Returns-then
                (receive-Received replies.chunks (zeros 2048) 0 cleared_IsResponse (omega arith))
                (λ p h. read_response-Fine time p h))))))
