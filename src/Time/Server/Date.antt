-- ===== src/Time/Server/Date.antt =====
-- The date of a response.
use custom_public_library_rl.Common.{
  ℕ, ◌-◌, ◌<◌, ◌≡◌, ◌≢◌, refl, sym, ap, ◌∙◌, Bool, true, some, [], ◌∷◌, ◌++◌, append_assoc, ok,
  ◌>>=◌, length, length-append, replicate, arith, All-append, All-right, Public, codes,
}
use custom_public_library_rl.Libc.{Bytes, strstr}
use custom_public_library_rl.Libc.Access.{suffix-append, write-append, prefix-append}
use custom_public_library_rl.Libc.Text.{IsText, IsText-of, strlen-text, text_rest}
use custom_public_library_rl.Libc.Search.{
  Avoids, FirstAt, is_prefix, is_prefix-append, begins-is_prefix, find_least, strstr-find,
  strstr_first,
}
use custom_public_library_rl.Time.{Tm}
use custom_public_library_rl.Time.Server.{
  crlf, http, status_ok, date, no_time, parsed, read_date, find_date, after_status, read_response,
}
use custom_public_library_rl.Time.Server.Buffer.{behind_front}
use custom_public_library_rl.Time.Server.Faultless.{date-Avoids, date_text}
use custom_public_library_rl.Time.Server.Pieces.{array, array_end}

-- The text `h` of a response with the status 200 OK whose first field `Date` has the value `value`.
pub record HasDate (h value : Bytes) : Type 0 where
  pub before : Bytes
  pub after : Bytes
  pub version : Bytes
  pub line : Bytes
  pub fields : Bytes
  pub is_http : h ≡ http ++ version
  pub is_ok : h ≡ line ++ (status_ok ++ fields)
  pub dated : FirstAt date h before (value ++ (crlf ++ after))
  pub one_line : Avoids 13 value

first_crlf :
    (value after : Bytes)
    → Avoids 13 value
    → FirstAt crlf (date ++ (value ++ (crlf ++ after))) (date ++ value) after
first_crlf value after h = record {
  split = sym (append_assoc date value (crlf ++ after));
  first = λ pre post e.
      let whole = append_assoc date value (crlf ++ after) ∙ e in
      let (b, split) =
        behind_front 13 (date ++ value) (crlf ++ after) pre (10 ∷ post)
          (All-append (λ c. (c ≢ 13) × (c ≢ 0)) date value date-Avoids h) whole in
      omega (arith, ap length split, length-append (date ++ value) b);
}

Avoids-IsText : (ch : ℕ) (s : Bytes) → Avoids ch s → IsText s
Avoids-IsText ch [] h = tt
Avoids-IsText ch (c ∷ s) ((_, hc), h) = (hc, Avoids-IsText ch s h)

module _ ⦃public : Public⦄ (strptime : Bytes → Tm → Bool × Tm) where
  read_value :
      (time : Tm) (value y : Bytes)
      → IsText value
      → read_date strptime time ((date ++ value) ++ (crlf ++ y)) (some (length (date ++ value)))
        ≡ ok (parsed strptime (strptime value no_time))
  unfolding read_date
  read_value time value y h =
      rw
        (
          write-append (date ++ value) (13 ∷ []) (0 ∷ []) (10 ∷ y) refl,
          date_text value (0 ∷ 10 ∷ y),
          strlen-text value (10 ∷ y) h,
          prefix-append value (0 ∷ 10 ∷ y),
        )
        refl

  at_crlf :
      (time : Tm) (header : Bytes) (i : ℕ)
      → strstr header (crlf ++ (0 ∷ [])) ≡ ok (some i)
      → (do end ← strstr header (crlf ++ (0 ∷ [])); read_date strptime time header end)
        ≡ read_date strptime time header (some i)
  at_crlf time header i e = rw e refl

  find_value :
      (time : Tm) (before value after r : Bytes)
      → IsText (date ++ (value ++ (crlf ++ after)))
      → Avoids 13 value
      → find_date strptime time
          (before ++ (date ++ ((value ++ (crlf ++ after)) ++ (0 ∷ r))))
          (some (length before))
        ≡ ok (parsed strptime (strptime value no_time))
  unfolding find_date
  find_value time before value after r h hv =
      let header = date ++ (value ++ (crlf ++ after)) in
      let found =
        strstr_first crlf [] header r (date ++ value) after (λ e. cc) (IsText-of crlf refl) h
          (first_crlf value after hv) in
      let same : header ++ (0 ∷ r) ≡ (date ++ value) ++ (crlf ++ (after ++ (0 ∷ r))) =
        simp append_assoc in
      let rest = date ++ ((value ++ (crlf ++ after)) ++ (0 ∷ r)) in
      rw (suffix-append before rest) (
        at_crlf time rest (length (date ++ value)) found
        ∙ ap (λ s. read_date strptime time s (some (length (date ++ value)))) same
        ∙ read_value time value (after ++ (0 ∷ r)) (Avoids-IsText 13 value hv))

  pub read_response-HasDate :
      (time : Tm) (h value : Bytes)
      → HasDate h value
      → IsText h
      → length h < 2048
      → read_response strptime time (true, array h) ≡ ok (parsed strptime (strptime value no_time))
  unfolding read_response after_status
  read_response-HasDate time h value d text small =
      let r : Bytes = replicate (2047 - length h) 0 in
      let status_some : status_ok ≢ [] = λ e. cc in
      let date_some : date ≢ [] = λ e. cc in
      let tail = value ++ (crlf ++ d.after) in
      let starts = ap (is_prefix http) d.is_http ∙ is_prefix-append http d.version in
      let (i, status, _) = find_least b'2' (codes "00 OK") h d.line d.fields d.is_ok in
      let header_text = All-right (λ c. c ≢ 0) d.before (date ++ tail) (rw d.dated.split at text) in
      rw
        (
          array_end h small,
          begins-is_prefix http [] h r (IsText-of http refl) text,
          starts,
          strstr-find status_ok [] h r status_some (IsText-of status_ok refl) text,
          status,
          strstr_first date [] h r d.before tail date_some (IsText-of date refl) text d.dated,
        )
        (ap (λ s. find_date strptime time s (some (length d.before)))
            (ap (λ s. s ++ (0 ∷ r)) d.dated.split ∙ text_rest d.before date tail r)
          ∙ find_value time d.before value d.after r header_text d.one_line)
