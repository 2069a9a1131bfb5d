-- ===== src/Time/Server/Pieces.antt =====
-- A response that arrives in pieces, in the array.
use custom_public_library_rl.Common.{
  ℕ, zero, suc, ◌+◌, ◌-◌, ◌≤◌, ◌<◌, ◌≡◌, ◌≢◌, refl, sym, ap, ◌∙◌, Bool, true, Option, none, some,
  List, [], ◌∷◌, ◌++◌, append_assoc, Run, ok, length, length-append, take_all, drop, replicate,
  length-replicate, lt→leb_false, ne→==, arith, Option-cases, inl, inr, All, All-left,
}
use custom_public_library_rl.Libc.{Bytes, write, strstr}
use custom_public_library_rl.Libc.Access.{write_past}
use custom_public_library_rl.Libc.Text.{IsText, IsText-of}
use custom_public_library_rl.Libc.Search.{Absent, find, find_sound, strstr-find}
use custom_public_library_rl.Time.Server.{header_end, unless_found, next_chunk, receive}

-- The array that holds `acc` in front of zeros.
abbrev pub array : Bytes → Bytes
array acc = acc ++ replicate (2048 - length acc) 0

abbrev pub somes : List Bytes → List (Option Bytes)
somes [] = []
somes (b ∷ bs) = some b ∷ somes bs

abbrev pub joined : List Bytes → Bytes
joined [] = []
joined (b ∷ bs) = b ++ joined bs

zeros_of : (m n : ℕ) → m ≡ n → replicate {A = ℕ} m 0 ≡ replicate n 0
zeros_of m n e = ap (λ k. replicate k 0) e

drop_zeros : (k m : ℕ) → drop k (replicate {A = ℕ} m 0) ≡ replicate (m - k) 0
drop_zeros zero m = zeros_of m (m - 0) (omega arith)
drop_zeros (suc k) zero = zeros_of 0 (0 - suc k) (omega arith)
drop_zeros (suc k) (suc m) = drop_zeros k m ∙ zeros_of (m - k) (suc m - suc k) (omega arith)

-- The array ends a text that is shorter than 2048 bytes.
pub array_end : (t : Bytes) → length t < 2048 → array t ≡ t ++ (0 ∷ replicate (2047 - length t) 0)
array_end t h =
    let size : 2048 - length t ≡ suc (2047 - length t) = omega arith in
    ap (λ n. t ++ replicate n 0) size

store :
    (acc b : Bytes)
    → length acc + length b < 2048
    → write (array acc) (length acc) b ≡ ok (array (acc ++ b))
store acc b h =
    let left : 2048 - length acc - length b ≡ 2048 - length (acc ++ b) =
      omega (arith, length-append acc b) in
    write_past acc (replicate (2048 - length acc) 0) b
      (omega (arith, length-replicate {A = ℕ} (2048 - length acc) 0))
    ∙ ap (λ z. ok (acc ++ (b ++ z))) (drop_zeros (length b) (2048 - length acc))
    ∙ ap (λ n. ok (acc ++ (b ++ replicate n 0))) left
    ∙ ap ok (sym (append_assoc acc b (replicate (2048 - length (acc ++ b)) 0)))

terminate : (t : Bytes) → length t < 2048 → write (array t) (length t) (0 ∷ []) ≡ ok (array t)
terminate t h =
    ap (λ s. write s (length t) (0 ∷ [])) (array_end t h)
    ∙ write_past t (0 ∷ replicate (2047 - length t) 0) (0 ∷ []) (omega arith)
    ∙ ap ok (sym (array_end t h))

search_end :
    (t : Bytes)
    → length t < 2048
    → IsText t
    → strstr (array t) (header_end ++ (0 ∷ [])) ≡ ok (find header_end t)
search_end t small h =
    ap (λ s. strstr s (header_end ++ (0 ∷ []))) (array_end t small)
    ∙ strstr-find header_end [] t (replicate (2047 - length t) 0) (λ e. cc)
        (IsText-of header_end refl) h

piece_lem :
    (rest : Bytes → ℕ → Run (Bool × Bytes)) (acc b : Bytes)
    → b ≢ []
    → length acc + length b < 2047
    → IsText (acc ++ b)
    → next_chunk rest (some b) (array acc) (length acc)
      ≡ unless_found
          (find header_end (acc ++ b))
          (array (acc ++ b))
          (rest (array (acc ++ b)) (length (acc ++ b)))
unfolding next_chunk
piece_lem rest acc [] ne small h = absurd (ne refl)
piece_lem rest acc (c ∷ b) ne small h =
    let size = length-append acc (c ∷ b) in
    let total : length acc + length (c ∷ b) ≡ length (acc ++ (c ∷ b)) = omega (arith, size) in
    rw
      (
        take_all (2048 - length acc - 1) (c ∷ b) (omega arith),
        ne→== (length (c ∷ b)) 0 (λ e. omega arith),
        store acc (c ∷ b) (omega arith),
        lt→leb_false 2047 (length acc + length (c ∷ b)) small,
        total,
        terminate (acc ++ (c ∷ b)) (omega (arith, size)),
        search_end (acc ++ (c ∷ b)) (omega (arith, size)) h,
      )
      refl

Absent-none : (n t rest : Bytes) → Absent n (t ++ rest) → find n t ≡ none
Absent-none n t rest h = elim (Option-cases (find n t)) [
  | inl e ↦ e
  | inr (i, e) ↦
      let (pre, post, split, _) = find_sound n t e in
      absurd (h pre (post ++ rest) (ap (λ s. s ++ rest) split ∙ simp append_assoc))
]

-- Texts that arrive one by one, the end of the header with the last.
abbrev pub IsPiece : Bytes → Type 0
IsPiece b = b ≢ []

last_piece :
    (acc b : Bytes) (more : List (Option Bytes)) (i : ℕ)
    → b ≢ []
    → length (acc ++ b) < 2047
    → IsText (acc ++ b)
    → find header_end (acc ++ b) ≡ some i
    → receive (some b ∷ more) (array acc) (length acc) ≡ ok (true, array (acc ++ b))
unfolding receive
last_piece acc b more i ne small h e =
    piece_lem (receive more) acc b ne (omega (arith, length-append acc b, small)) h
    ∙ ap
        (λ o.
          unless_found o (array (acc ++ b)) (receive more (array (acc ++ b)) (length (acc ++ b))))
        e

pub receive_lem :
    (pieces : List Bytes) (acc b : Bytes) (more : List (Option Bytes)) (i : ℕ)
    → All IsPiece pieces
    → b ≢ []
    → length (acc ++ (joined pieces ++ b)) < 2047
    → IsText (acc ++ (joined pieces ++ b))
    → Absent header_end (acc ++ joined pieces)
    → find header_end (acc ++ (joined pieces ++ b)) ≡ some i
    → receive (somes pieces ++ (some b ∷ more)) (array acc) (length acc)
      ≡ ok (true, array (acc ++ (joined pieces ++ b)))
unfolding receive
receive_lem [] acc b more i hp ne small h absent e = last_piece acc b more i ne small h e
receive_lem (p ∷ pieces) acc b more i (np, hp) ne small h absent e =
    let whole : acc ++ ((p ++ joined pieces) ++ b) ≡ (acc ++ p) ++ (joined pieces ++ b) =
      simp append_assoc in
    let part : acc ++ (p ++ joined pieces) ≡ (acc ++ p) ++ joined pieces =
      sym (append_assoc acc p (joined pieces)) in
    let text : IsText (acc ++ p) =
      All-left (λ c. c ≢ 0) (acc ++ p) (joined pieces ++ b) (rw whole at h) in
    let room : length (acc ++ p) ≤ length (acc ++ ((p ++ joined pieces) ++ b)) =
      omega (arith, ap length whole, length-append (acc ++ p) (joined pieces ++ b)) in
    piece_lem (receive (somes pieces ++ (some b ∷ more))) acc p np
      (omega (arith, length-append acc p, room, small)) text
    ∙ ap
        (λ o.
          unless_found o (array (acc ++ p))
            (receive (somes pieces ++ (some b ∷ more)) (array (acc ++ p)) (length (acc ++ p))))
        (Absent-none header_end (acc ++ p) (joined pieces) (rw part at absent))
    ∙ receive_lem pieces (acc ++ p) b more i hp ne (rw whole at small) (rw whole at h)
        (rw part at absent) (rw whole at e)
    ∙ ap (λ t. ok (true, array t)) (sym whole)
