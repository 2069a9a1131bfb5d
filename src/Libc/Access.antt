-- ===== src/Libc/Access.antt =====
-- Reads, writes and pointer steps inside a buffer that is given as an append.
use custom_public_library_rl.Common.{
  ℕ, zero, suc, ◌+◌, ◌≤◌, ◌≡◌, refl, [], ◌∷◌, ◌++◌, Run, ok, fault, ◌<◌, ◌≢◌, ◌>>=◌,
  take-append-drop, arith, length, take, drop, length-append, drop-append, append_assoc,
}
use custom_public_library_rl.Libc.{Bytes, prefix, suffix, write, memmove}

pub prefix-append : (xs ys : Bytes) → prefix (length xs) (xs ++ ys) ≡ ok xs
unfolding prefix
prefix-append [] ys = refl
prefix-append (x ∷ xs) ys = rw (prefix-append xs ys)

pub suffix-append : (xs ys : Bytes) → suffix (xs ++ ys) (length xs) ≡ ok ys
unfolding suffix
suffix-append [] ys = refl
suffix-append (x ∷ xs) ys = suffix-append xs ys

-- A prefix, a suffix or a write within the buffer never faults.
pub prefix-take : (n : ℕ) (s : Bytes) → n ≤ length s → prefix n s ≡ ok (take n s)
unfolding prefix
prefix-take zero s h = refl
prefix-take (suc n) [] h = absurd (omega arith)
prefix-take (suc n) (c ∷ s) h = rw (prefix-take n s (omega arith))

pub suffix-drop : (s : Bytes) (i : ℕ) → i ≤ length s → suffix s i ≡ ok (drop i s)
unfolding suffix
suffix-drop s zero h = refl
suffix-drop [] (suc i) h = absurd (omega arith)
suffix-drop (c ∷ s) (suc i) h = suffix-drop s i (omega arith)

pub write_within :
    (s : Bytes) (i : ℕ) (new : Bytes)
    → i + length new ≤ length s
    → write s i new ≡ ok (take i s ++ (new ++ drop (length new) (drop i s)))
unfolding write
write_within s zero [] h = refl
write_within [] zero (n ∷ new) h = absurd (omega arith)
write_within (c ∷ s) zero (n ∷ new) h = rw (write_within s zero new (omega arith))
write_within [] (suc i) new h = absurd (omega arith)
write_within (c ∷ s) (suc i) new h = rw (write_within s i new (omega arith))

-- A write that ends past the buffer is a fault.
pub write_overflow :
    (s : Bytes) (i : ℕ) (new : Bytes) → new ≢ [] → length s < i + length new → write s i new ≡ fault
unfolding write
write_overflow s zero [] ne h = absurd (ne refl)
write_overflow [] zero (n ∷ new) ne h = refl
write_overflow (c ∷ s) zero (n ∷ []) ne h = absurd (omega arith)
write_overflow (c ∷ s) zero (n ∷ m ∷ new) ne h =
    rw (write_overflow s zero (m ∷ new) (cc) (omega arith))
write_overflow [] (suc i) new ne h = refl
write_overflow (c ∷ s) (suc i) new ne h = rw (write_overflow s i new ne (omega arith))

-- The same behind a first part of the buffer.
pub suffix_past : (xs gap zs : Bytes) → suffix (xs ++ (gap ++ zs)) (length xs + length gap) ≡ ok zs
suffix_past xs gap zs =
    rw (← length-append xs gap, ← append_assoc xs gap zs) (suffix-append (xs ++ gap) zs)

pub write_past :
    (xs s new : Bytes)
    → length new ≤ length s
    → write (xs ++ s) (length xs) new ≡ ok (xs ++ (new ++ drop (length new) s))
unfolding write
write_past [] s new h = write_within s 0 new (omega arith)
write_past (x ∷ xs) s new h = rw (write_past xs s new h)

-- A write of as many bytes as a middle part has replaces that part.
pub write-append :
    (xs ys zs ws : Bytes)
    → length ys ≡ length zs
    → write (xs ++ (ys ++ ws)) (length xs) zs ≡ ok (xs ++ (zs ++ ws))
write-append xs ys zs ws h =
    rw (write_past xs (ys ++ ws) zs (omega (arith, length-append ys ws)), ← h, drop-append ys ws)

-- `memmove` inside a buffer copies the part `ys` over as many bytes at the end of `xs`.
pub memmove_down :
    (xs gap ys ws : Bytes) (n from : ℕ)
    → n ≡ length ys
    → from ≡ length xs + length gap
    → memmove (xs ++ (gap ++ (ys ++ ws))) (length xs) from n
      ≡ ok (xs ++ (ys ++ drop (length ys) (gap ++ (ys ++ ws))))
unfolding memmove
memmove_down xs gap ys ws n from en ef =
    rw (en, ef, suffix_past xs gap (ys ++ ws), prefix-append ys ws)
      (write_past xs (gap ++ (ys ++ ws)) ys
        (omega (arith, length-append gap (ys ++ ws), length-append ys ws)))

drop_past : (ys ws : Bytes) (w : ℕ) → drop (suc (length ys)) (ys ++ w ∷ ws) ≡ ws
drop_past [] ws w = refl
drop_past (y ∷ ys) ws w = drop_past ys ws w

-- Moving `ys` up by one place overwrites the byte behind it.
memmove_up :
    (xs ys ws : Bytes) (y w : ℕ)
    → memmove (xs ++ (y ∷ (ys ++ w ∷ ws))) (length xs + 1) (length xs) (suc (length ys))
      ≡ ok (xs ++ (y ∷ (y ∷ (ys ++ ws))))
unfolding memmove
memmove_up xs ys ws y w =
    let size : length xs + 1 ≡ length (xs ++ y ∷ []) = omega (arith, length-append xs (y ∷ [])) in
    let store : write (xs ++ (y ∷ (ys ++ w ∷ ws))) (length xs + 1) (y ∷ ys)
        ≡ ok (xs ++ (y ∷ (y ∷ (ys ++ ws)))) =
      rw (
        size,
        ← append_assoc xs (y ∷ []) (ys ++ w ∷ ws),
        write_past (xs ++ y ∷ []) (ys ++ w ∷ ws) (y ∷ ys)
            (omega (arith, length-append ys (w ∷ ws))),
        drop_past ys ws w,
        append_assoc xs (y ∷ []) (y ∷ (ys ++ ws)),
      ) in
    rw (suffix-append xs (y ∷ (ys ++ w ∷ ws)), prefix-append (y ∷ ys) (w ∷ ws)) store

-- The two steps of an insertion: make room, then store the byte.
pub insert_byte {ℓ} :
    {A : Type ℓ} (xs ys ws : Bytes) (w ch n : ℕ) (k : Bytes → Run A)
    → n ≡ length ys
    → (memmove (xs ++ (ys ++ w ∷ ws)) (length xs + 1) (length xs) n >>= λ s.
        write s (length xs) (ch ∷ []) >>= k)
      ≡ k (xs ++ ch ∷ (ys ++ ws))
unfolding memmove prefix
insert_byte xs [] ws w ch n k e = rw (
  e,
  suffix-append xs (w ∷ ws),
  write_within (xs ++ w ∷ ws) (length xs + 1) [] (omega (arith, length-append xs (w ∷ ws))),
  take-append-drop,
  write-append xs (w ∷ []) (ch ∷ []) ws refl,
)
insert_byte xs (y ∷ ys) ws w ch n k e =
    rw (e, memmove_up xs ys ws y w, write-append xs (y ∷ []) (ch ∷ []) (y ∷ (ys ++ ws)) refl)
