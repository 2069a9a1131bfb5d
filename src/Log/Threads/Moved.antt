-- ===== src/Log/Threads/Moved.antt =====
-- What a move does to the lock and to the file.
use custom_public_library_rl.Common.{
  ℕ, zero, suc, ◌+◌, ◌≤◌, ◌≡◌, ◌⊎◌, inl, inr, refl, ap, Bool, true, false, Option, none, some, List,
  [], ◌∷◌, ◌++◌, append_assoc, append-nil, ltb, Bool-cases, if◌then◌else◌, length, take, drop,
  take_all, arith,
}
use custom_public_library_rl.Libc.{Bytes}
use custom_public_library_rl.Log.{is_full}
use custom_public_library_rl.Log.Threads.{
  Writer, returned, ready, checking, emptying, resetting, writing, leaving, Reply, LogFile, Event,
  emptied, added, broken, MoveResult, goes_to, after_write, event_of, write_move,
}

-- Whether a thread is between the lock and the unlock, and what it has written there.
abbrev pub inside : Writer → ℕ
inside (returned success) = 0
inside (ready text) = 0
inside _ = 1

abbrev pub out : Writer → Bytes
out (writing text written) = take written text
out (leaving success text written) = take written text
out _ = []

-- A call that succeeds has written its whole text.
abbrev pub IsSound : Writer → Type 0
IsSound (leaving true text written) = length text ≤ written
IsSound _ = Unit

-- The content of a file after an event, and after those of a list, the latest first.
abbrev pub after_event : Event → Bytes → Bytes
after_event emptied content = []
after_event (added text) content = content ++ text
after_event (broken text written) content = content ++ take written text

abbrev pub replay : List Event → Bytes → Bytes
replay [] content = content
replay (e ∷ es) content = after_event e (replay es content)

abbrev pub holds : Bool → ℕ
holds true = 1
holds false = 0

-- What the lock and the file have to do with the threads: `n` of them and `k` others are under the
-- lock, and the `n` have written `b` there.
pub record Goes (k : ℕ) (b : Bytes) (s : LogFile) (n' : ℕ) (b' : Bytes) (s' : LogFile)
    (es : List Event) : Type 0 where
  pub lock : holds s'.locked ≡ n' + k
  pub file :
      ((k ≡ 0) × ((r : Bytes) → s.content ≡ r ++ b → s'.content ≡ replay es r ++ b'))
      ⊎ ((s'.content ≡ s.content) × (es ≡ []) × (b' ≡ b))

abbrev pub GoesTo : ℕ → Writer → LogFile → MoveResult → Type 0
GoesTo k w s (w', s', es) = IsSound w' × Goes k (out w) s (inside w') (out w') s' es

take_more : {A : Type 0} (n m : ℕ) (xs : List A) → take n xs ++ take m (drop n xs) ≡ take (n + m) xs
take_more zero m xs = let e : 0 + m ≡ m = omega arith in rw e refl
take_more {A} (suc n) m [] =
    let e : suc n + m ≡ suc (n + m) = omega arith in
    rw (e, take_all {A = A} m [] (omega arith)) refl
take_more (suc n) m (x ∷ xs) =
    let e : suc n + m ≡ suc (n + m) = omega arith in rw e (ap (λ l. x ∷ l) (take_more n m xs))

alone : (b : Bool) (k : ℕ) → holds b ≡ 1 + k → k ≡ 0
alone true k e = omega (arith, e)
alone false k e = absurd (omega (arith, e))

quietly :
    (k : ℕ) (w w' : Writer) (s s' : LogFile)
    → IsSound w'
    → holds s'.locked ≡ inside w' + k
    → s'.content ≡ s.content
    → out w' ≡ out w
    → GoesTo k w s (w', s', [])
quietly k w w' s s' sound l c o = (sound, record { lock = l; file = inr (c, refl, o) })

begins :
    (k : ℕ) (success : Bool) (text : Bytes) (s : LogFile) (b : Bool)
    → holds s.locked ≡ 0 + k
    → GoesTo k
        (returned success)
        s
        (if b then goes_to (ready text) s else goes_to (returned false) s)
begins k success text s true l = quietly k (returned success) (ready text) s s tt l refl refl
begins k success text s false l = quietly k (returned success) (returned false) s s tt l refl refl

locks :
    (k : ℕ) (text : Bytes) (s : LogFile) (b : Bool)
    → s.locked ≡ b
    → holds b ≡ k
    → GoesTo k
        (ready text)
        s
        (if b then goes_to (ready text) s else goes_to (checking text) (record s { locked = true }))
locks k text s true e l =
    quietly k (ready text) (ready text) s s tt (rw e (omega (arith, l))) refl refl
locks k text s false e l =
    quietly k (ready text) (checking text) s (record s { locked = true }) tt (omega (arith, l)) refl
      refl

writes :
    (k : ℕ) (ret : Option ℕ) (text : Bytes) (written : ℕ) (s : LogFile)
    → holds s.locked ≡ 1 + k
    → GoesTo k (writing text written) s (after_write ret text written s)
unfolding after_write
writes k none text written s l =
    quietly k (writing text written) (leaving false text written) s s tt l refl refl
writes k (some n) text written s l = (
  tt,
  record {
    lock = l;
    file = inl (alone s.locked k l, λ r e. rw (e, append_assoc, take_more written n text) refl);
  },
)

leaves :
    (k : ℕ) (success : Bool) (text : Bytes) (written : ℕ) (s : LogFile)
    → IsSound (leaving success text written)
    → holds s.locked ≡ 1 + k
    → GoesTo k
        (leaving success text written)
        s
        (returned success, record s { locked = false }, event_of success text written ∷ [])
unfolding event_of
leaves k true text written s sound l = (
  tt,
  record {
    lock = omega (arith, alone s.locked k l);
    file = inl (alone s.locked k l, λ r e. rw (e, take_all written text sound, append-nil) refl);
  },
)
leaves k false text written s sound l = (
  tt,
  record {
    lock = omega (arith, alone s.locked k l);
    file = inl (alone s.locked k l, λ r e. rw (e, append-nil) refl);
  },
)

pub write_move-GoesTo :
    (k : ℕ) (input : Reply) (w : Writer) (s : LogFile)
    → IsSound w
    → holds s.locked ≡ inside w + k
    → GoesTo k w s (write_move input w s)
unfolding write_move
write_move-GoesTo k input (returned success) s sound l = begins k success input.text s s.opened l
write_move-GoesTo k input (ready text) s sound l = locks k text s s.locked refl (omega (arith, l))
write_move-GoesTo k input (checking text) s sound l = elim (Bool-cases (is_full input.size)) [
  | inl e ↦ rw e (quietly k (checking text) (emptying text) s s tt l refl refl)
  | inr e ↦ rw e (quietly k (checking text) (writing text 0) s s tt l refl refl)
]
write_move-GoesTo k input (emptying text) s sound l = elim (Bool-cases input.truncated) [
  | inl e ↦ rw e (tt, record { lock = l; file = inl (alone s.locked k l, λ r e'. refl) })
  | inr e ↦ rw e (quietly k (emptying text) (leaving false text 0) s s tt l refl refl)
]
write_move-GoesTo k input (resetting text) s sound l = elim (Bool-cases input.moved) [
  | inl e ↦ rw e (quietly k (resetting text) (writing text 0) s s tt l refl refl)
  | inr e ↦ rw e (quietly k (resetting text) (leaving false text 0) s s tt l refl refl)
]
write_move-GoesTo k input (writing text written) s sound l =
    elim (Bool-cases (ltb written (length text))) [
      | inl e ↦ rw e (writes k input.ret text written s l)
      | inr e ↦ rw e (
          quietly k (writing text written) (leaving true text written) s s (ground arith) l refl
            refl)
    ]
write_move-GoesTo k input (leaving success text written) s sound l =
    leaves k success text written s sound l
