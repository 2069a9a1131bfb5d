-- ===== src/Log/Threads/Entries.antt =====
-- Runs of several threads that write to the log.
use custom_public_library_rl.Common.{
  ℕ, zero, suc, ◌+◌, ◌≡◌, inl, inr, refl, ap, true, false, List, [], ◌∷◌, ◌++◌, append-nil, arith,
  All,
}
use custom_public_library_rl.Libc.{Bytes}
use custom_public_library_rl.Log.Threads.{
  Writer, returned, ready, leaving, Reply, LogFile, Event, MoveResult, write_move, write_act,
  all_of, behind,
}
use custom_public_library_rl.Log.Threads.Moved.{
  inside, out, IsSound, replay, after_event, holds, Goes, GoesTo, write_move-GoesTo,
}

-- How many threads are under the lock, and what these have written there.
abbrev pub under_lock : List Writer → ℕ
under_lock [] = 0
under_lock (w ∷ ws) = inside w + under_lock ws

abbrev pub written_by : List Writer → Bytes
written_by [] = []
written_by (w ∷ ws) = out w ++ written_by ws

abbrev ListGoesTo : ℕ → List Writer → LogFile → List Writer × LogFile × List Event → Type 0
ListGoesTo k ws s (ws', s', es) =
    All IsSound ws' × Goes k (written_by ws) s (under_lock ws') (written_by ws') s' es

outside-out : (w : Writer) → inside w ≡ 0 → out w ≡ []
outside-out (returned success) e = refl
outside-out (ready text) e = refl
outside-out _ e = absurd (omega (arith, e))

none_written : (ws : List Writer) → under_lock ws ≡ 0 → written_by ws ≡ []
none_written [] e = refl
none_written (w ∷ ws) e =
    rw (outside-out w (omega (arith, e)), none_written ws (omega (arith, e))) refl

first_goes :
    (k : ℕ) (w : Writer) (ws : List Writer) (s : LogFile) (o : MoveResult)
    → All IsSound ws
    → GoesTo (under_lock ws + k) w s o
    → ListGoesTo k (w ∷ ws) s (all_of ws o)
first_goes k w ws s (w', s', es) sounds (sound, g) = (
  (sound, sounds),
  record {
    lock = omega (arith, g.lock);
    file = elim g.file [
      | inl (e, f) ↦
          let nothing : written_by ws ≡ [] = none_written ws (omega (arith, e)) in
          inl (
            omega (arith, e),
            λ r c. rw (nothing, append-nil) (f r (rw (nothing, append-nil) at c)),
          )
      | inr (c, e, o) ↦ inr (c, e, ap (λ b. b ++ written_by ws) o)
    ];
  },
)

later_goes :
    (k : ℕ) (w : Writer) (ws : List Writer) (s : LogFile) (o : List Writer × LogFile × List Event)
    → IsSound w
    → ListGoesTo (inside w + k) ws s o
    → ListGoesTo k (w ∷ ws) s (behind w o)
later_goes k w ws s (ws', s', es) sound (sounds, g) = (
  (sound, sounds),
  record {
    lock = omega (arith, g.lock);
    file = elim g.file [
      | inl (e, f) ↦
          let nothing : out w ≡ [] = outside-out w (omega (arith, e)) in
          inl (omega (arith, e), λ r c. rw nothing (f r (rw nothing at c)))
      | inr (c, e, o) ↦ inr (c, e, ap (λ b. out w ++ b) o)
    ];
  },
)

write_act-GoesTo :
    (k i : ℕ) (input : Reply) (ws : List Writer) (s : LogFile)
    → All IsSound ws
    → holds s.locked ≡ under_lock ws + k
    → ListGoesTo k ws s (write_act i input ws s)
unfolding write_act
write_act-GoesTo k i input [] s sounds l = (tt, record { lock = l; file = inr (refl, refl, refl) })
write_act-GoesTo k zero input (w ∷ ws) s (sound, sounds) l =
    first_goes k w ws s (write_move input w s) sounds
      (write_move-GoesTo (under_lock ws + k) input w s sound (omega (arith, l)))
write_act-GoesTo k (suc i) input (w ∷ ws) s (sound, sounds) l =
    later_goes k w ws s (write_act i input ws s) sound
      (write_act-GoesTo (inside w + k) i input ws s sounds (omega (arith, l)))

-- The states that moves lead to, with what the calls have done to the file on the way, the latest
-- first.
pub data Reach (ws : List Writer) (s : LogFile) : List Event → List Writer → LogFile → Type 0 where
  start : Reach ws s [] ws s
  later :
      {es : List Event} {ws' : List Writer} {s' : LogFile}
      → Reach ws s es ws' s'
      → (i : ℕ) (input : Reply)
      → Reach ws s
          ((write_act i input ws' s').2 ++ es)
          (write_act i input ws' s').0
          (write_act i input ws' s').1

replay-append :
    (es es' : List Event) (content : Bytes)
    → replay (es ++ es') content ≡ replay es (replay es' content)
replay-append [] es' content = refl
replay-append (e ∷ es) es' content = ap (after_event e) (replay-append es es' content)

outside-IsSound : (w : Writer) → inside w ≡ 0 → IsSound w
outside-IsSound (leaving true text written) e = absurd (omega (arith, e))
outside-IsSound _ e = tt

All-outside-IsSound : (ws : List Writer) → under_lock ws ≡ 0 → All IsSound ws
All-outside-IsSound [] e = tt
All-outside-IsSound (w ∷ ws) e =
    (outside-IsSound w (omega (arith, e)), All-outside-IsSound ws (omega (arith, e)))

pub record Consistent (es : List Event) (content : Bytes) (ws : List Writer) (s : LogFile)
    : Type 0 where
  pub sound : All IsSound ws
  pub lock : holds s.locked ≡ under_lock ws
  pub file : s.content ≡ replay es content ++ written_by ws

moved-Consistent :
    (es : List Event) (content : Bytes) (ws : List Writer) (s : LogFile)
    (o : List Writer × LogFile × List Event)
    → Consistent es content ws s
    → ListGoesTo 0 ws s o
    → Consistent (o.2 ++ es) content o.0 o.1
moved-Consistent es content ws s (ws', s', es') c (sound, g) = record {
  sound = sound;
  lock = omega (arith, g.lock);
  file = rw (replay-append es' es content) (elim g.file [
    | inl (e, f) ↦ f (replay es content) c.file
    | inr (same, none, b) ↦ rw (same, none, b) c.file
  ]);
}

-- From a state where no thread is under the lock and the mutex is free, any order of moves, with
-- any answers of the system, leads to a state where the mutex is held while exactly one thread is
-- under it and free while none is, and where the file holds what the calls that are over made of
-- it one after the other, each with its whole text, or where it failed the part that it wrote, and
-- emptied where it was emptied, and behind that what the thread under the lock has written so far.
-- A call that is about to succeed has written its whole text.
pub threads-Consistent :
    {ws : List Writer} {s : LogFile} {es : List Event} {ws' : List Writer} {s' : LogFile}
    → under_lock ws ≡ 0
    → s.locked ≡ false
    → Reach ws s es ws' s'
    → Consistent es s.content ws' s'
threads-Consistent {ws = ws} {s = s} e l start = record {
  sound = All-outside-IsSound ws e;
  lock = rw (l, e) refl;
  file = rw (none_written ws e, append-nil) refl;
}
threads-Consistent {s = s} e l (later {es = es} {ws' = ws'} {s' = s'} r i input) =
    let c = threads-Consistent e l r in
    moved-Consistent es s.content ws' s' (write_act i input ws' s') c
      (write_act-GoesTo 0 i input ws' s' c.sound (omega (arith, c.lock)))
