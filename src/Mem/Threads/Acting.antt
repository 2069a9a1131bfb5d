-- ===== src/Mem/Threads/Acting.antt =====
-- One move among several threads.
use custom_public_library_rl.Common.{
  ℕ, zero, suc, ◌≡◌, inl, inr, refl, Run, List, [], ◌∷◌, ok, fault, Returns, returns, arith, All,
}
use custom_public_library_rl.Memory.{Memory, and_then, pure}
use custom_public_library_rl.Mem.Invariant.{Fresh}
use custom_public_library_rl.Mem.Threads.{Pc, storing, cutting, Input, advance, act}
use custom_public_library_rl.Mem.Threads.Standing.{inside, IsFresh, Others, Undisturbed, Next}
use custom_public_library_rl.Mem.Threads.Moves.{advance-Next}
use custom_public_library_rl.Mem.Threads.Sums.{
  with_thread, gather, IsSame, IsSame-sym, gather-with, Balance, Balance-same, Balance-Stands,
  Stands-Balance,
}

-- All threads of the list stand to the state, with the others as sums.
abbrev pub Standing : Others → List Pc → Memory → Type 0
Standing o ps m = Balance (gather ps o) m × All (IsFresh m) ps

abbrev NextAll : Others → Memory → List Pc × Memory → Type 0
NextAll o m (ps, m') = Standing o ps m' × Undisturbed o m m'

-- A thread outside the lock says nothing about the list.
IsFresh-outside : (m : Memory) (p : Pc) → inside p ≡ 0 → IsFresh m p
IsFresh-outside m (storing node next) e = absurd (omega (arith, e))
IsFresh-outside m (cutting p node others) e = absurd (omega (arith, e))
IsFresh-outside m _ e = tt

IsFresh-header : (m m' : Memory) (p : Pc) → m'.header ≡ m.header → IsFresh m p → IsFresh m' p
IsFresh-header m m' (storing node next) e f = rw e f
IsFresh-header m m' (cutting p node others) e f = rw e f
IsFresh-header m m' _ e f = tt

stays-IsFresh :
    (o : Others) (m m' : Memory) (p : Pc)
    → Undisturbed (with_thread p o) m m'
    → IsFresh m p
    → IsFresh m' p
stays-IsFresh o m m' p (inl e) f = IsFresh-header m m' p e f
stays-IsFresh o m m' p (inr e) f = IsFresh-outside m' p (omega (arith, e))

less-Undisturbed :
    (o : Others) (m m' : Memory) (p : Pc) → Undisturbed (with_thread p o) m m' → Undisturbed o m m'
less-Undisturbed o m m' p (inl e) = inl e
less-Undisturbed o m m' p (inr e) = inr (omega (arith, e))

-- The same for several threads.
stay-IsFresh :
    (o : Others) (m m' : Memory) (ps : List Pc)
    → Undisturbed (gather ps o) m m'
    → All (IsFresh m) ps
    → All (IsFresh m') ps × Undisturbed o m m'
stay-IsFresh o m m' [] u f = (tt, u)
stay-IsFresh o m m' (p ∷ ps) u (f, fs) =
    let (fs', u') = stay-IsFresh (with_thread p o) m m' ps u fs in
    ((stays-IsFresh o m m' p u' f, fs'), less-Undisturbed o m m' p u')

first_act :
    (o : Others) (m : Memory) (ps : List Pc)
    → All (IsFresh m) ps
    → (r : Run (Pc × Memory)) → Returns (Next (gather ps o) m) r
    → Returns (NextAll o m) (and_then r (λ p'. pure (p' ∷ ps)))
first_act o m ps fs (ok (p', m')) (returns (s, u)) =
    let (fs', u') = stay-IsFresh o m m' ps u fs in
    let same : IsSame (with_thread p' (gather ps o)) (gather ps (with_thread p' o)) =
      IsSame-sym (gather-with p' ps o) in
    returns (
      (
        Balance-same (with_thread p' (gather ps o)) (gather ps (with_thread p' o)) m' same
            (Stands-Balance (gather ps o) p' m' s),
        (s.fresh, fs'),
      ),
      u',
    )
first_act o m ps fs fault h = elim h [ ]

later_act :
    (o : Others) (m : Memory) (p : Pc)
    → IsFresh m p
    → (r : Run (List Pc × Memory)) → Returns (NextAll (with_thread p o) m) r
    → Returns (NextAll o m) (and_then r (λ ps'. pure (p ∷ ps')))
later_act o m p f (ok (ps', m')) (returns ((b, fs), u)) =
    returns ((b, (stays-IsFresh o m m' p u f, fs)), less-Undisturbed o m m' p u)
later_act o m p f fault h = elim h [ ]

-- A move of any thread.
pub act-Standing :
    (i : ℕ) (o : Others) (input : Input) (ps : List Pc) (m : Memory)
    → Standing o ps m
    → Fresh m.heap input.answer
    → Returns (NextAll o m) (act i input ps m)
unfolding act
act-Standing i o input [] m s f = returns (s, inl refl)
act-Standing zero o input (p ∷ ps) m (b, (fp, fs)) f =
    let s =
      Balance-Stands (gather ps o) p m
        (Balance-same (gather ps (with_thread p o)) (with_thread p (gather ps o)) m
          (gather-with p ps o) b)
        fp in
    first_act o m ps fs (advance input p m) (advance-Next (gather ps o) input p m s f)
act-Standing (suc i) o input (p ∷ ps) m (b, (fp, fs)) f =
    later_act o m p fp (act i input ps m) (act-Standing i (with_thread p o) input ps m (b, fs) f)
