-- ===== src/Net.antt =====
-- What the functions share that open sockets and files: the table of open descriptors as a state. To
-- close what is not open is a fault.
use custom_public_library_rl.Common.{
  ℕ, Option, none, some, List, [], ◌∷◌, Run, ok, fault, ◌≡◌, refl, ◌==◌, ==_refl, if◌then◌else◌,
}

-- The descriptors that are open.
abbrev pub Fds : Type 0
Fds = List ℕ

abbrev pub Net : Type 0 → Type 0
Net A = Fds → Run (A × Fds)

abbrev pub done : {A : Type 0} → A → Net A
done a fds = ok (a, fds)

module _ {A B : Type 0} where
  abbrev pub and_then : Run (A × Fds) → (A → Net B) → Run (B × Fds)
  and_then (ok (a, fds)) k = k a fds
  and_then fault k = fault

infixl 5 ◌>>=◌ ◌>>◌
abbrev pub ◌>>=◌ : {A B : Type 0} → Net A → (A → Net B) → Net B
c >>= k = λ fds. and_then (c fds) k

abbrev pub ◌>>◌ : {A B : Type 0} → Net A → Net B → Net B
c >> d = c >>= λ _. d

abbrev lift_run : {A : Type 0} → Run A → Fds → Run (A × Fds)
lift_run (ok a) fds = ok (a, fds)
lift_run fault fds = fault

abbrev pub lift : {A : Type 0} → Run A → Net A
lift r fds = lift_run r fds

-- `socket` or `fopen`, with its answer.
unfoldable pub opens : ℕ → Net (Unit {0})
opens fd fds = ok (tt, fd ∷ fds)

abbrev without : ℕ → Fds → Option Fds
without fd [] = none
without fd (x ∷ fds) =
    let rest = without fd fds in
    if x == fd then some fds else elim rest [ none ↦ none | some fds' ↦ some (x ∷ fds') ]

abbrev closed : Option Fds → Run (Unit {0} × Fds)
closed none = fault
closed (some fds) = ok (tt, fds)

unfoldable pub closes : ℕ → Net (Unit {0})
closes fd fds = closed (without fd fds)

-- The descriptor that was opened last is closed.
pub closes_last : (fd : ℕ) (fds : Fds) → closes fd (fd ∷ fds) ≡ ok (tt, fds)
unfolding closes
closes_last fd fds = rw (==_refl fd) refl
