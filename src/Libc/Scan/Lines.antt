-- ===== src/Libc/Scan/Lines.antt =====
-- The lines of a file through `fgets`.
use custom_public_library_rl.Common.{
  ℕ, zero, suc, ◌≤◌, ◌<◌, ◌≡◌, refl, ap, ◌∙◌, List, [], ◌∷◌, ◌++◌, length, length-append, ne→==,
  arith, All,
}
use custom_public_library_rl.Libc.{Bytes, read_line}
use custom_public_library_rl.Libc.Search.{Avoids}
use custom_public_library_rl.Libc.Scan.{until_nul, pieces, strings_of, lines_256}

-- Lines that `fgets` reads with one call each: no newline, no NUL, less than 255 bytes.
abbrev pub IsLine : Bytes → Type 0
IsLine l = Avoids b'\n' l × (length l < 255)

abbrev pub content_of : List Bytes → Bytes
content_of [] = []
content_of (l ∷ ls) = l ++ b'\n' ∷ content_of ls

abbrev pub with_newlines : List Bytes → List Bytes
with_newlines [] = []
with_newlines (l ∷ ls) = (l ++ b'\n' ∷ []) ∷ with_newlines ls

read_line_lem :
    (n : ℕ) (l rest : Bytes)
    → Avoids b'\n' l
    → length l < n
    → read_line n (l ++ b'\n' ∷ rest) ≡ (l ++ b'\n' ∷ [], rest)
unfolding read_line
read_line_lem zero l rest h small = absurd (omega arith)
read_line_lem (suc n) [] rest h small = refl
read_line_lem (suc n) (c ∷ l) rest ((ne, _), h) small =
    rw (ne→== c b'\n' ne, read_line_lem n l rest h (omega arith)) refl

pieces_step :
    (fuel n : ℕ) (l rest : Bytes)
    → Avoids b'\n' l
    → length l < n
    → pieces (suc fuel) n (l ++ b'\n' ∷ rest) ≡ (l ++ b'\n' ∷ []) ∷ pieces fuel n rest
unfolding pieces
pieces_step fuel n [] rest h small = rw (read_line_lem n [] rest h small) refl
pieces_step fuel n (c ∷ l) rest h small = rw (read_line_lem n (c ∷ l) rest h small) refl

pieces_end : (fuel n : ℕ) → pieces fuel n [] ≡ []
unfolding pieces
pieces_end zero n = refl
pieces_end (suc fuel) n = refl

pieces-content_of :
    (fuel : ℕ) (ls : List Bytes)
    → All IsLine ls
    → length ls ≤ fuel
    → pieces fuel 255 (content_of ls) ≡ with_newlines ls
pieces-content_of fuel [] h enough = pieces_end fuel 255
pieces-content_of zero (l ∷ ls) h enough = absurd (omega arith)
pieces-content_of (suc fuel) (l ∷ ls) ((avoids, small), h) enough =
    rw
      (
        pieces_step fuel 255 l (content_of ls) avoids small,
        pieces-content_of fuel ls h (omega arith),
      )
      refl

until_nul-text : (l : Bytes) → Avoids b'\n' l → until_nul (l ++ b'\n' ∷ []) ≡ l ++ b'\n' ∷ []
unfolding until_nul
until_nul-text [] h = refl
until_nul-text (c ∷ l) ((_, ne), h) = rw (ne→== c 0 ne, until_nul-text l h) refl

strings_of-lines :
    (ls : List Bytes) → All IsLine ls → strings_of (with_newlines ls) ≡ with_newlines ls
unfolding strings_of
strings_of-lines [] h = refl
strings_of-lines (l ∷ ls) ((avoids, _), h) =
    rw (until_nul-text l avoids, strings_of-lines ls h) refl

length-content_of : (ls : List Bytes) → length ls ≤ length (content_of ls)
length-content_of [] = omega arith
length-content_of (l ∷ ls) =
    omega (arith, length-append l (b'\n' ∷ content_of ls), length-content_of ls)

-- The loops see the lines of the file, each with its newline.
pub lines_256-content_of :
    (ls : List Bytes) → All IsLine ls → lines_256 (content_of ls) ≡ with_newlines ls
lines_256-content_of ls h =
    ap strings_of (pieces-content_of (length (content_of ls)) ls h (length-content_of ls))
    ∙ strings_of-lines ls h
