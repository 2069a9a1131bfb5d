-- ===== src/Eth/Query/Routes.antt =====
-- The lines of a routing table, and what `sscanf` makes of them.
use custom_public_library_rl.Common.{
  ℕ, ◌≤◌, ◌≡◌, ◌≢◌, refl, ap, ◌∙◌, true, some, List, [], ◌∷◌, ◌++◌, ok, fault, append_assoc, length,
  length-append, le→leb, lt→leb_false, arith, All,
}
use custom_public_library_rl.Libc.{Bytes, is_space}
use custom_public_library_rl.Libc.Scan.{scan_word}
use custom_public_library_rl.Libc.Scan.Hex.{IsHex, hex_text, spelled, scan_hex_lem}
use custom_public_library_rl.Libc.Scan.Lines.{IsLine}
use custom_public_library_rl.Libc.Inet.RoundTrip.{IsIpv4}
use custom_public_library_rl.Eth.{Route, scan_route, of_s_addr}
use custom_public_library_rl.Eth.Query.Words.{IsPrinted, scan_here}

-- A line of the table: the card, three numbers in hexadecimal, and the fields behind them.
pub record RouteLine : Type 0 where
  pub card : Bytes
  pub dest : List ℕ
  pub gw : List ℕ
  pub flags : List ℕ
  pub tail : Bytes

abbrev column : List ℕ → Bytes → Bytes
column ds rest = b'\t' ∷ (hex_text ds ++ rest)

abbrev numbers_of : RouteLine → Bytes → Bytes
numbers_of l end = column l.dest (column l.gw (column l.flags (b'\t' ∷ (l.tail ++ end))))

abbrev pub text_of : RouteLine → Bytes
text_of l = l.card ++ numbers_of l []

abbrev pub texts_of : List RouteLine → List Bytes
texts_of [] = []
texts_of (l ∷ ls) = text_of l ∷ texts_of ls

abbrev pub IsRouteLine : RouteLine → Type 0
IsRouteLine l =
    (l.card ≢ [])
    × All IsPrinted l.card
    × (length l.card ≤ 15)
    × IsHex l.dest
    × IsHex l.gw
    × IsHex l.flags
    × IsLine (text_of l)

abbrev pub route : RouteLine → Route
route l = record {
  iface = l.card;
  dest = spelled 0 l.dest;
  gw = spelled 0 l.gw;
  flags = spelled 0 l.flags;
}

first_lem :
    (card : Bytes) (c : ℕ) (rest : Bytes)
    → card ≢ []
    → All IsPrinted card
    → is_space c ≡ true
    → scan_word (length (card ++ (c ∷ rest))) (card ++ (c ∷ rest)) ≡ some (card, c ∷ rest)
first_lem card c rest ne h hc =
    scan_here (length (card ++ (c ∷ rest))) card c rest ne h
      (omega (arith, length-append card (c ∷ rest))) hc

column_append : (ds : List ℕ) (rest end : Bytes) → column ds rest ++ end ≡ column ds (rest ++ end)
column_append ds rest end = ap (λ s. b'\t' ∷ s) (append_assoc (hex_text ds) rest end)

numbers_append : (l : RouteLine) (end : Bytes) → numbers_of l [] ++ end ≡ numbers_of l end
numbers_append l end =
    column_append l.dest (column l.gw (column l.flags (b'\t' ∷ (l.tail ++ [])))) end
    ∙ ap (column l.dest) (
        column_append l.gw (column l.flags (b'\t' ∷ (l.tail ++ []))) end
        ∙ ap (column l.gw) (
            column_append l.flags (b'\t' ∷ (l.tail ++ [])) end
            ∙ ap (λ s. column l.flags (b'\t' ∷ s)) (append_assoc l.tail [] end)))

pub scan_route_lem :
    (l : RouteLine) → IsRouteLine l → scan_route (text_of l ++ (b'\n' ∷ [])) ≡ ok (some (route l))
unfolding scan_route
scan_route_lem l (ne, h, small, hd, hg, hf, _) =
    let end : Bytes = b'\n' ∷ [] in
    let tail = l.tail ++ end in
    rw
      (
        append_assoc l.card (numbers_of l []) end,
        numbers_append l end,
        first_lem l.card b'\t' (hex_text l.dest ++ column l.gw (column l.flags (b'\t' ∷ tail))) ne h
            refl,
        lt→leb_false 16 (length l.card) (omega arith),
        scan_hex_lem l.dest (hex_text l.gw ++ column l.flags (b'\t' ∷ tail)) hd,
        scan_hex_lem l.gw (hex_text l.flags ++ (b'\t' ∷ tail)) hg,
        scan_hex_lem l.flags tail hf,
      )
      refl

pub IsIpv4-of_s_addr : (n : ℕ) → IsIpv4 (of_s_addr n)
IsIpv4-of_s_addr n = (omega arith, omega arith, omega arith, omega arith)

pub texts_IsLine : (ls : List RouteLine) → All IsRouteLine ls → All IsLine (texts_of ls)
texts_IsLine [] h = tt
texts_IsLine (l ∷ ls) ((_, _, _, _, _, _, hl), h) = (hl, texts_IsLine ls h)

pub overlong :
    (card : Bytes) (tail end : Bytes)
    → card ≢ []
    → All IsPrinted card
    → 16 ≤ length card
    → scan_route ((card ++ (b'\t' ∷ tail)) ++ end) ≡ fault
unfolding scan_route
overlong card tail end ne h long =
    rw
      (
        append_assoc card (b'\t' ∷ tail) end,
        first_lem card b'\t' (tail ++ end) ne h refl,
        le→leb 16 (length card) long,
      )
      refl
