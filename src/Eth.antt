-- ===== src/Eth.antt =====
-- rleth/src/rleth.c: what it reads from addresses and from the lines of files. The functions that open
-- sockets and files are in Eth/Query and Eth/Connect.
pub mod Query
pub mod Connect
use custom_public_library_rl.Common.{
  ℕ, ◌+◌, ◌/◌, ◌%◌, Bool, true, false, ◌&&◌, ◌||◌, Option, none, some, List, [], ◌∷◌, ◌++◌, Run, ok,
  fault, ◌>>=◌, leb, ◌==◌, if◌then◌else◌, ℤ, pos, ◌==ℤ◌, Public, codes, length, replicate,
}
use custom_public_library_rl.Libc.{Bytes, Ptr, deref, prefix, strlen, write, strncpy}
use custom_public_library_rl.Libc.Scan.{behind, scan_word, scan_hex}
use custom_public_library_rl.Libc.Inet.{Ipv4, inet_ntop, inet_pton}
use custom_public_library_rl.Str.{rl_str_isempty, rl_strcmp}

abbrev is_address : Option Ipv4 → Bool
is_address none = false
is_address (some addr) = true

pub rl_is_ipv4 : Ptr → Run Bool
rl_is_ipv4 str = do
  empty ← rl_str_isempty str
  if empty
      then ok false
      else do s ← deref str; n ← strlen s; text ← prefix n s; ok (is_address (inet_pton text))

-- SYS_USER_ETHERNET_CARD
abbrev pub ethernet_card : Bytes
ethernet_card = codes "eth0" ++ 0 ∷ []

-- `ifr.ifr_name`, with IFNAMSIZ = 16
pub ifr_name : Run Bytes
ifr_name = do name ← strncpy (replicate 16 0) ethernet_card 15; write name 15 (0 ∷ [])

-- `while (*trimmed == ' ' || *trimmed == '\t')`
unfoldable pub trim : Bytes → Bytes
trim [] = []
trim (c ∷ s) = let rest = trim s in if c == b' ' || c == b'\t' then rest else c ∷ s

abbrev third_word : Bytes → Option (Bytes × Bytes) → Option (Bytes × Bytes)
third_word iface none = none
third_word iface (some (mode, s)) = some (iface, mode)

abbrev second_word : Bytes → Option (Bytes × Bytes) → Option (Bytes × Bytes)
second_word iface none = none
second_word iface (some (inet, s)) = third_word iface (scan_word 31 s)

abbrev first_word : Option (Bytes × Bytes) → Option (Bytes × Bytes)
first_word none = none
first_word (some (iface, s)) = second_word iface (scan_word 31 s)

-- `%31s %31s %31s`: the first word and the third.
abbrev pub three_words : Bytes → Option (Bytes × Bytes)
three_words s = first_word (scan_word 31 s)

abbrev pub fields_of : Option Bytes → Option (Bytes × Bytes)
fields_of none = none
fields_of (some s) = three_words s

-- The interface and the mode of a line that starts with `iface`.
abbrev pub iface_line : Bytes → Option (Bytes × Bytes)
iface_line line = fields_of (behind (codes "iface") (trim line))

-- A line of the routing table: the four items that `sscanf` stores.
pub record Route : Type 0 where
  pub iface : Bytes
  pub dest : ℕ
  pub gw : ℕ
  pub flags : ℕ

abbrev third_number : Bytes → ℕ → ℕ → Option (ℕ × Bytes) → Option Route
third_number iface dest gw none = none
third_number iface dest gw (some (flags, s)) =
    some (record { iface = iface; dest = dest; gw = gw; flags = flags })

abbrev second_number : Bytes → ℕ → Option (ℕ × Bytes) → Option Route
second_number iface dest none = none
second_number iface dest (some (gw, s)) = third_number iface dest gw (scan_hex s)

abbrev first_number : Bytes → Option (ℕ × Bytes) → Option Route
first_number iface none = none
first_number iface (some (dest, s)) = second_number iface dest (scan_hex s)

-- `%s` writes into the array `iface` of 16 bytes without a bound.
abbrev route_of : Option (Bytes × Bytes) → Run (Option Route)
route_of none = ok none
route_of (some (iface, s)) =
    if leb 16 (length iface) then fault else ok (first_number iface (scan_hex s))

pub scan_route : Bytes → Run (Option Route)
scan_route line = route_of (scan_word (length line) line)

-- A default route through a gateway: RTF_GATEWAY is 0x2.
abbrev pub is_default : Route → Bool
is_default r = r.dest == 0 && (r.flags / 2) % 2 == 1

-- The bytes of `s_addr` in memory, on a little-endian machine.
abbrev pub of_s_addr : ℕ → Ipv4
of_s_addr n = record {
  b0 = n % 256;
  b1 = n / 256 % 256;
  b2 = n / 65536 % 256;
  b3 = n / 16777216 % 256;
}

module _ ⦃public : Public⦄ (diff : ℕ → ℕ → ℤ) where
  open public use {rl_true, rl_false, rl_success, rl_failed}

  -- `rl_strcmp(text, constant) == 0`, on an array that holds `text`
  pub same : Bytes → Bytes → Run Bool
  same text constant = do
    c ← rl_strcmp diff (some (text ++ 0 ∷ [])) (some (constant ++ 0 ∷ []))
    ok (c ==ℤ pos 0)

  pub dhcp_mode : Bytes → Bytes → Run (Option ℤ)
  dhcp_mode iface mode = do
    card ← same iface (codes "eth0")
    if card
        then (do
          dhcp ← same mode (codes "dhcp")
          if dhcp then ok (some rl_true) else do
            fixed ← same mode (codes "static")
            if fixed then ok (some rl_false) else ok none)
        else ok none

  abbrev dhcp_fields : Option (Bytes × Bytes) → Run (Option ℤ)
  dhcp_fields none = ok none
  dhcp_fields (some (iface, mode)) = dhcp_mode iface mode

  abbrev pub or_next : Option ℤ → Run ℤ → Run ℤ
  or_next none rest = rest
  or_next (some code) rest = ok code

  -- The loop over the lines of the file.
  pub dhcp_loop : List Bytes → Run ℤ
  dhcp_loop [] = ok rl_failed
  dhcp_loop (line ∷ lines) =
      let rest = dhcp_loop lines in do found ← dhcp_fields (iface_line line); or_next found rest

  abbrev written : Bytes → Option Bytes → ℤ × Bytes
  written buf none = (rl_failed, buf)
  written buf (some buf') = (rl_success, buf')

  -- What a route decides: the code, and what is then in the buffer.
  pub gateway_route : Bytes → ℕ → Route → Run (Option (ℤ × Bytes))
  gateway_route buf len r =
      if is_default r
      then (do
        card ← same r.iface (codes "eth0")
        if card
            then (do text ← inet_ntop (of_s_addr r.gw) buf len; ok (some (written buf text)))
            else ok none)
      else ok none

  abbrev gateway_fields : Bytes → ℕ → Option Route → Run (Option (ℤ × Bytes))
  gateway_fields buf len none = ok none
  gateway_fields buf len (some r) = gateway_route buf len r

  abbrev or_next_pair : Option (ℤ × Bytes) → Run (ℤ × Bytes) → Run (ℤ × Bytes)
  or_next_pair none rest = rest
  or_next_pair (some result) rest = ok result

  pub gateway_loop : Bytes → ℕ → List Bytes → Run (ℤ × Bytes)
  gateway_loop buf len [] = ok (rl_failed, buf)
  gateway_loop buf len (line ∷ lines) =
      let rest = gateway_loop buf len lines in
      do route ← scan_route line; found ← gateway_fields buf len route; or_next_pair found rest
