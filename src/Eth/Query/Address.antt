-- ===== src/Eth/Query/Address.antt =====
-- `rl_get_ip_address`, `rl_get_subnet_mask` and `rl_is_ipv4`.
use custom_public_library_rl.Common.{
  ℕ, ◌+◌, ◌≤◌, ◌<◌, ◌≡◌, refl, ◌∙◌, ap, true, Option, none, some, [], ◌∷◌, ◌++◌, ok, append_assoc,
  drop, length, length-append, ltb, lt→ltb, le→ltb_false, ne→==, if◌then◌else◌, arith, Bool-cases,
  inl, inr, ℤ, Public,
}
use custom_public_library_rl.Libc.{Bytes, Ptr, write, strncpy, padded}
use custom_public_library_rl.Libc.Access.{write_within, prefix-append}
use custom_public_library_rl.Libc.Text.{strlen-text}
use custom_public_library_rl.Libc.Inet.{Ipv4, dotted, inet_ntop}
use custom_public_library_rl.Libc.Inet.RoundTrip.{
  IsIpv4, inet_pton-dotted, dotted-IsText, length-dotted,
}
use custom_public_library_rl.Net.{Fds, opens, closes_last}
use custom_public_library_rl.Str.Remove.{isempty-text}
use custom_public_library_rl.Eth.{rl_is_ipv4, ifr_name, ethernet_card}
use custom_public_library_rl.Eth.Query.{
  Request, get_address, get_netmask, give_up, convert, query, rl_get_ip_address, rl_get_subnet_mask,
}

-- The name that `ioctl` sees: the card's, and NUL bytes up to 16.
pub card_name : Bytes
card_name = ethernet_card ++ (0 ∷ 0 ∷ 0 ∷ 0 ∷ 0 ∷ 0 ∷ 0 ∷ 0 ∷ 0 ∷ 0 ∷ 0 ∷ [])

ifr_name_lem : ifr_name ≡ ok card_name
unfolding ifr_name card_name strncpy padded write
ifr_name_lem = refl

-- A buffer that holds the text of an address.
abbrev pub holding : Ipv4 → Bytes → Bytes
holding a b = dotted a ++ 0 ∷ drop (length (dotted a) + 1) b

pub ntop_fits :
    (a : Ipv4) (b : Bytes) (len : ℕ)
    → length (dotted a) < len
    → len ≤ length b
    → inet_ntop a b len ≡ ok (some (holding a b))
unfolding inet_ntop
ntop_fits a b len fits room =
    let size = length-append (dotted a) (0 ∷ []) in
    let e : length (dotted a ++ 0 ∷ []) ≡ length (dotted a) + 1 = omega (arith, size) in
    rw
      (
        lt→ltb (length (dotted a)) len fits,
        write_within b 0 (dotted a ++ 0 ∷ []) (omega (arith, size)),
        e,
        append_assoc (dotted a) (0 ∷ []) (drop (length (dotted a) + 1) b),
      )
      refl

ntop_short :
    (a : Ipv4) (b : Bytes) (len : ℕ) → len ≤ length (dotted a) → inet_ntop a b len ≡ ok none
unfolding inet_ntop
ntop_short a b len short = rw (le→ltb_false (length (dotted a)) len short)

IsIpv4-dotted : (a : Ipv4) (r : Bytes) → IsIpv4 a → rl_is_ipv4 (some (dotted a ++ 0 ∷ r)) ≡ ok true
unfolding rl_is_ipv4
IsIpv4-dotted a r h =
    let text = dotted-IsText a h in
    let (some_text, _) = length-dotted a h in
    rw
      (
        isempty-text (dotted a) r (λ e. omega (arith, some_text, ap length e)) text,
        strlen-text (dotted a) r text,
        prefix-append (dotted a) (0 ∷ r),
        inet_pton-dotted a h,
      )
      refl

module _ ⦃public : Public⦄ where
  open public use {rl_success, rl_failed}

  give_up_lem :
      (fd c : ℕ) (b : Bytes) (fds : Fds)
      → give_up fd (some (c ∷ b)) (fd ∷ fds) ≡ ok ((rl_failed, some (0 ∷ b)), fds)
  unfolding give_up write
  give_up_lem fd c b fds = rw (closes_last fd fds) refl

  -- The return value and the buffer for an answer of `ioctl`.
  abbrev pub answer : Option Ipv4 → ℕ → ℕ → Bytes → ℤ × Ptr
  answer none len c b = (rl_failed, some (0 ∷ b))
  answer (some a) len c b =
      if ltb (length (dotted a)) len
      then (rl_success, some (holding a (c ∷ b)))
      else (rl_failed, some (0 ∷ b))

  convert_lem :
      (o : Option Ipv4) (fd len c : ℕ) (b : Bytes) (fds : Fds)
      → len ≤ length (c ∷ b)
      → convert fd (some (c ∷ b)) len o (fd ∷ fds) ≡ ok (answer o len c b, fds)
  unfolding convert
  convert_lem none fd len c b fds room = give_up_lem fd c b fds
  convert_lem (some a) fd len c b fds room = elim (Bool-cases (ltb (length (dotted a)) len)) [
    | inl e ↦ rw (e, ntop_fits a (c ∷ b) len (ground arith) room, closes_last fd fds) refl
    | inr e ↦ rw (e, ntop_short a (c ∷ b) len (ground arith), give_up_lem fd c b fds) refl
  ]

  query_lem :
      (ioctl : Request → Bytes → Option Ipv4) (request : Request) (fd len c : ℕ) (b : Bytes)
      (fds : Fds)
      → 0 < len
      → len ≤ length (c ∷ b)
      → query ioctl (some fd) request (some (c ∷ b)) len fds
        ≡ ok (answer (ioctl request card_name) len c b, fds)
  unfolding query opens
  query_lem ioctl request fd len c b fds positive room =
      rw (ne→== len 0 (omega arith), ifr_name_lem)
        (convert_lem (ioctl request card_name) fd len c b fds room)

  -- The code and the buffer for an answer of `ioctl` that has room.
  abbrev pub told : Option Ipv4 → ℕ → Bytes → ℤ × Ptr
  told none c b = (rl_failed, some (0 ∷ b))
  told (some a) c b = (rl_success, some (holding a (c ∷ b)))

  abbrev pub IsAddress : Option Ipv4 → Type 0
  IsAddress none = Unit
  IsAddress (some a) = IsIpv4 a

  abbrev pub IsReadable : Option Ipv4 → ℕ → Bytes → Type 0
  IsReadable none c b = Unit
  IsReadable (some a) c b = rl_is_ipv4 (some (holding a (c ∷ b))) ≡ ok true

  answer-told :
      (o : Option Ipv4) (len c : ℕ) (b : Bytes)
      → IsAddress o
      → 16 ≤ len
      → answer o len c b ≡ told o c b
  answer-told none len c b h enough = refl
  answer-told (some a) len c b h enough =
      let (_, short) = length-dotted a h in
      rw (lt→ltb (length (dotted a)) len (omega (arith, short))) refl

  readable : (o : Option Ipv4) (c : ℕ) (b : Bytes) → IsAddress o → IsReadable o c b
  readable none c b h = tt
  readable (some a) c b h = IsIpv4-dotted a (drop (length (dotted a) + 1) (c ∷ b)) h

  query-told :
      (ioctl : Request → Bytes → Option Ipv4) (request : Request) (fd len c : ℕ) (b : Bytes)
      (fds : Fds)
      → IsAddress (ioctl request card_name)
      → 16 ≤ len
      → len ≤ length (c ∷ b)
      → query ioctl (some fd) request (some (c ∷ b)) len fds
        ≡ ok (told (ioctl request card_name) c b, fds)
  query-told ioctl request fd len c b fds h enough room =
      query_lem ioctl request fd len c b fds (omega arith) room
      ∙ ap (λ r. ok (r, fds)) (answer-told (ioctl request card_name) len c b h enough)

  -- Where the socket opens, `len` is at least 16, the buffer has at least `len` bytes, and the
  -- answers of `ioctl` to the two requests for the name of the card are addresses of four bytes or
  -- failures, `rl_get_ip_address` answers with the address and `rl_get_subnet_mask` with the
  -- netmask: RL_SUCCESS, and the buffer starts with the text of the answer and a NUL, or, for a
  -- failure, RL_FAILED and the empty text. The socket is closed again, and `rl_is_ipv4` accepts
  -- each text.
  pub addresses_lem :
      (ioctl : Request → Bytes → Option Ipv4) (fd len c : ℕ) (b : Bytes) (fds : Fds)
      → IsAddress (ioctl get_address card_name)
      → IsAddress (ioctl get_netmask card_name)
      → 16 ≤ len
      → len ≤ length (c ∷ b)
      → (rl_get_ip_address ioctl (some fd) (some (c ∷ b)) len fds
          ≡ ok (told (ioctl get_address card_name) c b, fds))
        × (rl_get_subnet_mask ioctl (some fd) (some (c ∷ b)) len fds
            ≡ ok (told (ioctl get_netmask card_name) c b, fds))
        × IsReadable (ioctl get_address card_name) c b
        × IsReadable (ioctl get_netmask card_name) c b
  unfolding rl_get_ip_address rl_get_subnet_mask
  addresses_lem ioctl fd len c b fds ha hm enough room = (
    query-told ioctl get_address fd len c b fds ha enough room,
    query-told ioctl get_netmask fd len c b fds hm enough room,
    readable (ioctl get_address card_name) c b ha,
    readable (ioctl get_netmask card_name) c b hm,
  )
