-- ===== src/Tests/Network.antt =====
-- rleth on concrete files and answers of the network.
use custom_public_library_rl.Common.{
  ℕ, zero, suc, ◌<◌, ◌≤◌, ◌≡◌, refl, ap, ne→==, length, ◌&&◌, leb, Bool, true, false, ltb, All,
  Option, some, List, [], ◌∷◌, ◌++◌, ok, arith, codes, pos, ℤ, ◌==ℤ◌, ◌==◌, if◌then◌else◌,
  replicate,
}
use custom_public_library_rl.Libc.{Bytes}
use custom_public_library_rl.Libc.Inet.{Ipv4, dotted, octet_text}
use custom_public_library_rl.Libc.Scan.{behind}
use custom_public_library_rl.Libc.Search.{Avoids-of}
use custom_public_library_rl.Str.Compare.{Differs}
use custom_public_library_rl.Eth.{trim, rl_is_ipv4}
use custom_public_library_rl.Eth.Query.{
  Request, get_address, get_netmask, rl_get_ip_address, rl_get_subnet_mask, rl_get_dhcp,
  rl_get_gateway,
}
use custom_public_library_rl.Eth.Query.Address.{addresses_lem}
use custom_public_library_rl.Eth.Query.Words.{IsToken, printed, printed_lem}
use custom_public_library_rl.Eth.Query.Dhcp.{configured, dhcp_lem}
use custom_public_library_rl.Eth.Query.Stanzas.{ConfigLine, stanza, other}
use custom_public_library_rl.Eth.Query.Gateway.{default_gateway, gateway_lem}
use custom_public_library_rl.Eth.Query.Routes.{RouteLine, text_of}
use custom_public_library_rl.Eth.Connect.{
  CardTry, no_socket, has_flags, Hostent, Sockaddr, rl_get_ethernet_card_state,
  rl_get_ethernet_connect_tcp,
}
use custom_public_library_rl.Eth.Connect.Outcome.{card_state_lem, connect_tcp_lem}
use custom_public_library_rl.Libc.Inet.{dotted, octet_text}
use custom_public_library_rl.Tests.{host}

abbrev diff : ℕ → ℕ → ℤ
diff a b = if a == b then pos 0 else pos 1

diff-Differs : Differs diff
diff-Differs a b ne = ap (λ t. (if t then pos 0 else pos 1) ==ℤ pos 0) (ne→== a b ne)

-- The card comes up in the third attempt.
abbrev tries : ℕ → CardTry
tries zero = no_socket
tries (suc zero) = has_flags 5 1
tries (suc (suc i)) = has_flags 5 65

card_state_lem_example :
    rl_get_ethernet_card_state tries 10 (pos 5) [] ≡ ok ((pos 0, 10000 ∷ 10000 ∷ []), [])
card_state_lem_example = card_state_lem tries 10 5 []

abbrev resolved : Hostent
resolved = record {
  h_addr_list = 8 ∷ 64 ∷ 1 ∷ 0 ∷ [];
  first_address = 10 ∷ 0 ∷ 0 ∷ 1 ∷ [];
  h_length = 4;
}

abbrev at_pointer : Sockaddr → Bool
at_pointer s = elim s.sin_addr [ [] ↦ false | c ∷ rest ↦ c == 8 ]

connect_tcp_lem_example :
    rl_get_ethernet_connect_tcp at_pointer (some 3) true (some resolved) (7 ∷ [])
    ≡ ok (pos 0, 7 ∷ [])
connect_tcp_lem_example =
    connect_tcp_lem at_pointer 3 true resolved (7 ∷ []) (omega arith) (omega arith)

abbrev loopback : Ipv4
loopback = record { b0 = 127; b1 = 0; b2 = 0; b3 = 1 }

abbrev netmask : Ipv4
netmask = record { b0 = 255; b1 = 255; b2 = 255; b3 = 0 }

abbrev ioctl : Request → Bytes → Option Ipv4
ioctl get_address name = some loopback
ioctl get_netmask name = some netmask

addresses_lem_example :
    (rl_get_ip_address ioctl (some 3) (some (9 ∷ replicate 15 9)) 16 []
      ≡ ok ((pos 0, some (codes "127.0.0.1" ++ 0 ∷ replicate 6 9)), []))
    × (rl_get_subnet_mask ioctl (some 3) (some (9 ∷ replicate 15 9)) 16 []
        ≡ ok ((pos 0, some (codes "255.255.255.0" ++ 0 ∷ replicate 2 9)), []))
    × (rl_is_ipv4 (some (codes "127.0.0.1" ++ 0 ∷ replicate 6 9)) ≡ ok true)
    × (rl_is_ipv4 (some (codes "255.255.255.0" ++ 0 ∷ replicate 2 9)) ≡ ok true)
unfolding dotted octet_text
addresses_lem_example =
    addresses_lem ioctl 3 16 9 (replicate 15 9) []
      (omega arith, omega arith, omega arith, omega arith)
      (omega arith, omega arith, omega arith, omega arith) (omega arith) (omega arith)

abbrev is_token : ℕ → Bytes → Bool
is_token c w = printed (c ∷ w) && leb (length (c ∷ w)) 31

checked-IsToken : (c : ℕ) (w : Bytes) → is_token c w ≡ true → IsToken (c ∷ w)
checked-IsToken c w h =
    let printed_now : printed (c ∷ w) ≡ true = ground arith in
    let short : length (c ∷ w) ≤ 31 = ground arith in
    ((λ e. cc), printed_lem (c ∷ w) printed_now, short)

-- The file `/etc/network/interfaces`.
abbrev interfaces : List ConfigLine
interfaces =
    other (codes "auto eth0")
    ∷ stanza (codes "lo") (codes "inet") (codes "loopback")
    ∷ stanza (codes "eth0") (codes "inet") (codes "dhcp")
    ∷ []

inet-IsToken : IsToken (codes "inet")
inet-IsToken = checked-IsToken b'i' (codes "net") refl

dhcp_lem_example :
    rl_get_dhcp diff
      (some (4, codes "auto eth0\niface lo inet loopback\niface eth0 inet dhcp\n"))
      []
    ≡ ok (pos 1, [])
unfolding configured trim behind
dhcp_lem_example = dhcp_lem diff 4 interfaces [] diff-Differs (
  ((Avoids-of b'\n' (codes "auto eth0") refl, omega arith), refl),
  (
    (
      checked-IsToken b'l' (codes "o") refl,
      inet-IsToken,
      checked-IsToken b'l' (codes "oopback") refl,
    ),
    (
      (
        checked-IsToken b'e' (codes "th0") refl,
        inet-IsToken,
        checked-IsToken b'd' (codes "hcp") refl,
      ),
      tt,
    ),
  ),
)

abbrev eth0_route : RouteLine
eth0_route = record {
  card = codes "eth0";
  dest = replicate 8 0;
  gw = 0 ∷ 1 ∷ 0 ∷ 1 ∷ 10 ∷ 8 ∷ 12 ∷ 0 ∷ [];
  flags = 0 ∷ 0 ∷ 0 ∷ 3 ∷ [];
  tail = codes "0\t0\t100\t00000000\t0\t0\t0";
}

abbrev nibbles : List ℕ → Bool
nibbles [] = true
nibbles (d ∷ ds) = ltb d 16 && nibbles ds

nibbles_lem : (ds : List ℕ) → nibbles ds ≡ true → All (λ d. d < 16) ds
nibbles_lem [] h = tt
nibbles_lem (d ∷ ds) h =
    let rest : nibbles ds ≡ true = ground arith in (ground arith, nibbles_lem ds rest)

gateway_lem_example :
    rl_get_gateway diff
      (some (
        4,
        codes
            "Iface\tDestination\tGateway\neth0\t00000000\t0101A8C0\t0003\t0\t0\t100\t00000000\t0\t0\t0\n",
      ))
      (some (replicate 16 9))
      16
      []
    ≡ ok ((pos 0, some (codes "192.168.1.1" ++ 0 ∷ replicate 4 9)), [])
unfolding default_gateway dotted octet_text
gateway_lem_example =
    gateway_lem diff 4 16 9 (replicate 15 9) (codes "Iface\tDestination\tGateway") (eth0_route ∷ [])
      [] diff-Differs (Avoids-of b'\n' (codes "Iface\tDestination\tGateway") refl, omega arith)
      (
        (
          (λ e. cc),
          printed_lem (codes "eth0") refl,
          omega arith,
          ((λ e. cc), nibbles_lem eth0_route.dest refl, omega arith),
          ((λ e. cc), nibbles_lem eth0_route.gw refl, omega arith),
          ((λ e. cc), nibbles_lem eth0_route.flags refl, omega arith),
          (Avoids-of b'\n' (text_of eth0_route) refl, omega arith),
        ),
        tt,
      )
      (omega arith) (omega arith)
