-- ===== src/Eth/Query.antt =====
-- rleth/src/rleth.c: the functions that ask for the configuration of the network card.
pub mod Address
pub mod Words
pub mod Stanzas
pub mod Dhcp
pub mod Routes
pub mod Gateway
use custom_public_library_rl.Common.{
  ℕ, ◌||◌, Option, none, some, List, [], ◌∷◌, ok, ◌==◌, if◌then◌else◌, ℤ, Public, drop,
}
use custom_public_library_rl.Libc.{Bytes, Ptr, is_null, deref, write}
use custom_public_library_rl.Libc.Scan.{lines_256}
use custom_public_library_rl.Libc.Inet.{Ipv4, inet_ntop}
use custom_public_library_rl.Net.{Net, done, ◌>>=◌, ◌>>◌, lift, opens, closes}
use custom_public_library_rl.Eth.{ifr_name, dhcp_loop, gateway_loop}

-- The requests of `ioctl`: SIOCGIFADDR and SIOCGIFNETMASK.
pub data Request : Type 0 where
  get_address get_netmask : Request

module _ ⦃public : Public⦄ where
  open public use {rl_success, rl_failed}

  -- `buf[0] = '\0'`, and the return with RL_FAILED
  pub give_up : ℕ → Ptr → Net (ℤ × Ptr)
  give_up fd buf = do
    b ← lift (deref buf)
    b ← lift (write b 0 (0 ∷ []))
    closes fd
    done (rl_failed, some b)

  pub convert : ℕ → Ptr → ℕ → Option Ipv4 → Net (ℤ × Ptr)
  convert fd buf len none = give_up fd buf
  convert fd buf len (some addr) = do
    b ← lift (deref buf)
    text ← lift (inet_ntop addr b len)
    elim text [ none ↦ give_up fd buf | some b ↦ (do closes fd; done (rl_success, some b)) ]

  -- `rl_get_ip_address` and `rl_get_subnet_mask` differ in the request. `ioctl` answers for the name in
  -- `ifr_name`, `socket` is the answer of that call.
  pub query : (Request → Bytes → Option Ipv4) → Option ℕ → Request → Ptr → ℕ → Net (ℤ × Ptr)
  query ioctl socket request buf len =
      if is_null buf || len == 0 then done (rl_failed, buf) else elim socket [
        | none ↦ done (rl_failed, buf)
        | some fd ↦ (do opens fd; name ← lift ifr_name; convert fd buf len (ioctl request name))
      ]

  pub rl_get_ip_address : (Request → Bytes → Option Ipv4) → Option ℕ → Ptr → ℕ → Net (ℤ × Ptr)
  rl_get_ip_address ioctl socket buf len = query ioctl socket get_address buf len

  pub rl_get_subnet_mask : (Request → Bytes → Option Ipv4) → Option ℕ → Ptr → ℕ → Net (ℤ × Ptr)
  rl_get_subnet_mask ioctl socket buf len = query ioctl socket get_netmask buf len

  -- A file that opens is its descriptor and its content.
  pub rl_get_dhcp : (ℕ → ℕ → ℤ) → Option (ℕ × Bytes) → Net ℤ
  rl_get_dhcp diff none = done rl_failed
  rl_get_dhcp diff (some (fd, content)) = do
    opens fd
    code ← lift (dhcp_loop diff (lines_256 content))
    closes fd
    done code

  -- The first call of `fgets` skips the first line.
  pub rl_get_gateway : (ℕ → ℕ → ℤ) → Option (ℕ × Bytes) → Ptr → ℕ → Net (ℤ × Ptr)
  rl_get_gateway diff file buf len =
      if is_null buf || len == 0 then done (rl_failed, buf) else elim file [
        | none ↦ done (rl_failed, buf)
        | some (fd, content) ↦ (do
          opens fd
          b ← lift (deref buf)
          result ← lift (gateway_loop diff b len (drop 1 (lines_256 content)))
          closes fd
          done (result.0, some result.1))
      ]
