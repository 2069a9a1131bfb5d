-- ===== src/Eth/Query/Dhcp.antt =====
-- `rl_get_dhcp` on a file of stanzas and other lines.
use custom_public_library_rl.Common.{
  ℕ, ◌≡◌, ◌≢◌, refl, ap, ◌∙◌, Bool, true, false, Option, none, some, List, [], ◌∷◌, ◌++◌, ok, ◌>>=◌,
  if◌then◌else◌, Bool-cases, inl, inr, All, ℤ, Public, codes,
}
use custom_public_library_rl.Libc.{Bytes}
use custom_public_library_rl.Libc.Text.{IsText}
use custom_public_library_rl.Libc.Scan.Lines.{content_of, with_newlines, lines_256-content_of}
use custom_public_library_rl.Net.{Fds, closes_last, opens}
use custom_public_library_rl.Str.Compare.{equal, Differs}
use custom_public_library_rl.Eth.{iface_line, dhcp_mode, dhcp_fields, dhcp_loop, or_next}
use custom_public_library_rl.Eth.Query.Words.{constant-IsText, same_token}
use custom_public_library_rl.Eth.Query.{rl_get_dhcp}
use custom_public_library_rl.Eth.Query.Stanzas.{
  ConfigLine, stanza, other, text_of, texts_of, IsConfigLine, iface_stanza, iface_other,
  texts_IsLine,
}

pub eth0-IsText : (codes "eth0" ≢ []) × IsText (codes "eth0")
eth0-IsText = constant-IsText b'e' (codes "th0") refl

dhcp-IsText : (codes "dhcp" ≢ []) × IsText (codes "dhcp")
dhcp-IsText = constant-IsText b'd' (codes "hcp") refl

static-IsText : (codes "static" ≢ []) × IsText (codes "static")
static-IsText = constant-IsText b's' (codes "tatic") refl

module _ ⦃public : Public⦄ where
  open public use {rl_true, rl_false, rl_success, rl_failed}

  -- What a line says of the card.
  abbrev pub decision : ConfigLine → Option ℤ
  decision (other l) = none
  decision (stanza card family mode) =
      if equal card (codes "eth0")
      then (if equal mode (codes "dhcp")
          then some rl_true
          else if equal mode (codes "static")
          then some rl_false
          else none)
      else none

  abbrev or_code : Option ℤ → ℤ → ℤ
  or_code none rest = rest
  or_code (some code) rest = code

  -- The first line that decides.
  unfoldable pub configured : List ConfigLine → ℤ
  configured [] = rl_failed
  configured (l ∷ ls) = or_code (decision l) (configured ls)

  static_lem :
      (b : Bool)
      → (do fixed ← ok b; if fixed then ok (some rl_false) else ok none)
        ≡ ok (if b then some rl_false else none)
  static_lem true = refl
  static_lem false = refl

  dhcp_mode_lem :
      (diff : ℕ → ℕ → ℤ) (card family mode : Bytes)
      → Differs diff
      → IsConfigLine (stanza card family mode)
      → dhcp_mode diff card mode ≡ ok (decision (stanza card family mode))
  unfolding dhcp_mode
  dhcp_mode_lem diff card family mode d ((nc, pc, _), hf, (nm, pm, _)) =
      elim (Bool-cases (equal card (codes "eth0"))) [
        | inr e ↦ rw (same_token diff card (codes "eth0") d (nc, pc) eth0-IsText, e) refl
        | inl e ↦ elim (Bool-cases (equal mode (codes "dhcp"))) [
          | inl e' ↦
              rw
                (
                  same_token diff card (codes "eth0") d (nc, pc) eth0-IsText,
                  e,
                  same_token diff mode (codes "dhcp") d (nm, pm) dhcp-IsText,
                  e',
                )
                refl
          | inr e' ↦
              rw
                (
                  same_token diff card (codes "eth0") d (nc, pc) eth0-IsText,
                  e,
                  same_token diff mode (codes "dhcp") d (nm, pm) dhcp-IsText,
                  e',
                  same_token diff mode (codes "static") d (nm, pm) static-IsText,
                )
                (static_lem (equal mode (codes "static")))
        ]
      ]

  line_lem :
      (diff : ℕ → ℕ → ℤ) (l : ConfigLine)
      → Differs diff
      → IsConfigLine l
      → dhcp_fields diff (iface_line (text_of l ++ (b'\n' ∷ []))) ≡ ok (decision l)
  line_lem diff (other l) d h = ap (dhcp_fields diff) (iface_other l h)
  line_lem diff (stanza card family mode) d h =
      ap (dhcp_fields diff) (iface_stanza card family mode h)
      ∙ dhcp_mode_lem diff card family mode d h

  or_next_lem :
      (diff : ℕ → ℕ → ℤ) (o : Option ℤ) (code : ℤ) → or_next diff o (ok code) ≡ ok (or_code o code)
  or_next_lem diff none code = refl
  or_next_lem diff (some c) code = refl

  dhcp_loop_lem :
      (diff : ℕ → ℕ → ℤ) (ls : List ConfigLine)
      → Differs diff
      → All IsConfigLine ls
      → dhcp_loop diff (with_newlines (texts_of ls)) ≡ ok (configured ls)
  unfolding dhcp_loop configured
  dhcp_loop_lem diff [] d h = refl
  dhcp_loop_lem diff (l ∷ ls) d (hl, h) =
      rw (line_lem diff l d hl, dhcp_loop_lem diff ls d h)
        (or_next_lem diff (decision l) (configured ls))

  -- On a file of stanzas, whose words are at most 31 bytes long, and other lines of less than 255
  -- bytes and without a NUL, which do not start with `iface`, `rl_get_dhcp` never faults and
  -- closes the file. It returns what the first stanza of eth0 with the mode dhcp or static says,
  -- RL_TRUE or RL_FALSE, and RL_FAILED where there is none, if the value that the C library
  -- returns at bytes that differ is not zero.
  pub dhcp_lem :
      (diff : ℕ → ℕ → ℤ) (fd : ℕ) (ls : List ConfigLine) (fds : Fds)
      → Differs diff
      → All IsConfigLine ls
      → rl_get_dhcp diff (some (fd, content_of (texts_of ls))) fds ≡ ok (configured ls, fds)
  unfolding rl_get_dhcp opens
  dhcp_lem diff fd ls fds d h =
      rw
        (
          lines_256-content_of (texts_of ls) (texts_IsLine ls h),
          dhcp_loop_lem diff ls d h,
          closes_last fd fds,
        )
        refl
