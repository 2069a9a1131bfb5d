-- ===== src/Eth/Query/Stanzas.antt =====
-- The lines of the file of interfaces, and the words that are read from them.
use custom_public_library_rl.Common.{
  ℕ, suc, ◌+◌, ◌≡◌, ◌≢◌, refl, sym, ap, ◌∙◌, false≢true, false, none, some, List, [], ◌∷◌, ◌++◌,
  append_assoc, length, length-append, arith, All, All-append, codes,
}
use custom_public_library_rl.Libc.{Bytes, is_space}
use custom_public_library_rl.Libc.Search.{Avoids}
use custom_public_library_rl.Libc.Scan.{behind}
use custom_public_library_rl.Libc.Scan.Lines.{IsLine}
use custom_public_library_rl.Eth.{trim, three_words, iface_line, fields_of}
use custom_public_library_rl.Eth.Query.Words.{IsPrinted, IsToken, printed_lem, item, scan_token}

-- A line of the file: `iface <card> <family> <mode>`, or a line of another kind.
pub data ConfigLine : Type 0 where
  stanza : (card family mode : Bytes) → ConfigLine
  other : Bytes → ConfigLine

abbrev pub text_of : ConfigLine → Bytes
text_of (stanza card family mode) = codes "iface" ++ item card (item family (item mode []))
text_of (other l) = l

abbrev pub texts_of : List ConfigLine → List Bytes
texts_of [] = []
texts_of (l ∷ ls) = text_of l ∷ texts_of ls

abbrev pub IsConfigLine : ConfigLine → Type 0
IsConfigLine (stanza card family mode) = IsToken card × IsToken family × IsToken mode
IsConfigLine (other l) = IsLine l × (behind (codes "iface") (trim (l ++ (b'\n' ∷ []))) ≡ none)

three_words_lem :
    (card family mode : Bytes)
    → IsToken card
    → IsToken family
    → IsToken mode
    → three_words (item card (item family (item mode (b'\n' ∷ [])))) ≡ some (card, mode)
three_words_lem card family mode hc hf hm =
    rw
      (
        scan_token card b' ' (family ++ item mode (b'\n' ∷ [])) hc refl,
        scan_token family b' ' (mode ++ (b'\n' ∷ [])) hf refl,
        scan_token mode b'\n' [] hm refl,
      )
      refl

iface_words :
    (card family mode : Bytes)
    → IsConfigLine (stanza card family mode)
    → iface_line (codes "iface" ++ item card (item family (item mode (b'\n' ∷ []))))
      ≡ some (card, mode)
unfolding trim behind
iface_words card family mode (hc, hf, hm) = three_words_lem card family mode hc hf hm

item_append : (w rest end : Bytes) → item w rest ++ end ≡ item w (rest ++ end)
item_append w rest end = ap (λ s. b' ' ∷ s) (append_assoc w rest end)

stanza_text :
    (card family mode : Bytes)
    → text_of (stanza card family mode) ++ (b'\n' ∷ [])
      ≡ codes "iface" ++ item card (item family (item mode (b'\n' ∷ [])))
stanza_text card family mode =
    ap (λ s. codes "iface" ++ s)
      (item_append card (item family (item mode [])) (b'\n' ∷ [])
        ∙ ap (item card) (
            item_append family (item mode []) (b'\n' ∷ [])
            ∙ ap (item family) (item_append mode [] (b'\n' ∷ []))))

pub iface_stanza :
    (card family mode : Bytes)
    → IsConfigLine (stanza card family mode)
    → iface_line (text_of (stanza card family mode) ++ (b'\n' ∷ [])) ≡ some (card, mode)
iface_stanza card family mode h =
    ap iface_line (stanza_text card family mode) ∙ iface_words card family mode h

pub iface_other : (l : Bytes) → IsConfigLine (other l) → iface_line (l ++ (b'\n' ∷ [])) ≡ none
iface_other l (_, h) = ap fields_of h

printed_ne : (c : ℕ) → is_space c ≡ false → c ≢ b'\n'
printed_ne c h e = false≢true (sym h ∙ ap is_space e)

printed-Avoids : (w : Bytes) → All IsPrinted w → Avoids b'\n' w
printed-Avoids [] h = tt
printed-Avoids (c ∷ w) ((hs, hz), h) = ((printed_ne c hs, hz), printed-Avoids w h)

item-Avoids : (w rest : Bytes) → IsToken w → Avoids b'\n' rest → Avoids b'\n' (item w rest)
item-Avoids w rest (_, h, _) hr = (
  ((λ e. omega arith), (λ e. omega arith)),
  All-append (λ c. (c ≢ b'\n') × (c ≢ 0)) w rest (printed-Avoids w h) hr,
)

stanza-Avoids :
    (card family mode : Bytes)
    → IsConfigLine (stanza card family mode)
    → Avoids b'\n' (text_of (stanza card family mode))
stanza-Avoids card family mode (hc, hf, hm) =
    All-append (λ c. (c ≢ b'\n') × (c ≢ 0)) (codes "iface") (item card (item family (item mode [])))
      (printed-Avoids (codes "iface") (printed_lem (codes "iface") refl))
      (item-Avoids card _ hc (item-Avoids family _ hf (item-Avoids mode [] hm tt)))

length-item : (w rest : Bytes) → length (item w rest) ≡ suc (length w + length rest)
length-item w rest = ap suc (length-append w rest)

config_IsLine : (l : ConfigLine) → IsConfigLine l → IsLine (text_of l)
config_IsLine (other l) (h, _) = h
config_IsLine (stanza card family mode) ((hc, pc, lc), (hf, pf, lf), (hm, pm, lm)) = (
  stanza-Avoids card family mode ((hc, pc, lc), (hf, pf, lf), (hm, pm, lm)),
  omega (
    arith,
    length-item card (item family (item mode [])),
    length-item family (item mode []),
    length-item mode [],
  ),
)

pub texts_IsLine : (ls : List ConfigLine) → All IsConfigLine ls → All IsLine (texts_of ls)
texts_IsLine [] h = tt
texts_IsLine (l ∷ ls) (hl, h) = (config_IsLine l hl, texts_IsLine ls h)
