-- ===== src/Shared/Bytes.antt =====
-- The UTF-8 bytes of a text, as Go's `len(s)` and `s[:n]` see them.
use Prim.Native.Nat.{ℕ, ◌+◌, ◌-◌}
use Prim.Native.Char.{Char, code}
use Prim.Native.String.{String}
use mathlib.Core.Option.{Option, none, some}
use mathlib.Core.Path.{◌≡◌, refl}
use wacht.Shared.Tests.{ltb, nat_eq, if◌then◌else◌}

-- utf8.RuneLen
unfoldable pub rune_len : Char → ℕ
rune_len ch =
    if ltb (code ch) 0x80
    then 1
    else if ltb (code ch) 0x800
    then 2
    else if ltb (code ch) 0x10000
    then 3
    else 4

-- len(s)
unfoldable pub byte_length : String → ℕ
unfolding rune_len
byte_length String.[] = 0
byte_length (String.◌∷◌ ch s) = rune_len ch + byte_length s

abbrev pub add_char : Char → Option String → Option String
add_char ch none = none
add_char ch (some s) = some (String.◌∷◌ ch s)

-- s[:n], `none` where the cut falls inside a character, so that the bytes are no text.
unfoldable pub cut_bytes : ℕ → String → Option String
unfolding rune_len
cut_bytes n String.[] = some String.[]
cut_bytes n (String.◌∷◌ ch s) =
    let rest = cut_bytes (n - rune_len ch) s in
    if nat_eq n 0 then some String.[] else if ltb n (rune_len ch) then none else add_char ch rest

cuts_inside : cut_bytes 2 "aé" ≡ none
unfolding cut_bytes
cuts_inside = refl
