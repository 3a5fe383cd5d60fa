-- ===== src/LiveView/Texts.antt =====
-- The methods of `str` that src/liveview/state.rs calls.
use Prim.Native.Char.{Char, code}
use Prim.Native.String.{String}
use mmat.Prelude.{ℕ, Bool, true, false, ◌||◌, ◌&&◌, leb, ◌==◌, if◌then◌else◌}

-- `char::is_whitespace`: the characters with the Unicode property White_Space.
abbrev pub is_whitespace : Char → Bool
is_whitespace c =
    let n = code c in
    (leb 9 n && leb n 13)
    || n == 32
    || n == 133
    || n == 160
    || n == 5760
    || (leb 8192 n && leb n 8202)
    || n == 8232
    || n == 8233
    || n == 8239
    || n == 8287
    || n == 12288

abbrev pub is_empty : String → Bool
is_empty String.[] = true
is_empty (String.◌∷◌ c s) = false

abbrev pub trim_start : String → String
trim_start String.[] = String.[]
trim_start (String.◌∷◌ c s) =
    let rest = trim_start s in if is_whitespace c then rest else String.◌∷◌ c s

-- `trim().is_empty()`
abbrev pub is_blank : String → Bool
is_blank s = is_empty (trim_start s)

-- `starts_with` a character, given by its code point.
abbrev pub starts_with : ℕ → String → Bool
starts_with n String.[] = false
starts_with n (String.◌∷◌ c s) = code c == n
