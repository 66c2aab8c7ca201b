-- ===== src/Platform/Quote.antt =====
-- JSON.stringify of a string: quotes, the short escapes, \u00xx for the other control characters, and
-- \udxxx for a lone surrogate.
use widespread_logos.Prelude.{
  ℕ, Bool, ◌&&◌, ◌||◌, [], ◌∷◌, ◌++◌, Text, leb, ltb, ◌==◌, if◌then◌else◌,
}
use widespread_logos.Platform.{to_radix, pad_start}

unicode_escape : ℕ → Text
unicode_escape u = b'\\' ∷ b'u' ∷ pad_start 4 (to_radix 16 u)

escape_unit : ℕ → Text
unfolding unicode_escape
escape_unit u =
    if u == b'"'
    then b'\\' ∷ b'"' ∷ []
    else if u == b'\\'
    then b'\\' ∷ b'\\' ∷ []
    else if u == 8
    then b'\\' ∷ b'b' ∷ []
    else if u == 9
    then b'\\' ∷ b't' ∷ []
    else if u == 10
    then b'\\' ∷ b'n' ∷ []
    else if u == 12
    then b'\\' ∷ b'f' ∷ []
    else if u == 13
    then b'\\' ∷ b'r' ∷ []
    else if ltb u 32 || (leb 0xDC00 u && ltb u 0xE000)
    then unicode_escape u
    else u ∷ []

is_high : ℕ → Bool
is_high u = leb 0xD800 u && ltb u 0xDC00

-- One code unit; `pending` is a high surrogate that has not been written yet, or 0.
quote_unit : ℕ → ℕ → Text × ℕ
unfolding escape_unit is_high unicode_escape
quote_unit pending u =
    if pending == 0
    then if is_high u then ([], u) else (escape_unit u, 0)
    else if leb 0xDC00 u && ltb u 0xE000
    then (pending ∷ u ∷ [], 0)
    else if is_high u
    then (unicode_escape pending, u)
    else (unicode_escape pending ++ escape_unit u, 0)

quote_from : ℕ → Text → Text
quote_from pending [] = (if pending == 0 then [] else unicode_escape pending) ++ b'"' ∷ []
quote_from pending (u ∷ s) = let (out, later) = quote_unit pending u in out ++ quote_from later s

unfoldable pub json_quote : Text → Text
unfolding quote_from quote_unit
json_quote s = b'"' ∷ quote_from 0 s
