-- ===== src/Text.antt =====
-- Text of an untrusted archive on its way to a terminal: zupt_decode_utf8_scalar,
-- zupt_codepoint_is_display_control and zupt_print_terminal_safe_text of
-- zupt-5.2.10/src/zupt_format.c. A C string is the list of its bytes in front of the NUL; a read at its
-- end gives the NUL.
pub mod Safe
mod Tests
use zupt_web.Base.{
  ℕ, zero, suc, ◌+◌, ◌-◌, ◌*◌, ◌/◌, ◌%◌, ltb, leb, ◌==◌, ◌&&◌, ◌||◌, not, Bool, true, false,
  if◌then◌else◌, List, [], ◌∷◌, ◌++◌, length, get_or, take, drop, bit_and, bit_or, u32, ◌<<<◌,
}
use zupt_web.Base.Outcome.{Outcome, done, hang, ◌>>=◌}

-- `lo <= c && c <= hi`
abbrev pub within : ℕ → ℕ → ℕ → Bool
within lo hi c = leb lo c && leb c hi

-- A continuation byte.
abbrev pub continues : ℕ → Bool
continues b = bit_and b 0xc0 == 0x80

-- The lead and second byte of a scalar of three bytes, and of four.
unfoldable pub lead3 : ℕ → ℕ → Bool
lead3 a b =
    ((a == 0xe0) && within 0xa0 0xbf b)
    || (within 0xe1 0xec a && continues b)
    || ((a == 0xed) && within 0x80 0x9f b)
    || (within 0xee 0xef a && continues b)

unfoldable pub lead4 : ℕ → ℕ → Bool
lead4 a b =
    ((a == 0xf0) && within 0x90 0xbf b)
    || (within 0xf1 0xf3 a && continues b)
    || ((a == 0xf4) && within 0x80 0x8f b)

-- The returned length, 0 for invalid text, and `*codepoint`.
unfoldable pub decode_utf8_scalar : List ℕ → ℕ × ℕ
decode_utf8_scalar text =
    let a = get_or text 0 0 in
    let b = get_or text 1 0 in
    let c = get_or text 2 0 in
    let d = get_or text 3 0 in
    if ltb a 0x80
    then (1, a)
    else if b == 0
    then (0, 0)
    else if within 0xc2 0xdf a && continues b
    then (2, bit_or (bit_and a 0x1f <<< 6) (bit_and b 0x3f))
    else if c == 0
    then (0, 0)
    else if not (continues c)
    then (0, 0)
    else if lead3 a b
    then (3, bit_or (bit_or (bit_and a 0x0f <<< 12) (bit_and b 0x3f <<< 6)) (bit_and c 0x3f))
    else if d == 0
    then (0, 0)
    else if not (continues d)
    then (0, 0)
    else if not (lead4 a b)
    then (0, 0)
    else (
      4,
      bit_or
          (bit_or (bit_or (bit_and a 0x07 <<< 18) (bit_and b 0x3f <<< 12)) (bit_and c 0x3f <<< 6))
          (bit_and d 0x3f),
    )

unfoldable pub is_display_control : ℕ → Bool
is_display_control c =
    ltb c 0x20
    || within 0x7f 0x9f c
    || (c == 0x061c)
    || within 0x200b 0x200f c
    || within 0x2028 0x202e c
    || within 0x2060 0x206f c
    || (c == 0xfeff)
    || within 0xfff9 0xfffb c

-- `fprintf(stream, "\\x%02X", byte)`
unfoldable pub hex_digit : ℕ → ℕ
hex_digit n = if ltb n 10 then 0x30 + n else 0x37 + n

unfoldable pub escape : List ℕ → List ℕ
escape [] = []
escape (b ∷ bs) = 0x5c ∷ 0x78 ∷ hex_digit (b / 16) ∷ hex_digit (b % 16) ∷ escape bs

-- One round of the loop: what is printed, and how far the cursor moves.
unfoldable pub print_step : List ℕ → List ℕ × ℕ
print_step cursor =
    let (len, codepoint) = decode_utf8_scalar cursor in
    if len == 0
    then (escape (take 1 cursor), 1)
    else if is_display_control codepoint
    then (escape (take len cursor), len)
    else (take len cursor, len)

-- The loop on fuel: every round moves the cursor, so the length of the text is enough.
unfoldable pub print_loop : ℕ → List ℕ → Outcome (List ℕ)
print_loop fuel [] = done []
print_loop zero (b ∷ text) = hang
print_loop (suc fuel) (b ∷ text) =
    let (shown, n) = print_step (b ∷ text) in
    print_loop fuel (drop n (b ∷ text)) >>= λ rest. done (shown ++ rest)

unfoldable pub print_terminal_safe_text : List ℕ → Outcome (List ℕ)
print_terminal_safe_text text = print_loop (length text) text
