-- ===== src/PathSafety.antt =====
-- Which names of an archive may be extracted: zupt_path_is_safe of zupt-5.2.10/src/zupt_format.c with
-- its helpers. A path is the list of its bytes in front of the NUL.
pub mod Contained
pub mod Ends
mod Tests
use zupt_web.Base.{
  ℕ, zero, suc, ◌+◌, ◌-◌, ltb, leb, ◌==◌, ◌&&◌, ◌||◌, not, Bool, true, false, if◌then◌else◌, List,
  [], ◌∷◌, ◌++◌, length, get_or, drop, bytes_eq,
}
use zupt_web.Base.Outcome.{Outcome, done, hang, ◌>>=◌}
use zupt_web.Text.{within, decode_utf8_scalar, is_display_control}

unfoldable pub upper : ℕ → ℕ
upper c = if within 0x61 0x7a c then c - 32 else c

-- zupt_ascii_equal_ci: the lengths and the folded bytes agree.
unfoldable pub ascii_equal_ci : List ℕ → List ℕ → Bool
unfolding upper
ascii_equal_ci [] [] = true
ascii_equal_ci [] (b ∷ literal) = false
ascii_equal_ci (a ∷ value) [] = false
ascii_equal_ci (a ∷ value) (b ∷ literal) = (upper a == upper b) && ascii_equal_ci value literal

-- The part of a component in front of its first dot.
unfoldable pub base_name : List ℕ → List ℕ
base_name [] = []
base_name (c ∷ component) = if c == 0x2e then [] else c ∷ base_name component

-- COM1 to COM9 and LPT1 to LPT9, in either case of the letters.
unfoldable pub is_port : List ℕ → ℕ → ℕ → ℕ → Bool
is_port base x y z =
    (length base == 4)
    && (upper (get_or base 0 0) == x)
    && (upper (get_or base 1 0) == y)
    && (upper (get_or base 2 0) == z)
    && within 0x31 0x39 (get_or base 3 0)

unfoldable pub is_reserved_dos_name : List ℕ → Bool
unfolding base_name
is_reserved_dos_name component =
    let base = base_name component in
    ascii_equal_ci base (0x43 ∷ 0x4f ∷ 0x4e ∷ [])
    || ascii_equal_ci base (0x50 ∷ 0x52 ∷ 0x4e ∷ [])
    || ascii_equal_ci base (0x41 ∷ 0x55 ∷ 0x58 ∷ [])
    || ascii_equal_ci base (0x4e ∷ 0x55 ∷ 0x4c ∷ [])
    || is_port base 0x43 0x4f 0x4d
    || is_port base 0x4c 0x50 0x54

-- The loop of zupt_path_has_unsafe_text on fuel; every round moves the cursor.
unfoldable pub unsafe_loop : ℕ → List ℕ → Outcome Bool
unsafe_loop fuel [] = done false
unsafe_loop zero (b ∷ path) = hang
unsafe_loop (suc fuel) (b ∷ path) =
    let (len, codepoint) = decode_utf8_scalar (b ∷ path) in
    let rest = unsafe_loop fuel (drop len (b ∷ path)) in
    if (len == 0) || is_display_control codepoint then done true else rest

unfoldable pub path_has_unsafe_text : List ℕ → Outcome Bool
path_has_unsafe_text path = unsafe_loop (length path) path

abbrev pub separator : ℕ → Bool
separator c = (c == 0x2f) || (c == 0x5c)

-- `memchr(path, c, len) != NULL`
unfoldable pub memchr : List ℕ → ℕ → Bool
memchr [] c = false
memchr (b ∷ path) c = (b == c) || memchr path c

-- `c < 0x20 || c == 0x7f` of some byte.
unfoldable pub has_control : List ℕ → Bool
has_control [] = false
has_control (c ∷ component) = ltb c 0x20 || (c == 0x7f) || has_control component

unfoldable pub last_byte : List ℕ → ℕ
last_byte component = get_or component (length component - 1) 0

-- The tests of a component that is not empty.
unfoldable pub component_ok : List ℕ → Bool
component_ok component =
    not (bytes_eq component (0x2e ∷ []) || bytes_eq component (0x2e ∷ 0x2e ∷ []))
    && not (
        (last_byte component == 0x2e)
        || (last_byte component == 0x20)
        || is_reserved_dos_name component)
    && not (has_control component)

-- The component scan: the bytes from `start` to the cursor, and the bytes ahead. An empty component
-- is skipped, but not at the end.
unfoldable pub scan : List ℕ → List ℕ → Bool
scan component [] = if length component == 0 then false else component_ok component
scan component (c ∷ path) =
    let next = scan [] path in
    let longer = scan (component ++ (c ∷ [])) path in
    if separator c
    then if length component == 0 then next else component_ok component && next
    else longer

unfoldable pub path_is_safe : List ℕ → Outcome Bool
path_is_safe path =
    let scanned = path_has_unsafe_text path >>= λ bad.
    if bad
    then done false
    else if separator (get_or path 0 0)
    then done false
    else if memchr path 0x3a
    then done false
    else done (scan [] path) in
    if length path == 0 then done false else if leb 4096 (length path) then done false else scanned
