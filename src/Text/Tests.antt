-- ===== src/Text/Tests.antt =====
-- Text on its way to the terminal.
use zupt_web.Base.{◌≡◌, refl, [], ◌∷◌, arith}
use zupt_web.Base.Outcome.{done}
use zupt_web.Text.{
  decode_utf8_scalar, is_display_control, hex_digit, escape, print_step, print_loop,
  print_terminal_safe_text,
}
use zupt_web.Text.Safe.{Safe, print_terminal_safe_text-Safe}

-- An escape sequence is spelled out, and a letter of two bytes kept.
shown :
    print_terminal_safe_text (0x1b ∷ 0x41 ∷ 0xc3 ∷ 0xa9 ∷ [])
    ≡ done (0x5c ∷ 0x78 ∷ 0x31 ∷ 0x42 ∷ 0x41 ∷ 0xc3 ∷ 0xa9 ∷ [])
unfolding print_terminal_safe_text print_loop print_step decode_utf8_scalar is_display_control
    escape hex_digit
shown = refl

print_terminal_safe_text-Safe_example : Safe (print_terminal_safe_text (0x1b ∷ 0x41 ∷ 0xff ∷ []))
print_terminal_safe_text-Safe_example =
    print_terminal_safe_text-Safe (0x1b ∷ 0x41 ∷ 0xff ∷ []) (omega arith)
