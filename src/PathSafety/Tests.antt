-- ===== src/PathSafety/Tests.antt =====
-- Paths that are accepted and refused.
use zupt_web.Base.{◌≡◌, refl, true, false, [], ◌∷◌, All}
use zupt_web.Base.Outcome.{done}
use zupt_web.Text.{decode_utf8_scalar, is_display_control}
use zupt_web.PathSafety.{
  ascii_equal_ci, base_name, is_port, is_reserved_dos_name, unsafe_loop, path_has_unsafe_text,
  separator, memchr, has_control, last_byte, component_ok, scan, path_is_safe,
}
use zupt_web.PathSafety.Ends.{Answers, path_is_safe-Answers}
use zupt_web.PathSafety.Contained.{components, Named, path_is_safe-Named}

-- "a/b"
inside : path_is_safe (0x61 ∷ 0x2f ∷ 0x62 ∷ []) ≡ done true
unfolding path_is_safe path_has_unsafe_text unsafe_loop decode_utf8_scalar is_display_control memchr
    has_control last_byte component_ok scan ascii_equal_ci base_name is_port is_reserved_dos_name
inside = refl

-- "a/.."
outside : path_is_safe (0x61 ∷ 0x2f ∷ 0x2e ∷ 0x2e ∷ []) ≡ done false
unfolding path_is_safe path_has_unsafe_text unsafe_loop decode_utf8_scalar is_display_control memchr
    has_control last_byte component_ok scan ascii_equal_ci base_name is_port is_reserved_dos_name
outside = refl

-- "NUL.t"
device : path_is_safe (0x4e ∷ 0x75 ∷ 0x4c ∷ 0x2e ∷ 0x74 ∷ []) ≡ done false
unfolding path_is_safe path_has_unsafe_text unsafe_loop decode_utf8_scalar is_display_control memchr
    has_control last_byte component_ok scan ascii_equal_ci base_name is_port is_reserved_dos_name
device = refl

path_is_safe-Named_example :
    (separator 0x61 ≡ false)
    × (memchr (0x61 ∷ 0x2f ∷ 0x62 ∷ []) 0x3a ≡ false)
    × All Named (components [] (0x61 ∷ 0x2f ∷ 0x62 ∷ []))
path_is_safe-Named_example = path_is_safe-Named (0x61 ∷ 0x2f ∷ 0x62 ∷ []) inside

path_is_safe-Answers_example : Answers (path_is_safe (0x61 ∷ 0x2f ∷ []))
path_is_safe-Answers_example = path_is_safe-Answers (0x61 ∷ 0x2f ∷ [])
