-- ===== src/Logger/Texts.antt =====
-- The text of insertions.
use linux_cpp_file_server.Base.{
  ◌^◌, ◌+◌, ◌≤◌, ◌≡◌, refl, sym, ap, ◌∙◌, true, List, [], ◌∷◌, ◌++◌, append_assoc, append-nil,
  Option, none, some, arith, leb, if◌then◌else◌, length, length-append,
}
use linux_cpp_file_server.Base.Bytes.{Bytes, codes}
use linux_cpp_file_server.Base.Integers.{ℤ}
use linux_cpp_file_server.FixedBuffer
use linux_cpp_file_server.FixedBuffer.{FixedBuffer, fresh, avail, append_room}
use linux_cpp_file_server.LogStream.{
  Item, boolean, text, integer, character, c_string, template, formatted, output, append_narrowed,
  format_integer, integer_text, max_num_size,
}
use linux_cpp_file_server.LogStream.Output.{item_text, append_narrowed_lem}
use linux_cpp_file_server.Logger.{output_next, output_all}

abbrev pub joined : Option Bytes → Option Bytes → Option Bytes
joined none o = none
joined (some a) none = none
joined (some a) (some b) = some (a ++ b)

-- The texts of the insertions, one after the other.
abbrev pub line_text : List Item → Option Bytes
line_text [] = some []
line_text (i ∷ is) = joined (item_text i) (line_text is)

-- The buffer with `s` behind what it holds.
abbrev pub with_text : Bytes → FixedBuffer → FixedBuffer
with_text s b = record b { written = b.written ++ s }

append_text :
    (v s : Bytes) (b : FixedBuffer)
    → some v ≡ some s
    → length s + max_num_size ≤ avail b
    → some (FixedBuffer.append v b) ≡ some (with_text s b)
append_text v s b e h =
    let same : v ≡ s = ground (arith, e) in
    ap (λ x. some (FixedBuffer.append x b)) same ∙ ap some (append_room s b (omega (arith, h)))

narrowed_text :
    (v s : Bytes) (b : FixedBuffer)
    → some v ≡ some s
    → length s + max_num_size ≤ avail b
    → b.size ≤ 2 ^ 31
    → append_narrowed v b ≡ some (with_text s b)
narrowed_text v s b e h z =
    let same : v ≡ s = ground (arith, e) in
    append_narrowed_lem v b (omega (arith, ap length same, h, z)) ∙ append_text v s b e h

integer_written :
    (v : ℤ) (s : Bytes) (b : FixedBuffer)
    → integer_text v ≡ some s
    → length s + max_num_size ≤ avail b
    → format_integer v b ≡ some (with_text s b)
unfolding format_integer FixedBuffer.add
integer_written v s b e h =
    let room : leb max_num_size (avail b) ≡ true = ground arith in rw (room, e) refl

output_text :
    (i : Item) (s : Bytes) (b : FixedBuffer)
    → item_text i ≡ some s
    → length s + max_num_size ≤ avail b
    → b.size ≤ 2 ^ 31
    → output i b ≡ some (with_text s b)
unfolding output
output_text (boolean v) s b e h z = append_text (if v then codes "1" else codes "0") s b e h
output_text (text v) s b e h z = narrowed_text v s b e h z
output_text (integer v) s b e h z = integer_written v s b e h
output_text (character v) s b e h z = append_text (v ∷ []) s b e h
output_text (c_string (some v)) s b e h z = narrowed_text v s b e h z
output_text (c_string none) s b e h z = append_text (codes "(null)") s b e h
output_text (template v) s b e h z = append_text v s b e h
output_text (formatted v) s b e h z = append_text v s b e h

-- Both texts of a joined one.
joined-some :
    (x y : Option Bytes) (s : Bytes)
    → joined x y ≡ some s
    → (a : Bytes) × (b : Bytes) × (x ≡ some a) × (y ≡ some b) × (s ≡ a ++ b)
joined-some none y s e = absurd (ground (arith, e))
joined-some (some a) none s e = absurd (ground (arith, e))
joined-some (some a) (some b) s e = (a, b, refl, refl, ground (arith, e))

-- Insertions that fit, with the room for a number to spare, are all written, in their order.
pub output_all-line_text :
    (is : List Item) (s : Bytes) (b : FixedBuffer)
    → line_text is ≡ some s
    → length s + max_num_size ≤ avail b
    → b.size ≤ 2 ^ 31
    → output_all is b ≡ some (with_text s b)
unfolding output_all
output_all-line_text [] s b e h z =
    let none_left : [] ≡ s = ground (arith, e) in
    ap (λ t. some (record b { written = t }))
      (sym (append-nil b.written) ∙ ap (◌++◌ b.written) none_left)
output_all-line_text (i ∷ is) s b e h z =
    let (x, y, first, rest, both) = joined-some (item_text i) (line_text is) s e in
    let sizes = ap length both ∙ length-append x y in
    ap (output_next (output_all is)) (output_text i x b first (omega (arith, sizes)) z)
    ∙ output_all-line_text is y (with_text x b) rest
        (omega (arith, sizes, length-append b.written x)) z
    ∙ ap (λ t. some (record b { written = t }))
        (append_assoc b.written x y ∙ ap (◌++◌ b.written) (sym both))
