-- ===== src/LogStream/Output.antt =====
-- The insertion operators of `LogStream` and the room in its buffer.
use linux_cpp_file_server.Base.{
  true, take_all, ◌%◌, ◌^◌, suc, map, ◌≤◌, ◌<◌, ◌≡◌, refl, [], ◌∷◌, ◌++◌, Bool, Option, none, some,
  arith, leb, length, Bool-cases, inl, inr, if◌then◌else◌, ap, ltb,
}
use linux_cpp_file_server.Base.Bytes.{Bytes, codes}
use linux_cpp_file_server.Base.Integers.{ℤ, pos, negsuc}
use linux_cpp_file_server.FixedBuffer
use linux_cpp_file_server.FixedBuffer.{FixedBuffer, avail, Fits}
use linux_cpp_file_server.LogStream.{
  max_num_size, integer_text, format_integer, Item, boolean, text, integer, character, c_string,
  template, formatted, output, append_narrowed,
}
use linux_cpp_file_server.LogStream.Decimal.{mirror, integer_text-pos, integer_text-negsuc}

-- The numbers of the types that `operator<<` takes: between -2^63 and 2^64 - 1.
abbrev pub Is64Bit : ℤ → Type 0
Is64Bit (pos n) = n < 2 ^ 64
Is64Bit (negsuc n) = n < 2 ^ 63

length-map-mirror : (s : Bytes) → length (map mirror s) ≡ length s
length-map-mirror [] = refl
length-map-mirror (c ∷ s) = ap suc (length-map-mirror s)

pub integer_text_short :
    (v : ℤ) → Is64Bit v → (s : Bytes) × (integer_text v ≡ some s) × (length s ≤ 20)
integer_text_short (pos n) h = let (s, e, _, l, _) = integer_text-pos n h in (s, e, l)
integer_text_short (negsuc n) h =
    let (s, e, _, l, _) = integer_text-pos (suc n) (omega arith) in
    let (s', e', m, _) = integer_text-negsuc n (omega arith) in
    let same : s ≡ s' = ground (arith, e, e') in
    (map mirror s', m, omega (arith, length-map-mirror s', ap length same))

-- The text that each overload stands for.
abbrev pub item_text : Item → Option Bytes
item_text (boolean v) = some (if v then codes "1" else codes "0")
item_text (text v) = some v
item_text (integer v) = integer_text v
item_text (character v) = some (v ∷ [])
item_text (c_string (some v)) = some v
item_text (c_string none) = some (codes "(null)")
item_text (template v) = some v
item_text (formatted v) = some v

-- The length of a text is an `int`.
abbrev pub IsItem : Item → Type 0
IsItem (text v) = length v < 2 ^ 31
IsItem (c_string (some v)) = length v < 2 ^ 31
IsItem (integer v) = Is64Bit v
IsItem _ = Unit {0}

-- The room that an insertion asks for.
abbrev pub has_room : Item → Bytes → FixedBuffer → Bool
has_room (integer v) s b = leb max_num_size (avail b)
has_room _ s b = ltb (length s) (avail b)

pub append_narrowed_lem :
    (s : Bytes) (b : FixedBuffer)
    → length s < 2 ^ 31
    → append_narrowed s b ≡ some (FixedBuffer.append s b)
unfolding append_narrowed
append_narrowed_lem s b h =
    let whole : length s % 2 ^ 32 ≡ length s = omega (arith, h) in
    let small : ltb (length s) (2 ^ 31) ≡ true = ground (arith, h) in
    rw (whole, small)
      (ap (λ t. some (FixedBuffer.append t b)) (take_all (length s) s (omega arith)))

-- What an insertion does: it succeeds, writes its whole text where there is room and nothing where
-- there is none, and leaves the cursor inside the array.
pub record Inserted (i : Item) (b : FixedBuffer) : Type 0 where
  pub line : Bytes
  pub after : FixedBuffer
  pub rendered : item_text i ≡ some line
  pub outcome : output i b ≡ some after
  pub written : after.written ≡ (if has_room i line b then b.written ++ line else b.written)
  pub same_size : after.size ≡ b.size
  pub fits : Fits after

append-Inserted :
    (i : Item) (s : Bytes) (b : FixedBuffer)
    → Fits b
    → item_text i ≡ some s
    → output i b ≡ some (FixedBuffer.append s b)
    → has_room i s b ≡ ltb (length s) (avail b)
    → Inserted i b
append-Inserted i s b h rendered outcome room = record {
  line = s;
  after = FixedBuffer.append s b;
  rendered = rendered;
  outcome = outcome;
  written = rw room (unfold FixedBuffer.append in ground arith);
  same_size = unfold FixedBuffer.append in ground arith;
  fits = FixedBuffer.append-Fits s b h;
}

-- Every insertion into a log line succeeds, is all or nothing, and stays inside the buffer; a
-- number needs 48 free bytes, and any other text one byte more than its length. Numbers are of 64
-- bits, and the lengths of texts are below 2^31.
pub output_lem : (i : Item) (b : FixedBuffer) → IsItem i → Fits b → Inserted i b
unfolding output
output_lem (boolean v) b w h = append-Inserted (boolean v) _ b h refl refl refl
output_lem (text v) b w h = append-Inserted (text v) v b h refl (append_narrowed_lem v b w) refl
output_lem (character v) b w h = append-Inserted (character v) (v ∷ []) b h refl refl refl
output_lem (c_string (some v)) b w h =
    append-Inserted (c_string (some v)) v b h refl (append_narrowed_lem v b w) refl
output_lem (c_string none) b w h = append-Inserted (c_string none) _ b h refl refl refl
output_lem (template v) b w h = append-Inserted (template v) v b h refl refl refl
output_lem (formatted v) b w h = append-Inserted (formatted v) v b h refl refl refl
output_lem (integer v) b w h =
    let (s, e, l) = integer_text_short v w in
    elim (Bool-cases (leb max_num_size (avail b))) [
      | inl room ↦ record {
        line = s;
        after = FixedBuffer.add s b;
        rendered = e;
        outcome = unfold format_integer in rw (room, e);
        written = rw room (unfold FixedBuffer.add in refl);
        same_size = unfold FixedBuffer.add in refl;
        fits = FixedBuffer.add-Fits s b (ground arith) h;
      }
      | inr full ↦ record {
        line = s;
        after = b;
        rendered = e;
        outcome = unfold format_integer in rw full;
        written = rw full;
        same_size = refl;
        fits = h;
      }
    ]
