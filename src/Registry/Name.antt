-- ===== src/Registry/Name.antt =====
-- `validDisplayName` of NodeRegistry.cpp: at most 48 bytes of UTF-8 with no control character.
use radio_sensors.Prelude.{
  ℕ, zero, suc, ◌+◌, ◌*◌, Bool, true, false, not, ◌&&◌, ◌||◌, List, [], ◌∷◌, Option, none, some,
  length, take, bit_and, ltb, leb, ◌==◌, if◌then◌else◌,
}

abbrev pub node_display_name_size : ℕ
node_display_name_size = 48

-- The first byte of a code point: its bits, and the number of continuation bytes.
unfoldable pub lead : ℕ → Option (ℕ × ℕ)
lead first =
    if ltb first 0x80
    then some (first, 0)
    else if leb 0xc2 first && leb first 0xdf
    then some (bit_and first 0x1f, 1)
    else if leb 0xe0 first && leb first 0xef
    then some (bit_and first 0x0f, 2)
    else if leb 0xf0 first && leb first 0xf4
    then some (bit_and first 0x07, 3)
    else none

-- The loop over the continuation bytes, with what it has not read. The code point's low six bits
-- are clear when a byte's are joined, so `|` is `+`.
unfoldable pub continue : ℕ → ℕ → List ℕ → Option (ℕ × List ℕ)
continue zero code_point rest = some (code_point, rest)
continue (suc count) code_point [] = none
continue (suc count) code_point (next ∷ rest) =
    let more = continue count (code_point * 64 + bit_and next 0x3f) rest in
    if not (bit_and next 0xc0 == 0x80) then none else more

-- Too long a form, past the last code point, a surrogate or a control character.
unfoldable pub is_refused : ℕ → ℕ → Bool
is_refused count code_point =
    (count == 2 && ltb code_point 0x800)
    || (count == 3 && ltb code_point 0x10000)
    || ltb 0x10ffff code_point
    || (leb 0xd800 code_point && leb code_point 0xdfff)
    || ltb code_point 0x20
    || (leb 0x7f code_point && leb code_point 0x9f)

-- One round of the loop: the bytes after the code point, or `none` where the name is refused.
unfoldable pub next_point : ℕ → List ℕ → Option (List ℕ)
next_point first rest = elim (lead first) [
  | none ↦ none
  | some (bits, count) ↦ if ltb (length rest) count then none else elim (continue count bits rest) [
    | none ↦ none
    | some (code_point, rest') ↦ if is_refused count code_point then none else some rest'
  ]
]

-- The loop over the bytes that `index` has not reached. Each round takes one byte at least, so as
-- many rounds as there are bytes are enough; `false` at fuel 0 is never reached.
unfoldable pub valid_points : ℕ → List ℕ → Bool
valid_points fuel [] = true
valid_points zero (first ∷ rest) = false
valid_points (suc fuel) (first ∷ rest) = elim (next_point first rest) [
  | none ↦ false
  | some rest' ↦ valid_points fuel rest'
]

-- `none` is a null pointer.
unfoldable pub valid_display_name : Option (List ℕ) → ℕ → Bool
valid_display_name none size = size == 0 && leb size node_display_name_size
valid_display_name (some value) size =
    leb size node_display_name_size && valid_points size (take size value)
