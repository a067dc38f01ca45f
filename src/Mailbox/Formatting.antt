-- ===== src/Mailbox/Formatting.antt =====
-- Opening a mailbox on an empty device (`readHeader` and `format` of pkg/diskrpc/mailbox.go).
use native.Mathlib.Nat.{mod_self}
use csi_sanlock_lvm.Base.{
  ℕ, suc, ◌+◌, ◌*◌, ◌%◌, ◌^◌, ◌≤◌, ◌<◌, ◌≡◌, refl, ap, ◌∙◌, ◌∷◌, ◌++◌, Bytes, bytes_eq,
  bytes_eq_refl, take, drop, length, length-replicate, replicate, ok, arith, true, false, ◌==◌,
}
use csi_sanlock_lvm.Allocator.Heap.{shl1, ones_count}
use csi_sanlock_lvm.Allocator.Create.{ones_count-shl1, shl1_mono}
use csi_sanlock_lvm.Mailbox.Device.{
  put_uint32, uint32, uint32-put_uint32, length-overwrite, overwrite-front,
}
use csi_sanlock_lvm.Mailbox.Layout.{to_blocks, state_bytes}
use csi_sanlock_lvm.Mailbox.Header.{
  Sizes, magic_header, data_version, byte_at, header_of, parse_header,
}

shl1-28 : shl1 28 ≡ 2 ^ 28
unfolding shl1
shl1-28 = refl

-- The fields of a header.
abbrev fields : ℕ → ℕ → ℕ → Bytes
fields b_size f_size a_size =
    magic_header
    ++ (data_version ∷ 0 ∷ (put_uint32 b_size ++ (put_uint32 f_size ++ put_uint32 a_size)))

-- The sizes of a file with 2 ^ `d` blocks.
abbrev pub sizes_of : ℕ → ℕ → Sizes
sizes_of b_size cnt = record {
  b_size = b_size;
  s_size = to_blocks b_size (state_bytes (cnt * 4)) * b_size;
  a_size = cnt * 4;
}

parse_header-fields :
    (directio_block_size b_size a_size : ℕ) (block : Bytes)
    → byte_at 16 block ≡ 1
    → byte_at 17 block ≡ 0
    → uint32 (drop 18 block) ≡ b_size
    → uint32 (drop 26 block) ≡ a_size
    → (b_size == 0) ≡ false
    → b_size % directio_block_size ≡ 0
    → ones_count 64 (a_size + 4) ≡ 1
    → parse_header directio_block_size block
      ≡ ok (record {
        b_size = b_size;
        s_size = to_blocks b_size (state_bytes a_size) * b_size;
        a_size = a_size;
      })
unfolding parse_header
parse_header-fields directio_block_size b_size a_size block version zero_byte b a some_size multiple
      power =
    rw (parse_header, version, zero_byte, b, a, some_size, multiple, power) refl

module _ (b_size f_size : ℕ) (large : 30 ≤ b_size) where
  header_of-fields :
      (a_size : ℕ)
      → header_of b_size f_size a_size ≡ fields b_size f_size a_size ++ drop 30 (replicate b_size 0)
  unfolding header_of put_uint32
  header_of-fields a_size =
      overwrite-front (replicate b_size 0) (fields b_size f_size a_size)
        (omega (arith, length-replicate {A = ℕ} b_size 0))

  pub length-header_of : (a_size : ℕ) → length (header_of b_size f_size a_size) ≡ b_size
  unfolding header_of
  length-header_of a_size =
      length-overwrite (replicate b_size 0) 0 (fields b_size f_size a_size)
      ∙ length-replicate b_size 0

  -- What readHeader reads of a header is what format wrote.
  pub parse_header-header_of :
      (d cnt : ℕ)
      → b_size < 2 ^ 32
      → d ≤ 28
      → cnt + 1 ≡ 2 * shl1 d
      → parse_header b_size (header_of b_size f_size (cnt * 4)) ≡ ok (sizes_of b_size cnt)
  unfolding put_uint32
  parse_header-header_of d cnt small hd e =
      parse_header-fields b_size b_size (cnt * 4) (header_of b_size f_size (cnt * 4))
        (ap (byte_at 16) (header_of-fields (cnt * 4)))
        (ap (byte_at 17) (header_of-fields (cnt * 4)))
        (ap (λ s. uint32 (drop 18 s)) (header_of-fields (cnt * 4))
          ∙ uint32-put_uint32 b_size _ small)
        (ap (λ s. uint32 (drop 26 s)) (header_of-fields (cnt * 4))
          ∙ uint32-put_uint32 (cnt * 4) _ bound)
        (ground arith) (mod_self b_size)
        (ap (ones_count 64) power ∙ ones_count-shl1 64 (suc (suc (suc d))) (omega arith))
    where
      bound : cnt * 4 < 2 ^ 32
      bound = omega (arith, shl1_mono d 28 hd, shl1-28)

      power : cnt * 4 + 4 ≡ shl1 (suc (suc (suc d)))
      power = unfold shl1 in omega arith

  pub header_of-magic :
      (a_size : ℕ) → bytes_eq (take 16 (header_of b_size f_size a_size)) magic_header ≡ true
  header_of-magic a_size =
      ap (λ s. bytes_eq (take 16 s) magic_header) (header_of-fields a_size)
      ∙ bytes_eq_refl magic_header
