-- ===== src/Mailbox/Segments.antt =====
-- What a write to one segment of the file leaves of the others.
use csi_sanlock_lvm.Base.{
  ℕ, ◌+◌, ◌-◌, ◌*◌, ◌^◌, drop-append, ◌≤◌, ◌<◌, ◌≡◌, refl, sym, ap, ◌∙◌, Bytes, bytes_eq, take,
  drop, length, true, ok, arith, le→leb, replicate, length-replicate, ◌++◌,
}
use csi_sanlock_lvm.Base.Int.{pos}
use csi_sanlock_lvm.Mailbox.Device.{
  read_at, overwrite, put_uint32, uint32, uint32-put_uint32, length-put_uint32, length-overwrite,
  length-drop, overwrite-front, drop-overwrite, drop-overwrite_after, take-overwrite_before,
  take-append,
}
use csi_sanlock_lvm.Mailbox.Header.{Sizes, magic_header, parse_header, find_header, read_header}
use csi_sanlock_lvm.Mailbox.Torn.{read_at-fits}
use csi_sanlock_lvm.Mailbox.Messages.{Codec, read_chunk, read_message, padded}

-- A read of bytes that a write does not touch.
pub read_at-before :
    (file : Bytes) (offset n i : ℕ) (buf : Bytes)
    → offset + n ≤ i
    → read_at (overwrite file i buf) offset n ≡ read_at file offset n
unfolding read_at
read_at-before file offset n i buf h =
    let same : take n (drop offset (overwrite file i buf)) ≡ take n (drop offset file) =
      ap (take n) (drop-overwrite file offset i buf (omega arith))
      ∙ take-overwrite_before (drop offset file) n (i - offset) buf (omega arith) in
    rw (read_at, length-overwrite file i buf, same) refl

pub read_at-after :
    (file : Bytes) (offset n i : ℕ) (buf : Bytes)
    → i + length buf ≤ offset
    → read_at (overwrite file i buf) offset n ≡ read_at file offset n
unfolding read_at
read_at-after file offset n i buf h =
    rw (read_at, length-overwrite file i buf, drop-overwrite_after file offset i buf h) refl

-- And of the bytes that it wrote.
pub read_at-overwrite :
    (file : Bytes) (i : ℕ) (buf : Bytes)
    → i + length buf ≤ length file
    → read_at (overwrite file i buf) i (length buf) ≡ ok buf
read_at-overwrite file i buf fits =
    read_at-fits (overwrite file i buf) i (length buf) (omega (arith, length-overwrite file i buf))
    ∙ ap (λ s. ok (take (length buf) s))
        (drop-overwrite file i i buf (omega arith)
          ∙ ap (λ k. overwrite (drop i file) k buf) (omega arith)
          ∙ overwrite-front (drop i file) buf (omega (arith, length-drop i file)))
    ∙ ap ok (take-append buf _)

module _ (directio_block_size : ℕ) where
  -- The first block has a header with these sizes.
  pub record HasHeader (sizes : Sizes) (file : Bytes) : Type 0 where
    pub fits : directio_block_size ≤ length file
    pub magic : bytes_eq (take 16 (take directio_block_size file)) magic_header ≡ true
    pub parses : parse_header directio_block_size (take directio_block_size file) ≡ ok sizes

  pub HasHeader-overwrite :
      (sizes : Sizes) (file : Bytes) (i : ℕ) (buf : Bytes)
      → directio_block_size ≤ i
      → HasHeader sizes file
      → HasHeader sizes (overwrite file i buf)
  HasHeader-overwrite sizes file i buf h header =
      let same = take-overwrite_before file directio_block_size i buf h in
      record {
        fits = omega (arith, length-overwrite file i buf, header.fits);
        magic = ap (λ block. bytes_eq (take 16 block) magic_header) same ∙ header.magic;
        parses = ap (parse_header directio_block_size) same ∙ header.parses;
      }

  pub read_header-HasHeader :
      (sizes : Sizes) (file : Bytes)
      → HasHeader sizes file
      → read_header directio_block_size file ≡ (ok sizes, file)
  unfolding read_header find_header
  read_header-HasHeader sizes file header =
      rw
        (
          read_header,
          find_header,
          read_at-fits file 0 directio_block_size (omega (arith, header.fits)),
          header.magic,
          header.parses,
        )
        refl

padded-parts :
    (b : ℕ) (buf : Bytes)
    → 4 + length buf ≤ b
    → (rest : Bytes) × (padded b buf ≡ put_uint32 (length buf) ++ (buf ++ rest))
unfolding put_uint32 overwrite
padded-parts b buf short =
    let blank : Bytes = drop 4 (replicate b 0) in
    (
      drop (length buf) blank,
      ap (λ s. overwrite s 4 buf)
            (overwrite-front (replicate b 0) (put_uint32 (length buf))
              (omega (arith, length-replicate {A = ℕ} b 0)))
          ∙ ap (λ s. put_uint32 (length buf) ++ s)
              (overwrite-front blank buf
                (omega (arith, length-drop 4 (replicate b 0), length-replicate {A = ℕ} b 0))),
    )

pub length-padded : (b : ℕ) (buf : Bytes) → length (padded b buf) ≡ b
length-padded b buf =
    length-overwrite (overwrite (replicate b 0) 0 (put_uint32 (length buf))) 4 buf
    ∙ length-overwrite (replicate b 0) 0 (put_uint32 (length buf))
    ∙ length-replicate b 0

-- A message that fits its block is read back from it.
pub read_message-padded :
    (directio_block_size : ℕ) (codec : Codec) (local_id b addr : ℕ) (buf file : Bytes)
    → 4 + length buf ≤ b
    → length buf < 2 ^ 32
    → read_at file (addr * b) b ≡ ok (padded b buf)
    → read_message directio_block_size codec local_id b (pos addr) file ≡ ok buf
unfolding read_message read_chunk
read_message-padded directio_block_size codec local_id b addr buf file short small stored =
    let (rest, e) = padded-parts b buf short in
    let len : uint32 (padded b buf) ≡ length buf =
      ap uint32 e ∙ uint32-put_uint32 (length buf) (buf ++ rest) small in
    let body : drop 4 (padded b buf) ≡ buf ++ rest =
      ap (drop 4) e
      ∙ ap (λ n. drop n (put_uint32 (length buf) ++ (buf ++ rest)))
          (sym (length-put_uint32 (length buf)))
      ∙ drop-append (put_uint32 (length buf)) (buf ++ rest) in
    rw
      (
        read_message,
        stored,
        len,
        length-padded b buf,
        le→leb (length buf) (b - 4) (omega arith),
        body,
        take-append buf rest,
      )
      refl
