-- ===== src/Spool/Framing.antt =====
-- queue.go: what is framed can be read again.
use gta.Base.{
  ℕ, suc, ◌+◌, ◌*◌, ◌/◌, ◌%◌, ◌<◌, ◌≡◌, ap, subst, List, ◌++◌, arith, length, take, drop,
  take-append_length, drop-append_length,
}
use gta.Spool.Records.{be32, read_be32, frame, read_at, header_size}

-- What fits the four bytes of a header.
abbrev pub Fits : List ℕ → Type 0
Fits rec = length rec < 4294967296

bytes_of :
    (n : ℕ)
    → n < 4294967296
    → (((n / 16777216) % 256 * 256 + (n / 65536) % 256) * 256 + (n / 256) % 256) * 256 + n % 256 ≡ n
bytes_of n h = omega arith

pub read_be32-frame : (rec rest : List ℕ) → Fits rec → read_be32 (frame rec ++ rest) ≡ length rec
unfolding read_be32 frame be32
read_be32-frame rec rest h = bytes_of (length rec) h

pub read_be32-frame_header :
    (rec rest : List ℕ) → Fits rec → read_be32 (take 4 (frame rec ++ rest)) ≡ length rec
unfolding read_be32 frame be32
read_be32-frame_header rec rest h = bytes_of (length rec) h

pub length-frame : (rec : List ℕ) → length (frame rec) ≡ header_size + length rec
unfolding frame be32
length-frame rec = omega arith

four_more : (n : ℕ) → suc (suc (suc (suc n))) ≡ header_size + n
four_more n = omega arith

pub drop-frame : (rec rest : List ℕ) → drop (header_size + length rec) (frame rec ++ rest) ≡ rest
unfolding frame be32
drop-frame rec rest =
    subst (λ z. drop z (frame rec ++ rest) ≡ rest) (four_more (length rec))
      (drop-append_length rec rest)

pub take-frame :
    (rec rest : List ℕ) → take (header_size + length rec) (frame rec ++ rest) ≡ frame rec
unfolding frame be32
take-frame rec rest =
    subst (λ z. take z (frame rec ++ rest) ≡ frame rec) (four_more (length rec))
      (ap (λ xs. be32 (length rec) ++ xs) (take-append_length rec rest))

pub body-frame : (rec rest : List ℕ) → read_at (frame rec ++ rest) header_size (length rec) ≡ rec
unfolding frame be32
body-frame rec rest = take-append_length rec rest
