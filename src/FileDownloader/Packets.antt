-- ===== src/FileDownloader/Packets.antt =====
-- The packet count and packet size that FileDownloader::download chooses.
use native.Mathlib.Nat.{lt-div-mul-add, div-mul-le_self, div-lt_iff_lt-mul}
use wolk_connect_cpp.Base.{
  ℕ, zero, suc, if◌then◌else◌, ◌+◌, ◌-◌, ◌*◌, ◌/◌, ◌%◌, ◌^◌, ◌≤◌, ◌<◌, ◌≡◌, inl, inr, arith, leb,
  Bool-cases, leb→le,
}
use wolk_connect_cpp.Sdk.{Doubles}
use wolk_connect_cpp.FileDownloader.{packets, u64_mod}

-- A file size and packet limit for which the arithmetic of `download` is exact: some room for data
-- beside the two hashes, sizes below 2 ^ 53, and at most 2 ^ 32 - 1 packets.
pub record Fits (max_packet_size file_size : ℕ) : Type 0 where
  pub room : 64 < max_packet_size
  pub not_empty : 0 < file_size
  pub exact_size : file_size < 2 ^ 53
  pub exact_room : max_packet_size < 2 ^ 53
  pub few_packets : file_size ≤ (2 ^ 32 - 1) * (max_packet_size - 64)

ceil_cover : (a b : ℕ) → 0 < b → a ≤ (a + b - 1) / b * b
ceil_cover a b h = omega (arith, lt-div-mul-add {a = a + b - 1} h)

pred_mul : (q b : ℕ) → (q - 1) * b ≡ q * b - b
pred_mul zero b = omega arith
pred_mul (suc q) b = let e : suc q - 1 ≡ q = omega arith in rw e (omega arith)

pos_of_cover : (q b n : ℕ) → 0 < n → n ≤ q * b → 0 < q
pos_of_cover zero b n p h = absurd (omega arith)
pos_of_cover (suc q) b n p h = omega arith

ceil_tight : (a b : ℕ) → 0 < b → 0 < a → ((a + b - 1) / b - 1) * b < a
ceil_tight a b h p = omega (arith, pred_mul ((a + b - 1) / b) b, div-mul-le_self (a + b - 1) b)

ceil-le : (a b n : ℕ) → 0 < b → a ≤ n * b → (a + b - 1) / b ≤ n
ceil-le a b n h p =
    omega (arith, (div-lt_iff_lt-mul {k = b} {x = a + b - 1} {y = n + 1} h).1 (omega arith))

-- What `download` chooses, without the double arithmetic and the wrapping.
abbrev pub exact_packets : ℕ → ℕ → ℕ × ℕ
exact_packets max_packet_size file_size =
    if leb file_size (max_packet_size - 64)
    then (1, file_size + 64)
    else ((file_size + (max_packet_size - 64) - 1) / (max_packet_size - 64), max_packet_size)

exact_cover :
    (max_packet_size file_size : ℕ)
    → Fits max_packet_size file_size
    → (file_size ≤ (exact_packets max_packet_size file_size).0 * (max_packet_size - 64))
      × (((exact_packets max_packet_size file_size).0 - 1) * (max_packet_size - 64) < file_size)
      × ((exact_packets max_packet_size file_size).1 ≤ max_packet_size)
      × (0 < (exact_packets max_packet_size file_size).0)
      × ((exact_packets max_packet_size file_size).0 < 2 ^ 32)
exact_cover m n f =
    let room : ℕ = m - 64 in
    let cover = ceil_cover n room (omega arith) in
    elim (Bool-cases (leb n room)) [
      | inl small ↦ rw small (
        omega (arith, leb→le n room small),
        omega arith,
        omega (arith, leb→le n room small),
        omega arith,
        omega arith,
      )
      | inr big ↦ rw big (
        cover,
        ceil_tight n room (omega arith) (omega arith),
        omega arith,
        pos_of_cover ((n + room - 1) / room) room n (omega arith) cover,
        omega (arith, ceil-le n room (2 ^ 32 - 1) (omega arith) (omega arith)),
      )
    ]

module _ (doubles : Doubles) where
  -- For a file that fits, the double quotient and the unsigned arithmetic are exact.
  pub packets_exact :
      (max_packet_size file_size : ℕ)
      → Fits max_packet_size file_size
      → packets doubles max_packet_size file_size ≡ exact_packets max_packet_size file_size
  unfolding packets
  packets_exact m n f =
      let room : (m + u64_mod - 64) % u64_mod ≡ m - 64 = omega arith in
      let few = ceil-le n (m - 64) (2 ^ 32 - 1) (omega arith) f.few_packets in
      rw room (elim (Bool-cases (leb n (m - 64))) [
        | inl small ↦
            let size : (n + 64) % u64_mod ≡ n + 64 = omega (arith, leb→le n (m - 64) small) in
            rw (small, size)
        | inr big ↦ rw (
          big,
          doubles.ceil_quotient_exact n (m - 64) (omega arith) f.exact_size (omega arith),
          doubles.to_unsigned_exact ((n + (m - 64) - 1) / (m - 64)) (omega arith),
        )
      ])

  -- For a file that fits, the packets have room for the whole file and none is superfluous, no packet
  -- exceeds the limit, and the count is a positive 32-bit number.
  pub packets-cover :
      (max_packet_size file_size : ℕ)
      → Fits max_packet_size file_size
      → (file_size ≤ (packets doubles max_packet_size file_size).0 * (max_packet_size - 64))
        × (((packets doubles max_packet_size file_size).0 - 1) * (max_packet_size - 64) < file_size)
        × ((packets doubles max_packet_size file_size).1 ≤ max_packet_size)
        × (0 < (packets doubles max_packet_size file_size).0)
        × ((packets doubles max_packet_size file_size).0 < 2 ^ 32)
  packets-cover m n f = rw (packets_exact m n f) (exact_cover m n f)

  -- With a limit below the length of the two hashes the subtraction wraps: for every file whose size is
  -- less than 2 ^ 64 - 64, one packet of that size and 64 is requested for the whole file, and it exceeds
  -- the limit.
  pub packets_undersized :
      (max_packet_size file_size : ℕ)
      → max_packet_size < 64
      → file_size < 2 ^ 64 - 64
      → (packets doubles max_packet_size file_size ≡ (1, file_size + 64))
        × (max_packet_size < (packets doubles max_packet_size file_size).1)
  unfolding packets
  packets_undersized m n h k =
      let room : (m + u64_mod - 64) % u64_mod ≡ m + u64_mod - 64 = omega arith in
      let size : (n + 64) % u64_mod ≡ n + 64 = omega arith in rw (room, size) (ground arith)
