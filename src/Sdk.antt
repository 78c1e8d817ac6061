-- ===== src/Sdk.antt =====
-- The parts of the WolkSDK-Cpp submodule, whose code is not in the repository, as interfaces. A
-- record holds the operations that the library calls; a law among its fields is documented behaviour.
pub mod Connectivity
pub mod Persistence
use wolk_connect_cpp.Base.{
  ℕ, ◌+◌, ◌-◌, ◌/◌, ◌^◌, ◌<◌, String, ◌≡◌, Bool, true, List, Option, none, some, ByteArray,
  if◌then◌else◌, str_eq,
}

-- model/BinaryData.h: one packet of a file, with its own hash and the previous packet's.
pub record BinaryDataApi : Type 1 where
  pub BinaryData : Type 0
  -- valid()
  pub valid : BinaryData → Bool
  -- validatePrevious()
  pub validate_first : BinaryData → Bool
  -- validatePrevious(previousPacketHash)
  pub validate_previous : BinaryData → ByteArray → Bool
  pub get_data : BinaryData → ByteArray
  pub get_hash : BinaryData → ByteArray

-- utilities/FileSystemUtils.h and the hash of utilities/ByteUtils.h, over the state of a disk.
pub record FileSystem : Type 1 where
  pub Disk : Type 0
  pub hash_sha256 : ByteArray → ByteArray
  -- composePath(fileName, directory)
  pub compose_path : String → String → String
  pub absolute_path : String → String
  -- createBinaryFileWithContent(path, content)
  pub create_binary_file_with_content : Disk → String → ByteArray → Bool × Disk
  -- deleteFile(path)
  pub delete_file : Disk → String → Bool × Disk
  -- listFiles(directory)
  pub list_files : Disk → String → List String
  -- The content that a file has, `none` where there is no readable file.
  pub content : Disk → String → Option ByteArray
  -- A write that reports success has written the content.
  pub content-create :
      (d : Disk) (path : String) (bytes : ByteArray)
      → (create_binary_file_with_content d path bytes).0 ≡ true
      → content (create_binary_file_with_content d path bytes).1 path ≡ some bytes

-- model/FileTransferStatus.h: the errors and statuses that the library names.
pub data FileTransferError : Type 0 where
  transfer_protocol_disabled unspecified_error file_system_error : FileTransferError
  retry_count_exceeded file_hash_mismatch : FileTransferError

pub data FileTransferStatus : Type 0 where
  file_transfer aborted file_ready : FileTransferStatus

-- model/FilePacketRequest.h
pub record FilePacketRequest : Type 0 where
  pub file_name : String
  pub chunk_index : ℕ
  pub chunk_size : ℕ

-- The length of a SHA-256 hash in bytes (ByteUtils::SHA_256_HASH_BYTE_LENGTH).
abbrev pub sha_256_hash_byte_length : ℕ
sha_256_hash_byte_length = 32

-- The double arithmetic of the packet count. The quotient of two numbers below 2 ^ 53, rounded to
-- double and then up, is the exact quotient rounded up; a double that is a 32-bit number converts to
-- that number. Nothing is assumed of a division by zero and of other conversions.
pub record Doubles : Type 0 where
  -- std::ceil(static_cast<double>(a) / b)
  pub ceil_quotient : ℕ → ℕ → ℕ
  -- static_cast<unsigned>
  pub to_unsigned : ℕ → ℕ
  pub ceil_quotient_exact :
      (a b : ℕ) → 0 < b → a < 2 ^ 53 → b < 2 ^ 53 → ceil_quotient a b ≡ (a + b - 1) / b
  pub to_unsigned_exact : (n : ℕ) → n < 2 ^ 32 → to_unsigned n ≡ n
