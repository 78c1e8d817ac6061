-- ===== src/FileHandler.antt =====
-- src/service/file/FileHandler.h and FileHandler.cpp: assembles a file from its packets.
pub mod Laws
pub mod Tests
use wolk_connect_cpp.Base.{String, Bool, ByteArray, bytes_eq, [], ◌++◌, is_nil, if◌then◌else◌}
use wolk_connect_cpp.Sdk.{BinaryDataApi, FileSystem}

pub data StatusCode : Type 0 where
  ok package_hash_not_valid previous_package_hash_not_valid : StatusCode
  file_hash_not_valid file_handling_error : StatusCode

pub record FileHandler : Type 0 where
  pub current_packet_data : ByteArray
  pub previous_packet_hash : ByteArray

-- FileHandler(), and the state after clear().
abbrev pub empty : FileHandler
empty = record { current_packet_data = []; previous_packet_hash = [] }

unfoldable pub clear : FileHandler → FileHandler
clear h = record h { current_packet_data = []; previous_packet_hash = [] }

module _ (api : BinaryDataApi) where
  open api use {BinaryData, valid, validate_first, validate_previous, get_data, get_hash}

  abbrev previous_valid : FileHandler → BinaryData → Bool
  previous_valid h b =
      if is_nil h.previous_packet_hash
      then validate_first b
      else validate_previous b h.previous_packet_hash

  unfoldable pub handle_data : FileHandler → BinaryData → StatusCode × FileHandler
  handle_data h b =
      if valid b
      then (if previous_valid h b
          then (
            StatusCode.ok,
            record h {
              current_packet_data = h.current_packet_data ++ get_data b;
              previous_packet_hash = get_hash b;
            },
          )
          else (previous_package_hash_not_valid, h))
      else (package_hash_not_valid, h)

module _ (sys : FileSystem) where
  open sys use {Disk, hash_sha256, compose_path, create_binary_file_with_content}

  unfoldable pub validate_file : FileHandler → ByteArray → StatusCode
  validate_file h file_hash =
      if bytes_eq file_hash (hash_sha256 h.current_packet_data)
      then StatusCode.ok
      else file_hash_not_valid

  -- saveFile(filePath)
  save_file_at : FileHandler → Disk → String → StatusCode × Disk
  save_file_at h d path =
      let (created, d') = create_binary_file_with_content d path h.current_packet_data in
      (if created then StatusCode.ok else file_handling_error, d')

  -- saveFile(fileName, directory)
  unfoldable pub save_file : FileHandler → Disk → String → String → StatusCode × Disk
  unfolding save_file_at
  save_file h d file_name directory = save_file_at h d (compose_path file_name directory)
