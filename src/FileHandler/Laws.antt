-- ===== src/FileHandler/Laws.antt =====
-- What FileHandler::handleData accepts, for one packet and for a sequence of packets.
use wolk_connect_cpp.Base.{
  ◌↔◌, String, some, bytes_eq→eq, bytes_eq_refl, ◌≡◌, ◌≢◌, ◌⊎◌, inl, inr, refl, true, List, [], ◌∷◌,
  ◌++◌, ByteArray, arith, Bool-cases,
}
use wolk_connect_cpp.Sdk.{BinaryDataApi, FileSystem}
use wolk_connect_cpp.FileHandler.{FileHandler, StatusCode, handle_data, validate_file, save_file}

module _ (api : BinaryDataApi) where
  open api use {BinaryData, valid, validate_first, validate_previous, get_data, get_hash}

  -- The packet is intact and continues the packet with the given hash; a file has no hash before it.
  abbrev pub Follows : ByteArray → BinaryData → Type 0
  Follows previous b =
      (valid b ≡ true)
      × (((previous ≡ []) × (validate_first b ≡ true))
          ⊎ ((previous ≢ []) × (validate_previous b previous ≡ true)))

  -- Each packet continues the one before it.
  abbrev pub Chain : ByteArray → List BinaryData → Type 0
  Chain previous [] = Unit
  Chain previous (b ∷ bs) = Follows previous b × Chain (get_hash b) bs

  -- The bytes of the packets, in order.
  abbrev pub contents : List BinaryData → ByteArray
  contents [] = []
  contents (b ∷ bs) = get_data b ++ contents bs

  unfoldable pub append : FileHandler → BinaryData → FileHandler
  append h b = record h {
    current_packet_data = h.current_packet_data ++ get_data b;
    previous_packet_hash = get_hash b;
  }

  handle_data-by :
      (h : FileHandler) (previous : ByteArray) (b : BinaryData)
      → h.previous_packet_hash ≡ previous
      → (Follows previous b × (handle_data api h b ≡ (StatusCode.ok, append h b)))
        ⊎ ((¬ Follows previous b)
            × ((handle_data api h b ≡ (StatusCode.package_hash_not_valid, h))
                ⊎ (handle_data api h b ≡ (StatusCode.previous_package_hash_not_valid, h))))
  unfolding handle_data append
  handle_data-by h [] b e = elim (Bool-cases (valid b)) [
    | inl v ↦ elim (Bool-cases (validate_first b)) [
      | inl w ↦ inl ((v, inl (refl, w)), rw (e, v, w))
      | inr w ↦ inr ((λ f. ground arith), inr (ground arith))
    ]
    | inr v ↦ inr ((λ f. ground arith), inl (ground arith))
  ]
  handle_data-by h (x ∷ xs) b e = elim (Bool-cases (valid b)) [
    | inl v ↦ elim (Bool-cases (validate_previous b (x ∷ xs))) [
      | inl w ↦ inl ((v, inr ((λ c. cc), w)), ground arith)
      | inr w ↦ inr ((λ f. ground arith), inr (ground arith))
    ]
    | inr v ↦ inr ((λ f. ground arith), inl (ground arith))
  ]

  -- A packet is appended exactly when it is intact and continues the file; any other packet is
  -- answered by one of the two packet errors and changes nothing.
  pub handle_data-cases :
      (h : FileHandler) (b : BinaryData)
      → (Follows h.previous_packet_hash b × (handle_data api h b ≡ (StatusCode.ok, append h b)))
        ⊎ ((¬ Follows h.previous_packet_hash b)
            × ((handle_data api h b ≡ (StatusCode.package_hash_not_valid, h))
                ⊎ (handle_data api h b ≡ (StatusCode.previous_package_hash_not_valid, h))))
  handle_data-cases h b = handle_data-by h h.previous_packet_hash b refl

  -- A packet that continues the file is appended to it.
  pub handle_data-Follows :
      (h : FileHandler) (b : BinaryData)
      → Follows h.previous_packet_hash b
      → handle_data api h b ≡ (StatusCode.ok, append h b)
  handle_data-Follows h b f = elim (handle_data-cases h b) [
    | inl (_, e) ↦ e
    | inr (no_, _) ↦ absurd (no_ f)
  ]

module _ (sys : FileSystem) where
  -- The file is valid exactly when its SHA-256 hash is the expected one.
  pub validate_file-ok_iff :
      (h : FileHandler) (file_hash : ByteArray)
      → (validate_file sys h file_hash ≡ StatusCode.ok)
        ↔ (file_hash ≡ sys.hash_sha256 h.current_packet_data)
  unfolding validate_file
  validate_file-ok_iff h file_hash = (
    λ e. bytes_eq→eq file_hash (sys.hash_sha256 h.current_packet_data) (ground arith),
    λ e. rw (e, bytes_eq_refl (sys.hash_sha256 h.current_packet_data)),
  )

  pub save_file-ok :
      (h : FileHandler) (disk : sys.Disk) (file_name directory : String)
      → (save_file sys h disk file_name directory).0 ≡ StatusCode.ok
      → sys.content
          (save_file sys h disk file_name directory).1
          (sys.compose_path file_name directory)
        ≡ some h.current_packet_data
  unfolding save_file
  save_file-ok h disk file_name directory e =
      sys.content-create disk (sys.compose_path file_name directory) h.current_packet_data
        (ground arith)

  pub save_file-create :
      (h : FileHandler) (disk : sys.Disk) (file_name directory : String)
      → (sys.create_binary_file_with_content disk
          (sys.compose_path file_name directory)
          h.current_packet_data).0
        ≡ true
      → (save_file sys h disk file_name directory).0 ≡ StatusCode.ok
  unfolding save_file
  save_file-create h disk file_name directory e = rw e
